-- ===== src/Windows/Invariant.antt =====
-- internal/gw/window.go: the shape of the mirror of an open window.
use tachyne_gw_bedrock.Prelude.{
  Safe, Safe-bind, lt→ltb, Bool-cases, inl, inr, ◌-◌, ℕ, ◌+◌, ◌<◌, ◌^◌, ◌≡◌, refl, sym, ap, ◌∙◌,
  Bool, true, false, List, Option, some, arith, length, ◌==◌, if◌then◌else◌,
}
use tachyne_gw_bedrock.Layouts.{WinSlot, WindowType, same_type, crafter_tail}
use tachyne_gw_bedrock.Mirror.{Mirror, EnchantRow, new_window_mirror, set_tail}
use tachyne_gw_bedrock.Mirror.Invariant.{
  IsMirror, Shape, new_window_mirror-IsMirror, set_tail-IsMirror,
}
use tachyne_gw_bedrock.Windows.{
  WinState, typed, opened, enchant_prop, enchant_options, crafter_prop, beacon_prop, window_data,
  put_row, between, or_same,
}

-- Two mirrors with the same layout and as many slots; what they hold and their dials may differ.
pub record SameShape (m n : Mirror) : Type 0 where
  pub own : n.own ≡ m.own
  pub cursor : n.cursor ≡ m.cursor
  pub result : n.result ≡ m.result
  pub layout : n.layout ≡ m.layout
  pub tail : n.tail ≡ m.tail
  pub size : length n.slots ≡ length m.slots

pub SameShape-refl : (m : Mirror) → SameShape m m
SameShape-refl m = record {
  own = refl;
  cursor = refl;
  result = refl;
  layout = refl;
  tail = refl;
  size = refl;
}

Shape-same :
    (b : Bool) (m n : Mirror)
    → n.cursor ≡ m.cursor
    → n.result ≡ m.result
    → n.layout ≡ m.layout
    → n.tail ≡ m.tail
    → Shape b m
    → Shape b n
Shape-same true m n c r l t s = (c ∙ s.0, r ∙ s.1)
Shape-same false m n c r l t s = ground (arith, s.0, s.1)

Shape-own : (b c : Bool) (m : Mirror) → c ≡ b → Shape b m → Shape c m
Shape-own b c m e s = rw e s

pub SameShape-IsMirror : (m n : Mirror) → SameShape m n → IsMirror m → IsMirror n
SameShape-IsMirror m n e v = record {
  sized = e.size ∙ v.sized ∙ ap (λ k. k + 1) (sym e.cursor);
  small = omega (arith, e.size, v.small);
  shape =
      Shape-own m.own n.own n e.own
        (Shape-same m.own m n e.cursor e.result e.layout e.tail v.shape);
}

-- A container window's mirror.
pub record IsWindow (m : Mirror) : Type 0 where
  pub mirror : IsMirror m
  pub container : m.own ≡ false

pub SameShape-IsWindow : (m n : Mirror) → SameShape m n → IsWindow m → IsWindow n
SameShape-IsWindow m n e v = record {
  mirror = SameShape-IsMirror m n e v.mirror;
  container = e.own ∙ v.container;
}

pub SameShape-if :
    (m : Mirror) (b : Bool) {x y : Mirror}
    → SameShape m x
    → SameShape m y
    → SameShape m (if b then x else y)
SameShape-if m true p q = p
SameShape-if m false p q = q

SameShape-ench : (m : Mirror) (rows : List EnchantRow) → SameShape m (record m { ench = rows })
SameShape-ench m rows = record {
  own = refl;
  cursor = refl;
  result = refl;
  layout = refl;
  tail = refl;
  size = refl;
}

typed-SameShape :
    (w : WinState) (id : ℕ) (l : List WinSlot) (ctype : WindowType)
    → SameShape (new_window_mirror id l) (typed w id l ctype)
unfolding typed
typed-SameShape w id l ctype = record {
  own = refl;
  cursor = refl;
  result = refl;
  layout = refl;
  tail = refl;
  size = refl;
}

pub SameShape-trans : {m n o : Mirror} → SameShape m n → SameShape n o → SameShape m o
SameShape-trans p q = record {
  own = q.own ∙ p.own;
  cursor = q.cursor ∙ p.cursor;
  result = q.result ∙ p.result;
  layout = q.layout ∙ p.layout;
  tail = q.tail ∙ p.tail;
  size = q.size ∙ p.size;
}

SameShape-dials :
    (m : Mirror) (page mask : ℕ) (triggered : Bool) (primary secondary : ℕ)
    → SameShape m (record m {
      lectern_page = page;
      crafter_mask = mask;
      crafter_triggered = triggered;
      beacon_primary = primary;
      beacon_secondary = secondary;
    })
SameShape-dials m page mask triggered primary secondary = record {
  own = refl;
  cursor = refl;
  result = refl;
  layout = refl;
  tail = refl;
  size = refl;
}

-- What opens is in shape, whatever the layout.
pub opened-IsWindow :
    (w : WinState) (id : ℕ) (l : List WinSlot) (ctype : WindowType)
    → length l < 2 ^ 29
    → IsWindow (opened w id l ctype)
unfolding opened
opened-IsWindow w id l ctype h = tailed (same_type ctype WindowType.crafter)
  where
    plain : IsWindow (typed w id l ctype)
    plain =
        SameShape-IsWindow (new_window_mirror id l) (typed w id l ctype)
          (typed-SameShape w id l ctype)
          (record { mirror = new_window_mirror-IsMirror id l (omega arith); container = refl })

    tailed :
        (b : Bool)
        → IsWindow
            (record (if b then set_tail (typed w id l ctype) crafter_tail else typed w id l ctype) {
              ench = (opened w id l ctype).ench;
            })
    tailed true =
        SameShape-IsWindow (set_tail (typed w id l ctype) crafter_tail) _
          (SameShape-ench (set_tail (typed w id l ctype) crafter_tail) _)
          (record {
            mirror =
                set_tail-IsMirror (typed w id l ctype) crafter_tail plain.mirror refl (omega arith);
            container = refl;
          })
    tailed false = SameShape-IsWindow (typed w id l ctype) _ (SameShape-ench _ _) plain

put_row-Safe :
    (m : Mirror) (i : ℕ) (change : EnchantRow → EnchantRow) (told : Bool)
    → i < 3
    → Safe (λ x. SameShape m x.0) (put_row m i change told)
put_row-Safe m i change told h = rw (lt→ltb i 3 h) (SameShape-ench m _)

-- The bounds of enchantProp keep to its three rows.
enchant_prop-Safe :
    (renumber : ℕ → ℕ) (m : Mirror) (prop value : ℕ)
    → prop < 2 ^ 32
    → Safe (λ x. SameShape m x.0) (enchant_prop renumber m prop value)
unfolding enchant_prop
enchant_prop-Safe renumber m prop value h = elim (Bool-cases (between 0 2 prop)) [
  | inl q ↦ rw q (put_row-Safe m prop (λ r. record r { cost = value }) false (ground arith))
  | inr q ↦ rw q (elim (Bool-cases (between 4 6 prop)) [
    | inl q ↦ rw q (
        put_row-Safe m (prop - 4) (λ r. record r { bedrock = renumber value }) false (ground arith))
    | inr q ↦ rw q (elim (Bool-cases (between 7 9 prop)) [
      | inl q ↦
          rw q (put_row-Safe m (prop - 7) (λ r. record r { level = value }) true (ground arith))
      | inr q ↦ rw q (SameShape-refl m)
    ])
  ])
]

or_same-SameShape :
    (m : Mirror) (b : Bool) (o : Option Mirror) {x : Mirror}
    → SameShape m x
    → SameShape m (or_same m o)
    → SameShape m (or_same m (if b then some x else o))
or_same-SameShape m true o p q = p
or_same-SameShape m false o p q = q

-- No property of a menu indexes out of range or changes the shape.
pub window_data-Safe :
    (renumber : ℕ → ℕ) (counter : ℕ) (m : Mirror) (ctype : WindowType) (prop value : ℕ)
    → prop < 2 ^ 32
    → Safe (SameShape m) (window_data renumber counter m ctype prop value)
unfolding window_data enchant_options beacon_prop crafter_prop
window_data-Safe renumber counter m WindowType.enchantment prop value h =
    Safe-bind _ (λ x. SameShape m x.0) (enchant_prop renumber m prop value) _
      (enchant_prop-Safe renumber m prop value h)
      λ (m', told) _ same. SameShape-if m told (SameShape-trans same (SameShape-ench _ _)) same
window_data-Safe renumber counter m WindowType.beacon prop value h =
    or_same-SameShape m (prop == 1) _ (SameShape-dials m _ _ _ _ _)
      (or_same-SameShape m (prop == 2) _ (SameShape-dials m _ _ _ _ _) (SameShape-refl m))
window_data-Safe renumber counter m WindowType.crafter prop value h =
    or_same-SameShape m (between 0 8 prop) _ (SameShape-dials m _ _ _ _ _)
      (or_same-SameShape m (prop == 9) _ (SameShape-dials m _ _ _ _ _) (SameShape-refl m))
window_data-Safe renumber counter m WindowType.lectern prop value h =
    SameShape-if m (prop == 0) (SameShape-dials m _ _ _ _ _) (SameShape-refl m)
window_data-Safe renumber counter m _ prop value h = SameShape-refl m
