-- ===== src/Requests/Clicks.antt =====
-- internal/gw/itemstack.go: clickFor, and how the world reads a click.
use tachyne_gw_bedrock.Prelude.{
  ℕ, ◌<◌, ◌≡◌, ◌≢◌, refl, sym, ◌∙◌, true, List, [], ◌∷◌, ◌⊎◌, inl, inr, ◌==◌, arith, if◌then◌else◌,
  length, get_or, set, length-set, get_or-set_self, get_or-set_ne, eq_of_get_or, Bool-cases, false,
  not, ◌&&◌, Option, some, none, ap, ℕ_discrete,
}
use tachyne_gw_bedrock.Item.{ItemStack, no_item}
use tachyne_gw_bedrock.Mirror.{Mirror}
use tachyne_gw_bedrock.Moves.{WindowClick}
use tachyne_gw_bedrock.Requests.Steps.{Work, elem}
use tachyne_gw_bedrock.Requests.Frame.{Declares}

-- The loop of clickFor: the cursor is carried in the click's own field, not as a slot.
unfoldable pub declare_slots : List ItemStack → ℕ → List ℕ → List (ℕ × ItemStack)
declare_slots slots cursor [] = []
declare_slots slots cursor (j ∷ changed) =
    if j == cursor
    then declare_slots slots cursor changed
    else (j, get_or slots j no_item) ∷ declare_slots slots cursor changed

abbrev first_slot : List (ℕ × ItemStack) → ℕ
first_slot [] = 0
first_slot ((j, st) ∷ rest) = j

-- clickFor. The changed slots come from a request, and are inside the window.
unfoldable pub click_for : Mirror → List ℕ → WindowClick
unfolding declare_slots
click_for m changed =
    let declared = declare_slots m.slots m.cursor changed in
    record {
      window = m.window;
      slot = first_slot declared;
      changed = declared;
      held = get_or m.slots m.cursor no_item;
    }

-- clickFor's slot is 0 or one of the changed slots.
pub first_slot-changed :
    (slots : List ItemStack) (cursor result : ℕ) (changed : List ℕ)
    → elem result changed ≡ false
    → ((result ≢ 0) ⊎ ((j : ℕ) × (elem j changed ≡ true) × (j ≢ cursor)))
    → first_slot (declare_slots slots cursor changed) ≢ result
unfolding declare_slots elem
first_slot-changed slots cursor result [] h (inl n) = λ e. n (sym e)
first_slot-changed slots cursor result [] h (inr (j, e, n)) = λ _. cc
first_slot-changed slots cursor result (k ∷ ks) h s = elim (Bool-cases (k == cursor)) [
  | inl held ↦ rw held (first_slot-changed slots cursor result ks (ground arith) (later held s))
  | inr free ↦ rw free (ground arith)
]
  where
    still : (j : ℕ) → elem j (k ∷ ks) ≡ true → j ≢ cursor → (k == cursor) ≡ true → elem j ks ≡ true
    still j e n held = ground arith

    later :
        (k == cursor) ≡ true
        → ((result ≢ 0) ⊎ ((j : ℕ) × (elem j (k ∷ ks) ≡ true) × (j ≢ cursor)))
        → (result ≢ 0) ⊎ ((j : ℕ) × (elem j ks ≡ true) × (j ≢ cursor))
    later held (inl n) = inl n
    later held (inr (j, e, n)) = inr (j, still j e n held, n)

-- What a window holds after the slots that a click declares, in their order.
unfoldable pub replay_slots : List (ℕ × ItemStack) → List ItemStack → List ItemStack
replay_slots [] xs = xs
replay_slots ((j, st) ∷ rest) xs = replay_slots rest (set xs j st)

-- The declared slots, and the cursor.
pub replay : WindowClick → ℕ → List ItemStack → List ItemStack
replay c cursor xs = set (replay_slots c.changed xs) cursor c.held

-- The world's reading of a click in the window that it has open: a click for another window and one on the result slot
-- (result, which a window without one has outside itself) leave the declared slots aside, the second because the world
-- then crafts.
pub read_click : Mirror → WindowClick → Option (List ItemStack)
read_click m c =
    if c.window == m.window && not (c.slot == m.result)
    then some (replay c m.cursor m.slots)
    else none

pub length-replay_slots :
    (ps : List (ℕ × ItemStack)) (xs : List ItemStack) → length (replay_slots ps xs) ≡ length xs
unfolding replay_slots
length-replay_slots [] xs = refl
length-replay_slots ((j, st) ∷ rest) xs =
    length-replay_slots rest (set xs j st) ∙ length-set xs j st

-- A slot that is settled, declared or untouched, is right after the replay.
replay_slots-get_or :
    (final : List ItemStack) (cursor : ℕ) (changed : List ℕ) (xs : List ItemStack) (j : ℕ)
    → j ≢ cursor
    → j < length xs
    → ((elem j changed ≡ true) ⊎ (get_or xs j no_item ≡ get_or final j no_item))
    → get_or (replay_slots (declare_slots final cursor changed) xs) j no_item
      ≡ get_or final j no_item
unfolding replay_slots declare_slots elem
replay_slots-get_or final cursor [] xs j ne h (inl e) = cc
replay_slots-get_or final cursor [] xs j ne h (inr e) = e
replay_slots-get_or final cursor (k ∷ ks) xs j ne h settled = ground (
  arith,
  replay_slots-get_or final cursor ks xs j ne h,
  replay_slots-get_or final cursor ks (set xs k (get_or final k no_item)) j ne,
  length-set xs k (get_or final k no_item),
  get_or-set_self xs k (get_or final k no_item) no_item,
  get_or-set_ne xs k j (get_or final k no_item) no_item,
)

-- The click tells the world all that a request has done: with every touched slot among the
-- changed ones, in any order and any number of times, the world ends with the mirror's slots.
pub replay-click_for :
    (m : Mirror) (base : List ItemStack) (w : Work) (changed : List ℕ)
    → Declares base w
    → m.cursor < length base
    → ((j : ℕ) → elem j w.touched ≡ true → elem j changed ≡ true)
    → replay (click_for (record m { slots = w.slots }) changed) m.cursor base ≡ w.slots
unfolding replay click_for
replay-click_for m base w changed d inside covers = eq_of_get_or _ _ no_item sizes at_each
  where
    ps : List (ℕ × ItemStack)
    ps = declare_slots w.slots m.cursor changed

    sizes :
        length (set (replay_slots ps base) m.cursor (get_or w.slots m.cursor no_item))
        ≡ length w.slots
    sizes = omega (
      arith,
      length-set (replay_slots ps base) m.cursor (get_or w.slots m.cursor no_item),
      length-replay_slots ps base,
      d.size,
    )

    settled : (j : ℕ) → (elem j changed ≡ true) ⊎ (get_or base j no_item ≡ get_or w.slots j no_item)
    settled j = elim (Bool-cases (elem j w.touched)) [
      | inl t ↦ inl (covers j t)
      | inr f ↦ inr (sym (d.untouched j f))
    ]

    at_each :
        (j : ℕ)
        → j < length (set (replay_slots ps base) m.cursor (get_or w.slots m.cursor no_item))
        → get_or (set (replay_slots ps base) m.cursor (get_or w.slots m.cursor no_item)) j no_item
          ≡ get_or w.slots j no_item
    at_each j h = elim (ℕ_discrete j m.cursor) [
      | yes here ↦ rw here (
          get_or-set_self (replay_slots ps base) m.cursor _ no_item
            (omega (arith, length-replay_slots ps base)))
      | no off ↦
          get_or-set_ne (replay_slots ps base) m.cursor j _ no_item (λ e. off (sym e))
          ∙ replay_slots-get_or w.slots m.cursor changed base j off
              (omega (arith, h, sizes, d.size)) (settled j)
    ]

-- The click that is made is on storage: some changed slot is not the cursor, or else slot 0 is not the result.
abbrev pub OnStorage : Mirror → List ℕ → Type 0
OnStorage m changed = (m.result ≢ 0) ⊎ ((j : ℕ) × (elem j changed ≡ true) × (j ≢ m.cursor))

-- Told with a slot that is not the result, the world's window becomes the mirror's.
pub read_click-click_for :
    (m : Mirror) (w : Work) (changed : List ℕ)
    → Declares m.slots w
    → m.cursor < length m.slots
    → ((j : ℕ) → elem j w.touched ≡ true → elem j changed ≡ true)
    → elem m.result changed ≡ false
    → OnStorage m changed
    → read_click m (click_for (record m { slots = w.slots }) changed) ≡ some w.slots
unfolding read_click click_for
read_click-click_for m w changed d inside covers apart stored =
    let told = replay-click_for m m.slots w changed d inside covers in
    let off = first_slot-changed w.slots m.cursor m.result changed apart stored in
    let stores : (first_slot (declare_slots w.slots m.cursor changed) == m.result) ≡ false =
      ground (arith, off) in
    let here : (m.window == m.window) ≡ true = ground arith in rw (here, stores) (ap some told)
