-- ===== src/Session/Writes.antt =====
-- internal/gw/session.go: the writes of the world's frames stay inside a mirror in shape.
use tachyne_gw_bedrock.Prelude.{
  ℕ, ◌<◌, ◌^◌, ◌≡◌, refl, Bool, true, false, List, Option, none, some, if◌then◌else◌, lt_i32, arith,
  length, length-set, leb, Res, ok, panic, Safe, Safe-bind, Safe-if, Bool-cases, inl, inr,
  get_elem?, ltb,
}
use tachyne_gw_bedrock.Item.{ItemStack}
use tachyne_gw_bedrock.Layouts.{WinSlot}
use tachyne_gw_bedrock.Mirror.{Mirror, set_all, write_all, set_slot, set_cursor, map_out, tail_slot}
use tachyne_gw_bedrock.Mirror.Writes.{put_at-inside, write_all-set_all}
use tachyne_gw_bedrock.Mirror.Mapping.{get_elem?-lt}
use tachyne_gw_bedrock.Shows.{in_layout_slot, in_lower_half, window_slot_at, send_window_slot}
use tachyne_gw_bedrock.Mirror.Invariant.{IsMirror, length-set_all}
use tachyne_gw_bedrock.Windows.Invariant.{SameShape, SameShape-refl, IsWindow}
use tachyne_gw_bedrock.Session.{set_and_show}

-- What an index in range leaves has the mirror's shape.
abbrev pub Writes : (Mirror → Res Mirror) → Type 0
Writes f = (m : Mirror) → IsMirror m → Safe (SameShape m) (f m)

pub slots-SameShape :
    (m : Mirror) (xs : List ItemStack)
    → length xs ≡ length m.slots
    → SameShape m (record m { slots = xs })
slots-SameShape m xs e = record {
  own = refl;
  cursor = refl;
  result = refl;
  layout = refl;
  tail = refl;
  size = e;
}

pub set_slot-Writes : (slot : ℕ) (st : ItemStack) → Writes (λ m. set_slot m slot st)
unfolding set_slot
set_slot-Writes slot st m v =
    Safe-if _ (lt_i32 slot 0) _ _ (SameShape-refl m)
      (elim (Bool-cases (leb (length m.slots) slot)) [
        | inl h ↦ rw h (SameShape-refl m)
        | inr h ↦
            rw (h, put_at-inside m.slots slot st (ground arith))
              (slots-SameShape m _ (length-set m.slots slot st))
      ])

pub write_all-Writes :
    (frame : List ItemStack) (held : ItemStack) → Writes (λ m. write_all m frame held)
unfolding set_all
write_all-Writes frame held m v =
    rw (write_all-set_all m frame held v) (slots-SameShape m _ (length-set_all m frame held))

pub set_cursor-Writes : (st : ItemStack) → Writes (λ m. set_cursor m st)
unfolding set_cursor
set_cursor-Writes st m v =
    rw (put_at-inside m.slots m.cursor st (omega (arith, v.sized)))
      (slots-SameShape m _ (length-set m.slots m.cursor st))

-- sendWindowSlot indexes inside the layout, for a slot that is not negative.
send_window_slot-Safe :
    (m : Mirror) (slot : ℕ) (st : ItemStack)
    → slot < 2 ^ 31
    → Safe (λ shown. Unit {0}) (send_window_slot m slot st)
unfolding send_window_slot
send_window_slot-Safe m slot st h = by (tail_slot m slot)
  where
    in_layout :
        (b : Bool)
        → ltb slot (length m.layout) ≡ b
        → Safe
            (λ shown. Unit {0})
            (if b
              then in_layout_slot m (get_elem? m.layout slot) st
              else if lt_i32 slot 0
              then panic
              else ok (in_lower_half (map_out m slot) st))
    in_layout true e = let (ws, q) = get_elem?-lt m.layout slot (ground arith) in rw q tt
    in_layout false e = ground arith

    by : (o : Option WinSlot) → Safe (λ shown. Unit {0}) (window_slot_at m slot st o)
    by (some ws) = tt
    by none = in_layout (ltb slot (length m.layout)) refl

pub set_and_show-Safe :
    (slot : ℕ) (st : ItemStack) (m : Mirror)
    → slot < 2 ^ 31
    → IsWindow m
    → Safe (SameShape m) (set_and_show m slot st)
set_and_show-Safe slot st m h v =
    Safe-bind _ (SameShape m) (set_slot m slot st) _ (set_slot-Writes slot st m v.mirror)
      λ m' _ same.
        Safe-bind _ (λ shown. Unit {0}) (send_window_slot m' slot st) _
          (send_window_slot-Safe m' slot st h) λ _ _ _. same
