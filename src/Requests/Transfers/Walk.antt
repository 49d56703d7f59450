-- ===== src/Requests/Transfers/Walk.antt =====
-- internal/gw/itemstack.go: one action of a request that crafts nothing, as the move it makes.
use tachyne_gw_bedrock.Prelude.{
  or_refuse-eq-ok, ℕ, ◌<◌, ◌^◌, ◌≡◌, List, [], ◌∷◌, ok, some, Bool, true, false,
}
use tachyne_gw_bedrock.Item.{ItemStack}
use tachyne_gw_bedrock.Protocol.{SlotInfo, Action, take, place, swap, drop}
use tachyne_gw_bedrock.Mirror.{Mirror, map_in}
use tachyne_gw_bedrock.Moves.{
  transfer, swap_slots, shed, transfer-Transferred, swap_slots-written, shed-written,
}
use tachyne_gw_bedrock.Requests.Steps.{Work, touch}
use tachyne_gw_bedrock.Requests.Frame.{Declares, set-Declares, set-set-Declares}
use tachyne_gw_bedrock.Requests.Transfers.{apply_transfer, apply_action}

-- The counts of a request are bytes.
abbrev pub IsByteCounted : Action → Type 0
IsByteCounted (take from to count) = count < 2 ^ 8
IsByteCounted (place from to count) = count < 2 ^ 8
IsByteCounted (drop from count) = count < 2 ^ 8
IsByteCounted _ = Unit {0}

abbrev pub AreByteCounted : List Action → Type 0
AreByteCounted [] = Unit {0}
AreByteCounted (a ∷ rest) = IsByteCounted a × AreByteCounted rest

-- Whether an action throws items out of the window.
abbrev pub throws : Action → Bool
throws (drop from count) = true
throws _ = false

module _ (m : Mirror) where
  pub apply_transfer-moved :
      (w : Work) (from to : SlotInfo) (count : ℕ) (w' : Work)
      → apply_transfer m w from to count ≡ ok w'
      → (src : ℕ) × (dst : ℕ) × (xs : List ItemStack) × (transfer w.slots src dst count ≡ some xs)
        × (w' ≡ record w { slots = xs; touched = touch dst (touch src w.touched) })
  unfolding apply_transfer
  apply_transfer-moved w from to count w' e =
      let (src, _, e1) = or_refuse-eq-ok (map_in m from.container from.slot) _ e in
      let (dst, _, e2) = or_refuse-eq-ok (map_in m to.container to.slot) _ e1 in
      let (xs, moved, e3) = or_refuse-eq-ok (transfer w.slots src dst count) _ e2 in
      (src, dst, xs, moved, cc)

  pub apply_swap-moved :
      (w : Work) (from to : SlotInfo) (w' : Work)
      → apply_action m w (swap from to) ≡ ok w'
      → (src : ℕ) × (dst : ℕ) × (xs : List ItemStack) × (swap_slots w.slots src dst ≡ some xs)
        × (w' ≡ record w { slots = xs; touched = touch dst (touch src w.touched) })
  unfolding apply_action
  apply_swap-moved w from to w' e =
      let (src, _, e1) = or_refuse-eq-ok (map_in m from.container from.slot) _ e in
      let (dst, _, e2) = or_refuse-eq-ok (map_in m to.container to.slot) _ e1 in
      let (xs, moved, e3) = or_refuse-eq-ok (swap_slots w.slots src dst) _ e2 in
      (src, dst, xs, moved, cc)

  pub apply_drop-moved :
      (w : Work) (from : SlotInfo) (count : ℕ) (w' : Work)
      → apply_action m w (drop from count) ≡ ok w'
      → (slot : ℕ) × (xs : List ItemStack) × (shed w.slots slot count ≡ some xs)
        × (w' ≡ record w { slots = xs; touched = touch slot w.touched })
  unfolding apply_action
  apply_drop-moved w from count w' e =
      let (slot, _, e1) = or_refuse-eq-ok (map_in m from.container from.slot) _ e in
      let (xs, moved, e2) = or_refuse-eq-ok (shed w.slots slot count) _ e1 in (slot, xs, moved, cc)

  transfer-Declares :
      (base : List ItemStack) (w : Work) (from to : SlotInfo) (count : ℕ) (w' : Work)
      → Declares base w
      → apply_transfer m w from to count ≡ ok w'
      → Declares base w'
  transfer-Declares base w from to count w' d e =
      let (src, dst, xs, moved, r) = apply_transfer-moved w from to count w' e in
      let t = transfer-Transferred w.slots src dst count xs moved in
      rw (r, t.written) (set-set-Declares base w src dst t.src t.dst d)

  pub apply_action-Declares :
      (base : List ItemStack) (w : Work) (a : Action) (w' : Work)
      → Declares base w
      → apply_action m w a ≡ ok w'
      → Declares base w'
  unfolding apply_action
  apply_action-Declares base w (take from to count) w' d e =
      transfer-Declares base w from to count w' d e
  apply_action-Declares base w (place from to count) w' d e =
      transfer-Declares base w from to count w' d e
  apply_action-Declares base w (swap from to) w' d e =
      let (src, dst, xs, moved, r) = apply_swap-moved w from to w' e in
      let (_, _, written) = swap_slots-written w.slots src dst xs moved in
      rw (r, written) (set-set-Declares base w src dst _ _ d)
  apply_action-Declares base w (drop from count) w' d e =
      let (slot, xs, moved, r) = apply_drop-moved w from count w' e in
      let (_, written) = shed-written w.slots slot count xs moved in
      rw (r, written) (set-Declares base w slot _ d)
  apply_action-Declares base w _ w' d e = cc
