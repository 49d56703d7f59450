-- ===== src/Requests/Transfers.antt =====
-- internal/gw/itemstack.go: the actions of a request that crafts nothing.
pub mod Walk
pub mod Items
use tachyne_gw_bedrock.Prelude.{ℕ, List, [], ◌∷◌, Res, ok, refuse, ◌>>=◌, or_refuse}
use tachyne_gw_bedrock.Protocol.{SlotInfo, Action, take, place, swap, drop}
use tachyne_gw_bedrock.Mirror.{Mirror, map_in}
use tachyne_gw_bedrock.Moves.{transfer, swap_slots, shed}
use tachyne_gw_bedrock.Requests.Steps.{Work, touch}

module _ (m : Mirror) where
  -- applyTransfer
  unfoldable pub apply_transfer : Work → SlotInfo → SlotInfo → ℕ → Res Work
  apply_transfer w from to count = do
    src ← or_refuse (map_in m from.container from.slot)
    dst ← or_refuse (map_in m to.container to.slot)
    xs ← or_refuse (transfer w.slots src dst count)
    ok (record w { slots = xs; touched = touch dst (touch src w.touched) })

  -- The cases of applyRequest's loop.
  unfoldable pub apply_action : Work → Action → Res Work
  unfolding apply_transfer
  apply_action w (take from to count) = apply_transfer w from to count
  apply_action w (place from to count) = apply_transfer w from to count
  apply_action w (swap from to) = do
    src ← or_refuse (map_in m from.container from.slot)
    dst ← or_refuse (map_in m to.container to.slot)
    xs ← or_refuse (swap_slots w.slots src dst)
    ok (record w { slots = xs; touched = touch dst (touch src w.touched) })
  apply_action w (drop from count) = do
    slot ← or_refuse (map_in m from.container from.slot)
    xs ← or_refuse (shed w.slots slot count)
    ok (record w { slots = xs; touched = touch slot w.touched })
  apply_action w _ = refuse

  unfoldable pub apply_actions : Work → List Action → Res Work
  apply_actions w [] = ok w
  apply_actions w (a ∷ rest) = apply_action w a >>= λ w'. apply_actions w' rest
