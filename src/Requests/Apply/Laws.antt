-- ===== src/Requests/Apply/Laws.antt =====
-- internal/gw/itemstack.go: applyRequest as a whole, and the click made of what it did.
use tachyne_gw_bedrock.Prelude.{
  ℕ, ◌≤◌, ◌<◌, ◌^◌, ◌≡◌, refl, ◌∙◌, true, false, List, [], ◌∷◌, Option, some, arith, ok, Safe,
  Safe-bind, Safe-or_refuse, Safe-at, Safe-weaken, Safe-if,
}
use tachyne_gw_bedrock.Protocol.{Action, take, place, swap, drop, SlotInfo, Request}
use tachyne_gw_bedrock.Mirror.{Mirror, map_in}
use tachyne_gw_bedrock.Mirror.Invariant.{IsMirror, with_slots-IsMirror}
use tachyne_gw_bedrock.Moves.{transfer, swap_slots, shed}
use tachyne_gw_bedrock.Moves.Totals.{total, load}
use tachyne_gw_bedrock.Recipes.{RecipeSet}
use tachyne_gw_bedrock.Requests.Steps.{Work, start, elem}
use tachyne_gw_bedrock.Requests.Frame.{Declares, start-Declares, steps-Declares}
use tachyne_gw_bedrock.Requests.Clicks.{click_for, read_click, OnStorage, read_click-click_for}
use tachyne_gw_bedrock.Requests.Transfers.{apply_transfer, apply_action, apply_actions}
use tachyne_gw_bedrock.Requests.Transfers.Walk.{AreByteCounted, apply_action-Declares}
use tachyne_gw_bedrock.Requests.Transfers.Items.{
  throws_any, apply_actions-Sheds, apply_actions-Keeps, apply_actions-Declares,
}
use tachyne_gw_bedrock.Requests.Crafts.{Tables}
use tachyne_gw_bedrock.Requests.Crafts.Safety.{apply_craft-Safe}
use tachyne_gw_bedrock.Requests.Creative.Safety.{Told, apply_creative-Told}
use tachyne_gw_bedrock.Requests.Apply.{Kind, crafts, stocks, moves, pays, kind_of, apply_request}

-- What a request that is not refused leaves: a mirror of the same shape, which differs from the
-- one before in touched slots alone.
pub record Applied (m : Mirror) (w : Work) : Type 0 where
  pub declares : Declares m.slots w
  pub mirror : IsMirror (record m { slots = w.slots })

module _ (m : Mirror) where
  -- Plain actions say nothing to the world: the click does.
  transfer-quiet :
      (w : Work) (from to : SlotInfo) (count : ℕ)
      → Safe (λ x. x.steps ≡ w.steps) (apply_transfer m w from to count)
  unfolding apply_transfer
  transfer-quiet w from to count = Safe-or_refuse _ (map_in m from.container from.slot) _ λ src _.
      Safe-or_refuse _ (map_in m to.container to.slot) _
        λ dst _. Safe-or_refuse _ (transfer w.slots src dst count) _ λ xs _. refl

  action-quiet : (w : Work) (a : Action) → Safe (λ x. x.steps ≡ w.steps) (apply_action m w a)
  unfolding apply_action
  action-quiet w (take from to count) = transfer-quiet w from to count
  action-quiet w (place from to count) = transfer-quiet w from to count
  action-quiet w (swap from to) = Safe-or_refuse _ (map_in m from.container from.slot) _ λ src _.
      Safe-or_refuse _ (map_in m to.container to.slot) _
        λ dst _. Safe-or_refuse _ (swap_slots w.slots src dst) _ λ xs _. refl
  action-quiet w (drop from count) =
      Safe-or_refuse _ (map_in m from.container from.slot) _
        λ slot _. Safe-or_refuse _ (shed w.slots slot count) _ λ xs _. refl
  action-quiet w _ = tt

  abbrev Quiet : Work → Work → Type 0
  Quiet w x = Declares m.slots x × (x.steps ≡ w.steps)

  actions-Quiet :
      (w : Work) (acts : List Action) → Declares m.slots w → Safe (Quiet w) (apply_actions m w acts)
  unfolding apply_actions
  actions-Quiet w [] d = (d, refl)
  actions-Quiet w (a ∷ rest) d =
      Safe-bind _ (λ x. x.steps ≡ w.steps) (apply_action m w a) _ (action-quiet w a)
        λ v e q.
          Safe-weaken _ (Quiet v) (apply_actions m v rest)
            (actions-Quiet v rest (apply_action-Declares m m.slots w a v d e)) λ x p. (p.0, p.1 ∙ q)

  actions-Safe :
      (w : Work) (acts : List Action)
      → Declares m.slots w
      → Safe (Declares m.slots) (apply_actions m w acts)
  actions-Safe w acts d =
      Safe-weaken _ (Quiet w) (apply_actions m w acts) (actions-Quiet w acts d) λ x p. p.0

  Applied-of_Declares : (w : Work) → IsMirror m → Declares m.slots w → Applied m w
  Applied-of_Declares w v d = record {
    declares = d;
    mirror = with_slots-IsMirror m w.slots v d.size;
  }

module _ (m : Mirror) (t : Tables) (listing : List ℕ) (recipes : Option RecipeSet) where
  by_kind :
      (k : Kind) (req : Request)
      → IsMirror m
      → kind_of req.actions ≡ k
      → Safe (Declares m.slots) (apply_request m t listing recipes req)
  unfolding apply_request
  by_kind crafts req v e =
      rw (e, apply_request) (apply_craft-Safe m v t recipes req.actions req.filter_strings)
  by_kind stocks req v e =
      rw (e, apply_request)
        (Safe-weaken _ (Told m v) _ (apply_creative-Told m v listing req.actions) λ w d. d.declares)
  by_kind moves req v e =
      rw (e, apply_request) (actions-Safe m (start m.slots) req.actions (start-Declares m.slots))
  by_kind (pays p s) req v e =
      rw (e, apply_request)
        (Safe-if _ m.beacon _ _ (steps-Declares m.slots (start m.slots) _ (start-Declares m.slots))
          tt)

  -- Against a mirror in shape, no request makes the gateway index out of range, whatever
  -- containers, slots, counts and recipes it names. One that is not refused leaves the mirror in
  -- shape and changes touched slots alone.
  pub apply_request-Applied :
      (req : Request) → IsMirror m → Safe (Applied m) (apply_request m t listing recipes req)
  apply_request-Applied req v =
      Safe-weaken _ (Declares m.slots) (apply_request m t listing recipes req)
        (by_kind (kind_of req.actions) req v refl) λ w d. Applied-of_Declares m w v d

  moves-apply_actions :
      (req : Request) (w : Work)
      → kind_of req.actions ≡ moves
      → apply_request m t listing recipes req ≡ ok w
      → apply_actions m (start m.slots) req.actions ≡ ok w
  unfolding apply_request
  moves-apply_actions req w k e = rw (k, apply_request) at e

  pub moves-steps :
      (req : Request) (w : Work)
      → kind_of req.actions ≡ moves
      → apply_request m t listing recipes req ≡ ok w
      → w.steps ≡ []
  moves-steps req w k e =
      (Safe-at _ (apply_actions m (start m.slots) req.actions) w
        (actions-Quiet m (start m.slots) req.actions (start-Declares m.slots))
        (moves-apply_actions req w k e)).1

  -- The click for an accepted request that crafts nothing tells the world everything: it names the window and a slot
  -- that is not the result, and turns the window as it was into the mirror as it is, in whatever order the touched slots
  -- come. The mirror is in shape, the result slot is not among the changed ones, and where the result is slot 0 some
  -- changed slot is not the cursor.
  pub read_click-apply_request :
      (req : Request) (w : Work) (changed : List ℕ)
      → IsMirror m
      → kind_of req.actions ≡ moves
      → apply_request m t listing recipes req ≡ ok w
      → ((j : ℕ) → elem j w.touched ≡ true → elem j changed ≡ true)
      → elem m.result changed ≡ false
      → OnStorage m changed
      → read_click m (click_for (record m { slots = w.slots }) changed) ≡ some w.slots
  read_click-apply_request req w changed v k e covers apart stored =
      read_click-click_for m w changed
        (apply_actions-Declares m m.slots (start m.slots) req.actions w (start-Declares m.slots)
          (moves-apply_actions req w k e))
        (omega (arith, v.sized)) covers apart stored

  -- An accepted request that crafts nothing makes no item: of each there are at most as many in the
  -- window as before. The window holds an int32 of items, and the request's counts are bytes.
  pub apply_request-items :
      (req : Request) (w : Work)
      → kind_of req.actions ≡ moves
      → load m.slots < 2 ^ 31
      → AreByteCounted req.actions
      → apply_request m t listing recipes req ≡ ok w
      → (id : ℕ) → total id w.slots ≤ total id m.slots
  apply_request-items req w k h b e =
      (apply_actions-Sheds m (start m.slots) req.actions w h b
        (moves-apply_actions req w k e)).items

  -- An accepted request that crafts nothing and throws nothing out of the window keeps the number
  -- of each item exactly. The window holds an int32 of items, and the request's counts are bytes.
  pub apply_request-keeps :
      (req : Request) (w : Work)
      → kind_of req.actions ≡ moves
      → load m.slots < 2 ^ 31
      → AreByteCounted req.actions
      → throws_any req.actions ≡ false
      → apply_request m t listing recipes req ≡ ok w
      → (id : ℕ) → total id w.slots ≡ total id m.slots
  apply_request-keeps req w k h b n e =
      (apply_actions-Keeps m (start m.slots) req.actions w h b n
        (moves-apply_actions req w k e)).items
