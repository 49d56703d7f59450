-- ===== src/Requests/Crafts/Safety.antt =====
-- internal/gw/crafting.go: the slots that applyCraft indexes and touches.
use Prim.Native.String.{String}
use tachyne_gw_bedrock.Prelude.{
  ℕ, ◌<◌, ◌≡◌, ◌∙◌, true, not, List, [], ◌∷◌, Option, none, some, ◌&&◌, ◌==◌, arith, length,
  if◌then◌else◌, lt_i32, Res, ok, Safe, Safe-bind, Safe-or_refuse, Safe-get_elem?, Safe-guard,
  Safe-if, Safe-weaken,
}
use tachyne_gw_bedrock.Item.{ItemStack}
use tachyne_gw_bedrock.Protocol.{
  SlotInfo, Action, take, place, consume, craft_recipe, auto_craft_recipe, craft_optional,
  craft_grindstone, craft_loom, craft_results_deprecated,
}
use tachyne_gw_bedrock.Mirror.{Mirror, map_in}
use tachyne_gw_bedrock.Mirror.Invariant.{IsMirror, map_in-lt}
use tachyne_gw_bedrock.Moves.{left_of}
use tachyne_gw_bedrock.Recipes.{RecipeSet, output, stonecut_recipe, smith_recipe}
use tachyne_gw_bedrock.Requests.Steps.{Work, start}
use tachyne_gw_bedrock.Requests.Frame.{
  Declares, start-Declares, set-Declares, steps-Declares, touch-untouched,
}
use tachyne_gw_bedrock.Requests.Crafts.{
  Tables, Craft, Flow, next, done, enchant_button, take_result, preview, name_it, offer,
}
use tachyne_gw_bedrock.Requests.Crafts.Takes.{Delivered, take_result-Delivered}
use tachyne_gw_bedrock.Requests.Crafts.Apply.{
  smith_action, cutter_action, trade_action, grid_action, recipe_action, loom_action,
  consume_action, rename, chosen_name, has_steps, auto_action, craft_action, craft_actions,
  apply_craft,
}

module _ (m : Mirror) (v : IsMirror m) where
  -- Every slot that the walk has changed is among those touched.
  abbrev Sound : Craft → Type 0
  Sound c = Declares m.slots c.work

  abbrev SoundFlow : Flow → Type 0
  SoundFlow (next c) = Sound c
  SoundFlow (done w) = Declares m.slots w

  result-lt : lt_i32 0 m.result ≡ true → m.result < length m.slots
  result-lt h = ground (arith, v.shape, v.sized)

  slots-gt : 36 < length m.slots
  slots-gt = ground (arith, v.shape, v.sized)

  preview-Safe : (c : Craft) → Sound c → Safe Sound (preview m c)
  unfolding preview
  preview-Safe c d = Safe-guard _ (not c.named && lt_i32 0 m.result) _ λ g.
      Safe-get_elem? _ c.work.slots m.result _ (omega (arith, d.size, result-lt (ground arith)))
        λ st _. Safe-guard _ (lt_i32 0 st.count) _ λ _. d

  take_result-Safe :
      (c : Craft) (src dst : SlotInfo) (count : ℕ)
      → Sound c
      → Safe (Declares m.slots) (take_result m c src dst count)
  take_result-Safe c src dst count d =
      Safe-weaken _ (Delivered m c dst count) (take_result m c src dst count)
        (take_result-Delivered m c src dst count v d.size)
        λ w t. record {
          size = t.took.size ∙ d.size;
          untouched = λ j h.
              let (old, other) = touch-untouched j t.dest c.work.touched (rw t.marked at h) in
              t.took.other j other ∙ d.untouched j old;
        }

  module _ (t : Tables) (recipes : Option RecipeSet) where
    consume_action-Safe :
        (c : Craft) (src : SlotInfo) (count : ℕ)
        → Sound c
        → Safe Sound (consume_action m t recipes c src count)
    unfolding consume_action
    consume_action-Safe c src count d =
        Safe-or_refuse _ (map_in m src.container src.slot) _ λ slot e.
          Safe-guard _ (c.named && (not (slot == m.cursor) && not (slot == m.result))) _ λ g.
            Safe-get_elem? _ c.work.slots slot _
              (omega (arith, d.size, map_in-lt m src.container src.slot slot v e))
              λ st _.
                Safe-guard _ (not (lt_i32 st.count count)) _
                  λ _. set-Declares m.slots c.work slot (left_of st count) d

    loom_action-Safe : (c : Craft) (p : String) → Sound c → Safe Sound (loom_action m t recipes c p)
    unfolding loom_action
    loom_action-Safe c p d = Safe-guard _ (m.loom && not c.named) _ λ _.
        Safe-get_elem? _ c.work.slots 0 _ (omega (arith, d.size, slots-gt)) λ banner _.
          Safe-guard _ (lt_i32 0 banner.count) _ λ _.
            Safe-get_elem? _ c.work.slots 2 _ (omega (arith, d.size, slots-gt)) λ item _.
              Safe-or_refuse _ (t.loom_button p item.id) _
                λ button _. steps-Declares m.slots c.work _ d

    smith_action-Safe : (c : Craft) (id : ℕ) → Sound c → Safe Sound (smith_action m t recipes c id)
    unfolding smith_action
    smith_action-Safe c id d = Safe-guard _ (not c.named) _ λ _. from (smith_recipe t.transforms id)
      where
        from :
            (o : Option ItemStack)
            → Safe Sound (elim o [
              | some res ↦ ok (name_it m c (record { book_id = 0; result = res }))
              | none ↦ preview m c
            ])
        from (some res) = d
        from none = preview-Safe c d

    cutter_action-Safe :
        (c : Craft) (id : ℕ) → Sound c → Safe Sound (cutter_action m t recipes c id)
    unfolding cutter_action
    cutter_action-Safe c id d =
        Safe-or_refuse _ (stonecut_recipe t.cuts id) _
          λ e _. Safe-guard _ (not c.named) _ λ _. steps-Declares m.slots c.work _ d

    trade_action-Safe :
        (c : Craft) (sold : List ItemStack) (id : ℕ)
        → Sound c
        → Safe Sound (trade_action m t recipes c sold id)
    unfolding trade_action
    trade_action-Safe c sold id d = Safe-or_refuse _ (offer m id sold) _ λ st _.
        Safe-guard _ (not c.named && lt_i32 0 st.count) _ λ _. steps-Declares m.slots c.work _ d

    grid_action-Safe : (c : Craft) (id : ℕ) → Sound c → Safe Sound (grid_action m t recipes c id)
    unfolding grid_action
    grid_action-Safe c id d =
        Safe-or_refuse _ (output recipes id) _ λ o _. Safe-guard _ (not c.named) _ λ _. d

    recipe_action-Safe :
        (c : Craft) (id : ℕ) → Sound c → Safe Sound (recipe_action m t recipes c id)
    unfolding recipe_action
    recipe_action-Safe c id d =
        Safe-if _ m.smith _ _ (smith_action-Safe c id d)
          (Safe-if _ m.cutter _ _ (cutter_action-Safe c id d) (from m.trades))
      where
        from :
            (o : Option (List ItemStack))
            → Safe Sound (elim o [
              | some sold ↦ trade_action m t recipes c sold id
              | none ↦ if lt_i32 0 m.result then preview m c else grid_action m t recipes c id
            ])
        from (some sold) = trade_action-Safe c sold id d
        from none = Safe-if _ (lt_i32 0 m.result) _ _ (preview-Safe c d) (grid_action-Safe c id d)

    rename-Sound : (c : Craft) (o : Option String) → Sound c → Sound (rename c o)
    rename-Sound c none d = d
    rename-Sound c (some name) d = steps-Declares m.slots c.work _ d

    craft_action-Safe :
        (names : List String) (c : Craft) (a : Action)
        → Sound c
        → Safe SoundFlow (craft_action m t recipes m.slots names c a)
    unfolding craft_action auto_action
    craft_action-Safe names c (craft_optional i) d = Safe-guard _ (m.result == 2) _ λ _.
        Safe-bind _ Sound (preview m c) _ (preview-Safe c d)
          λ c' _ d'. rename-Sound c' (chosen_name names i) d'
    craft_action-Safe names c craft_grindstone d =
        Safe-guard _ (m.result == 2) _
          λ _. Safe-bind _ Sound (preview m c) _ (preview-Safe c d) λ c' _ d'. d'
    craft_action-Safe names c (craft_loom p) d =
        Safe-bind _ Sound (loom_action m t recipes c p) _ (loom_action-Safe c p d) λ c' _ d'. d'
    craft_action-Safe names c (craft_recipe id) d =
        Safe-if _ m.table _ _
          (Safe-or_refuse _ (enchant_button m id) _ λ button _.
            Safe-guard _ (not c.named) _
              λ _. steps-Declares m.slots (start m.slots) _ (start-Declares m.slots))
          (Safe-bind _ Sound (recipe_action m t recipes c id) _ (recipe_action-Safe c id d)
            λ c' _ d'. d')
    craft_action-Safe names c (auto_craft_recipe id) d =
        Safe-bind _ Sound (auto_action m t recipes c id) _
          (Safe-or_refuse _ (output recipes id) _
            λ o _. Safe-guard _ (not c.named && m.result == 0) _ λ _. d)
          λ c' _ d'. d'
    craft_action-Safe names c craft_results_deprecated d = d
    craft_action-Safe names c (consume src count) d =
        Safe-bind _ Sound (consume_action m t recipes c src count) _
          (consume_action-Safe c src count d) λ c' _ d'. d'
    craft_action-Safe names c (take src dst count) d =
        Safe-bind _ (Declares m.slots) (take_result m c src dst count) _
          (take_result-Safe c src dst count d) λ w _ d'. d'
    craft_action-Safe names c (place src dst count) d =
        Safe-bind _ (Declares m.slots) (take_result m c src dst count) _
          (take_result-Safe c src dst count d) λ w _ d'. d'
    craft_action-Safe names c _ d = tt

    Flow-Safe :
        (g : Craft → Res Work)
        → ((c : Craft) → Sound c → Safe (Declares m.slots) (g c))
        → (f : Flow) → SoundFlow f
        → Safe (Declares m.slots) (elim f [ done w ↦ ok w | next c ↦ g c ])
    Flow-Safe g k (done w) d = d
    Flow-Safe g k (next c) d = k c d

    craft_actions-Safe :
        (names : List String) (c : Craft) (acts : List Action)
        → Sound c
        → Safe (Declares m.slots) (craft_actions m t recipes m.slots names c acts)
    unfolding craft_actions
    craft_actions-Safe names c [] d = Safe-guard _ (has_steps m t recipes c.work) _ λ _. d
    craft_actions-Safe names c (a ∷ rest) d =
        Safe-bind _ SoundFlow (craft_action m t recipes m.slots names c a) _
          (craft_action-Safe names c a d)
          λ f _.
            Flow-Safe (λ c'. craft_actions m t recipes m.slots names c' rest)
              (λ c' d'. craft_actions-Safe names c' rest d') f

    pub apply_craft-Safe :
        (acts : List Action) (names : List String)
        → Safe (Declares m.slots) (apply_craft m t recipes acts names)
    unfolding apply_craft
    apply_craft-Safe acts names = craft_actions-Safe names _ acts (start-Declares m.slots)
