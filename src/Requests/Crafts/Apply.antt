-- ===== src/Requests/Crafts/Apply.antt =====
-- internal/gw/crafting.go: applyCraft's cases, and its walk over a request.
use Prim.Native.String.{String}
use tachyne_gw_bedrock.Prelude.{
  ℕ, ◌-◌, Bool, true, false, not, List, [], ◌∷◌, Option, none, some, ◌&&◌, ◌==◌, if◌then◌else◌,
  lt_i32, get_elem?, set, Res, ok, refuse, ◌>>=◌, ◌>>◌, guard, or_refuse, or_panic,
}
use tachyne_gw_bedrock.Item.{ItemStack}
use tachyne_gw_bedrock.Protocol.{
  SlotInfo, Action, take, place, consume, craft_recipe, auto_craft_recipe, craft_optional,
  craft_grindstone, craft_loom, craft_results_deprecated,
}
use tachyne_gw_bedrock.Mirror.{Mirror, map_in}
use tachyne_gw_bedrock.Moves.{left_of}
use tachyne_gw_bedrock.Recipes.{RecipeSet, output, stonecut_recipe, smith_recipe}
use tachyne_gw_bedrock.Requests.Steps.{Work, CraftStep, start, say, touch}
use tachyne_gw_bedrock.Requests.Crafts.{
  Tables, Craft, Flow, next, done, no_output, enchant_button, take_result, preview, name_it, offer,
}

abbrev press : Craft → ℕ → Craft
press c button = record c { work = say c.work (CraftStep.enchant button) }

-- The anvil's name, if the request's index is one of its strings.
abbrev pub chosen_name : List String → ℕ → Option String
chosen_name names i = if lt_i32 i 0 then none else get_elem? names i

abbrev pub rename : Craft → Option String → Craft
rename c none = c
rename c (some name) = record c { work = say c.work (CraftStep.name name) }

module _ (m : Mirror) (t : Tables) (recipes : Option RecipeSet) where
  -- CraftRecipeStackRequestAction at a smithing table, a stonecutter, a trade screen, another menu
  -- with a result slot, and elsewhere.
  unfoldable pub smith_action : Craft → ℕ → Res Craft
  unfolding preview
  smith_action c id = do
    guard (not c.named)
    elim (smith_recipe t.transforms id) [
      | some res ↦ ok (name_it m c (record { book_id = 0; result = res }))
      | none ↦ preview m c
    ]

  unfoldable pub cutter_action : Craft → ℕ → Res Craft
  cutter_action c id = do
    e ← or_refuse (stonecut_recipe t.cuts id)
    guard (not c.named)
    ok (press (name_it m c (record { book_id = 0; result = e.result })) e.button)

  unfoldable pub trade_action : Craft → List ItemStack → ℕ → Res Craft
  trade_action c sold id = do
    st ← or_refuse (offer m id sold)
    guard (not c.named && lt_i32 0 st.count)
    let named = name_it m c (record { book_id = 0; result = st })
    ok (record named { work = say c.work (CraftStep.select_trade (id - 1)) })

  unfoldable pub grid_action : Craft → ℕ → Res Craft
  grid_action c id = do o ← or_refuse (output recipes id); guard (not c.named); ok (name_it m c o)

  unfoldable pub recipe_action : Craft → ℕ → Res Craft
  unfolding smith_action cutter_action trade_action grid_action preview
  recipe_action c id =
      if m.smith
      then smith_action c id
      else if m.cutter
      then cutter_action c id
      else elim m.trades [
        | some sold ↦ trade_action c sold id
        | none ↦ if lt_i32 0 m.result then preview m c else grid_action c id
      ]

  -- CraftLoomRecipeStackRequestAction
  unfoldable pub loom_action : Craft → String → Res Craft
  loom_action c pattern_id = do
    guard (m.loom && not c.named)
    banner ← or_panic (get_elem? c.work.slots 0)
    guard (lt_i32 0 banner.count)
    item ← or_panic (get_elem? c.work.slots 2)
    button ← or_refuse (t.loom_button pattern_id item.id)
    let woven : ItemStack = record { id = banner.id; count = 1; components = [] }
    ok (press (name_it m c (record { book_id = 0; result = woven })) button)

  -- ConsumeStackRequestAction
  unfoldable pub consume_action : Craft → SlotInfo → ℕ → Res Craft
  consume_action c src count = do
    slot ← or_refuse (map_in m src.container src.slot)
    guard (c.named && (not (slot == m.cursor) && not (slot == m.result)))
    st ← or_panic (get_elem? c.work.slots slot)
    guard (not (lt_i32 st.count count))
    let w = c.work
    ok (record c {
      work = record w {
        slots = set w.slots slot (left_of st count);
        touched = touch slot w.touched;
      };
    })

  unfoldable pub auto_action : Craft → ℕ → Res Craft
  auto_action c id = do
    o ← or_refuse (output recipes id)
    guard (not c.named && m.result == 0)
    ok (record c { out = o; named = true; auto = true })

  -- The cases of applyCraft's loop. `base` is the mirror's slots before the request.
  unfoldable pub craft_action : List ItemStack → List String → Craft → Action → Res Flow
  unfolding preview take_result recipe_action loom_action consume_action auto_action enchant_button
  craft_action base names c (craft_optional i) = do
    guard (m.result == 2)
    c' ← preview m c
    ok (next (rename c' (chosen_name names i)))
  craft_action base names c craft_grindstone = do
    guard (m.result == 2)
    c' ← preview m c
    ok (next c')
  craft_action base names c (craft_loom p) = do c' ← loom_action c p; ok (next c')
  craft_action base names c (craft_recipe id) =
      if m.table
      then (do
        button ← or_refuse (enchant_button m id)
        guard (not c.named)
        ok (done (say (start base) (CraftStep.enchant button))))
      else (do c' ← recipe_action c id; ok (next c'))
  craft_action base names c (auto_craft_recipe id) = do c' ← auto_action c id; ok (next c')
  craft_action base names c craft_results_deprecated = ok (next c)
  craft_action base names c (consume src count) = do c' ← consume_action c src count; ok (next c')
  craft_action base names c (take src dst count) = do
    w ← take_result m c src dst count
    ok (next (record c { work = w }))
  craft_action base names c (place src dst count) = do
    w ← take_result m c src dst count
    ok (next (record c { work = w }))
  craft_action base names c _ = refuse

  abbrev pub has_steps : Work → Bool
  has_steps w = elim w.steps [ [] ↦ false | _ ∷ _ ↦ true ]

  unfoldable pub craft_actions : List ItemStack → List String → Craft → List Action → Res Work
  unfolding craft_action
  craft_actions base names c [] = do guard (has_steps c.work); ok c.work
  craft_actions base names c (a ∷ rest) = do
    f ← craft_action base names c a
    elim f [ done w ↦ ok w | next c' ↦ craft_actions base names c' rest ]

  -- applyCraft
  unfoldable pub apply_craft : List Action → List String → Res Work
  unfolding craft_actions
  apply_craft acts names =
      craft_actions m.slots names
        (record { work = start m.slots; out = no_output; auto = false; named = false }) acts
