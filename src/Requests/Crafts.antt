-- ===== src/Requests/Crafts.antt =====
-- internal/gw/crafting.go and enchanting.go: applyCraft and takeResult, a craft request resolved
-- against the mirror into the steps that the world takes.
pub mod Apply
pub mod Takes
pub mod Safety
use Prim.Native.String.{String}
use tachyne_gw_bedrock.Prelude.{
  ℕ, zero, suc, ◌+◌, ◌-◌, ◌/◌, ◌%◌, Bool, true, false, not, List, [], ◌∷◌, ◌++◌, Option, none, some,
  ◌&&◌, ◌||◌, ◌==◌, if◌then◌else◌, lt_i32, le_i32, add_i32, get_elem?, set, Res, ok, refuse, ◌>>=◌,
  ◌>>◌, guard, or_refuse, or_panic,
}
use tachyne_gw_bedrock.Item.{ItemStack, no_item}
use tachyne_gw_bedrock.Protocol.{
  SlotInfo, Action, take, place, consume, craft_recipe, auto_craft_recipe, craft_optional,
  craft_grindstone, craft_loom, craft_results_deprecated, Container, same,
}
use tachyne_gw_bedrock.Mirror.{Mirror, EnchantRow, map_in}
use tachyne_gw_bedrock.Moves.{WindowClick, left_of}
use tachyne_gw_bedrock.Recipes.{
  CraftOutput, RecipeSet, StonecutEntry, Cut, output, stonecut_recipe, smith_recipe,
}
use tachyne_gw_bedrock.Requests.Steps.{Work, CraftStep, start, say, touch}
use tachyne_gw_bedrock.Requests.Steps

-- The tables that a craft looks up: the shared stonecutting and smithing tables, and the row of a
-- loom pattern for the pattern item in the loom (loomButton).
pub record Tables : Type 0 where
  pub cuts : List Cut
  pub transforms : List (ℕ × ℕ)
  pub loom_button : String → ℕ → Option ℕ

-- The variables of applyCraft: the work so far, and the recipe named.
pub record Craft : Type 0 where
  pub work : Work
  pub out : CraftOutput
  pub auto : Bool
  pub named : Bool

-- The enchanting table ends the walk at once; any other action goes on.
pub data Flow : Type 0 where
  next : Craft → Flow
  done : Work → Flow

abbrev pub no_output : CraftOutput
no_output = record { book_id = 0; result = no_item }

-- enchantButton: the row that a network id names; 0 names none.
unfoldable pub find_row : List EnchantRow → ℕ → ℕ → Option ℕ
find_row [] i net_id = none
find_row (r ∷ rows) i net_id = if r.net_id == net_id then some i else find_row rows (suc i) net_id

unfoldable pub enchant_button : Mirror → ℕ → Option ℕ
unfolding find_row
enchant_button m net_id = if net_id == 0 then none else find_row m.ench 0 net_id

-- One result put on a stack: the slot must be empty or hold the same item.
unfoldable pub put_on : ItemStack → ItemStack → Res ItemStack
put_on st r =
    if lt_i32 0 st.count && not (st.id == r.id)
    then refuse
    else ok (record st { id = r.id; count = add_i32 st.count r.count })

module _ (m : Mirror) where
  -- The click on the result slot, and the click that puts the cursor down.
  abbrev pub result_click : ItemStack → CraftStep
  result_click r =
      CraftStep.click (record { window = m.window; slot = m.result; changed = []; held = r })

  abbrev pub put_down_click : ℕ → ItemStack → CraftStep
  put_down_click dest st =
      CraftStep.click
        (record { window = m.window; slot = dest; changed = (dest, st) ∷ []; held = no_item })

  -- One round of takeResult's loop.
  unfoldable pub take_one : CraftOutput → Bool → ℕ → Work → Res Work
  unfolding put_on
  take_one out auto dest w = do
    let w1 = if auto then say w (CraftStep.place m.window out.book_id) else w
    let w2 = say w1 (result_click out.result)
    st ← or_panic (get_elem? w.slots dest)
    st' ← put_on st out.result
    let w3 : Work = record w2 { slots = set w.slots dest st' }
    ok (if dest == m.cursor then w3 else say w3 (put_down_click dest st'))

  unfoldable pub take_times : ℕ → CraftOutput → Bool → ℕ → Work → Res Work
  unfolding take_one
  take_times zero out auto dest w = ok w
  take_times (suc n) out auto dest w = take_one out auto dest w >>= take_times n out auto dest

  -- takeResult
  unfoldable pub take_result : Craft → SlotInfo → SlotInfo → ℕ → Res Work
  unfolding take_times
  take_result c src dst count = do
    let per = c.out.result.count
    guard (c.named && (same src.container Container.created_output && lt_i32 0 per))
    dest ← or_refuse (map_in m dst.container dst.slot)
    guard (not (dest == m.result) && (not (count == 0) && count % per == 0))
    w ← take_times (count / per) c.out c.auto dest c.work
    ok (record w { touched = touch dest w.touched })

  -- preview: a menu with its own result slot crafts what the world showed there.
  unfoldable pub preview : Craft → Res Craft
  preview c = do
    guard (not c.named && lt_i32 0 m.result)
    st ← or_panic (get_elem? c.work.slots m.result)
    guard (lt_i32 0 st.count)
    ok (record c { out = record { book_id = 0; result = st }; named = true })

  abbrev pub name_it : Craft → CraftOutput → Craft
  name_it c o = record c { out = o; named = true }

  abbrev pub offer : ℕ → List ItemStack → Option ItemStack
  offer id sold = if id == 0 then none else get_elem? sold (id - 1)
