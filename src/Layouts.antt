-- ===== src/Layouts.antt =====
-- internal/gw/window.go, itemstack.go, crafter.go, beacon.go, books.go and horse.go: where Bedrock
-- keeps the container slots of each menu, indexed by Java slot, and the menus it can show.
pub mod Sizes
use tachyne_gw_bedrock.Prelude.{
  ℕ, zero, suc, ◌*◌, ◌%◌, ◌^◌, Bool, List, [], ◌∷◌, ◌++◌, Option, none, some, ◌==◌, if◌then◌else◌,
}
use tachyne_gw_bedrock.Protocol.{Container}
use tachyne_gw_bedrock.Slots.{craft_output_slot, table_grid_first}

-- winSlot
pub record WinSlot : Type 0 where
  pub container : Container
  pub idx : ℕ

abbrev pub at : Container → ℕ → WinSlot
at c i = record { container = c; idx = i }

-- A run of n slots of one container, from an index on.
abbrev run_of : Container → ℕ → ℕ → List WinSlot
run_of c zero i = []
run_of c (suc n) i = at c i ∷ run_of c n (suc i)

-- chestLayout
abbrev pub chest_layout : ℕ → List WinSlot
chest_layout n = run_of Container.level_entity n 0

abbrev pub furnace_layout : List WinSlot
furnace_layout =
    at Container.furnace_ingredient 0
    ∷ at Container.furnace_fuel 1
    ∷ at Container.furnace_result 2
    ∷ []

abbrev pub brewing_layout : List WinSlot
brewing_layout =
    at Container.brewing_stand_result 1
    ∷ at Container.brewing_stand_result 2
    ∷ at Container.brewing_stand_result 3
    ∷ at Container.brewing_stand_input 0
    ∷ at Container.brewing_stand_fuel 4
    ∷ []

abbrev pub crafting_layout : List WinSlot
crafting_layout =
    at Container.crafting_output_preview craft_output_slot
    ∷ run_of Container.crafting_input 9 table_grid_first

abbrev pub anvil_layout : List WinSlot
anvil_layout =
    at Container.anvil_input 1
    ∷ at Container.anvil_material 2
    ∷ at Container.anvil_result_preview craft_output_slot
    ∷ []

abbrev pub grindstone_layout : List WinSlot
grindstone_layout =
    at Container.grindstone_input 16
    ∷ at Container.grindstone_additional 17
    ∷ at Container.grindstone_result_preview craft_output_slot
    ∷ []

abbrev pub trade_layout : List WinSlot
trade_layout =
    at Container.trade_two_ingredient_one 4
    ∷ at Container.trade_two_ingredient_two 5
    ∷ at Container.trade_two_result_preview craft_output_slot
    ∷ []

abbrev pub enchant_layout : List WinSlot
enchant_layout = at Container.enchanting_input 14 ∷ at Container.enchanting_material 15 ∷ []

abbrev pub stonecutter_layout : List WinSlot
stonecutter_layout =
    at Container.stonecutter_input 3
    ∷ at Container.stonecutter_result_preview craft_output_slot
    ∷ []

abbrev pub smithing_layout : List WinSlot
smithing_layout =
    at Container.smithing_table_template 53
    ∷ at Container.smithing_table_input 51
    ∷ at Container.smithing_table_material 52
    ∷ at Container.smithing_table_result_preview craft_output_slot
    ∷ []

abbrev pub loom_layout : List WinSlot
loom_layout =
    at Container.loom_input 9
    ∷ at Container.loom_dye 10
    ∷ at Container.loom_material 11
    ∷ at Container.loom_result_preview craft_output_slot
    ∷ []

abbrev pub cartography_layout : List WinSlot
cartography_layout =
    at Container.cartography_input 12
    ∷ at Container.cartography_additional 13
    ∷ at Container.cartography_result_preview craft_output_slot
    ∷ []

abbrev pub crafter_layout : List WinSlot
crafter_layout = chest_layout 9

abbrev pub crafter_tail : List WinSlot
crafter_tail = at Container.crafter_level_entity craft_output_slot ∷ []

abbrev pub beacon_layout : List WinSlot
beacon_layout = at Container.beacon_payment 27 ∷ []

abbrev pub lectern_layout : List WinSlot
lectern_layout = at Container.level_entity 0 ∷ []

-- horseUnmapped
abbrev pub horse_unmapped : ℕ
horse_unmapped = 99

-- horseLayout: the equipment slots, then three chest slots per column. `columns` is an int32 pattern,
-- and the loop's bound is the uint32 product.
abbrev equipment : Bool → Bool → List WinSlot
equipment bare llama =
    if bare
    then at Container.horse_equip 0 ∷ at Container.horse_equip 1 ∷ []
    else if llama
    then at Container.horse_equip horse_unmapped ∷ at Container.horse_equip 0 ∷ []
    else at Container.horse_equip 0 ∷ at Container.horse_equip horse_unmapped ∷ []

pub horse_layout : ℕ → Bool → List WinSlot
horse_layout columns llama =
    equipment (columns == 0) llama ++ run_of Container.level_entity (columns * 3 % 2 ^ 32) 1

-- protocol.ContainerType…, as symbols.
pub data WindowType : Type 0 where
  container dispenser crafter anvil beacon blast_furnace brewing_stand workbench : WindowType
  enchantment furnace grindstone hopper lectern loom trade smithing_table : WindowType
  stonecutter smoker cartography horse : WindowType

-- A number for each symbol, to compare them by.
abbrev pub type_tag : WindowType → ℕ
type_tag WindowType.container = 0
type_tag WindowType.dispenser = 1
type_tag WindowType.crafter = 2
type_tag WindowType.anvil = 3
type_tag WindowType.beacon = 4
type_tag WindowType.blast_furnace = 5
type_tag WindowType.brewing_stand = 6
type_tag WindowType.workbench = 7
type_tag WindowType.enchantment = 8
type_tag WindowType.furnace = 9
type_tag WindowType.grindstone = 10
type_tag WindowType.hopper = 11
type_tag WindowType.lectern = 12
type_tag WindowType.loom = 13
type_tag WindowType.trade = 14
type_tag WindowType.smithing_table = 15
type_tag WindowType.stonecutter = 16
type_tag WindowType.smoker = 17
type_tag WindowType.cartography = 18
type_tag WindowType.horse = 19

abbrev pub same_type : WindowType → WindowType → Bool
same_type a b = type_tag a == type_tag b

-- menuWindow
pub record MenuWindow : Type 0 where
  pub layout : List WinSlot
  pub ctype : WindowType

abbrev menu : List WinSlot → WindowType → MenuWindow
menu l t = record { layout = l; ctype = t }

-- menuWindows: the menus with a Bedrock twin, by the world's menu id. A horse's has no id here.
abbrev pub menu_windows : List (ℕ × MenuWindow)
menu_windows =
    (0, menu (chest_layout 9) WindowType.container)
    ∷ (1, menu (chest_layout 18) WindowType.container)
    ∷ (2, menu (chest_layout 27) WindowType.container)
    ∷ (3, menu (chest_layout 36) WindowType.container)
    ∷ (4, menu (chest_layout 45) WindowType.container)
    ∷ (5, menu (chest_layout 54) WindowType.container)
    ∷ (6, menu (chest_layout 9) WindowType.dispenser)
    ∷ (7, menu crafter_layout WindowType.crafter)
    ∷ (8, menu anvil_layout WindowType.anvil)
    ∷ (9, menu beacon_layout WindowType.beacon)
    ∷ (10, menu furnace_layout WindowType.blast_furnace)
    ∷ (11, menu brewing_layout WindowType.brewing_stand)
    ∷ (12, menu crafting_layout WindowType.workbench)
    ∷ (13, menu enchant_layout WindowType.enchantment)
    ∷ (14, menu furnace_layout WindowType.furnace)
    ∷ (15, menu grindstone_layout WindowType.grindstone)
    ∷ (16, menu (chest_layout 5) WindowType.hopper)
    ∷ (17, menu lectern_layout WindowType.lectern)
    ∷ (18, menu loom_layout WindowType.loom)
    ∷ (19, menu trade_layout WindowType.trade)
    ∷ (20, menu (chest_layout 27) WindowType.container)
    ∷ (21, menu smithing_layout WindowType.smithing_table)
    ∷ (24, menu stonecutter_layout WindowType.stonecutter)
    ∷ (22, menu furnace_layout WindowType.smoker)
    ∷ (23, menu cartography_layout WindowType.cartography)
    ∷ []

unfoldable pub find_menu : List (ℕ × MenuWindow) → ℕ → Option MenuWindow
find_menu [] id = none
find_menu ((k, w) ∷ ms) id = if k == id then some w else find_menu ms id
