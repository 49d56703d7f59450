-- ===== src/Protocol.antt =====
-- The gophertunnel names that internal/gw compares: container ids as symbols (the code never
-- computes with their numbers), and the item-stack request a client sends.
use Prim.Native.String.{String}
use tachyne_gw_bedrock.Prelude.{
  ℕ, ◌+◌, ◌-◌, ◌≡◌, refl, ap, Bool, true, List, [], ◌∷◌, ◌==◌, ==_iff, leb, if◌then◌else◌, get_or,
  arith, ◌∙◌, sym,
}

-- protocol.Container…; `other` is an id that no file names.
pub data Container : Type 0 where
  cursor offhand armor inventory hot_bar combined_hot_bar_and_inventory level_entity : Container
  crafting_input crafting_output_preview created_output : Container
  furnace_ingredient furnace_fuel furnace_result : Container
  brewing_stand_result brewing_stand_input brewing_stand_fuel : Container
  anvil_input anvil_material anvil_result_preview : Container
  grindstone_input grindstone_additional grindstone_result_preview : Container
  trade_two_ingredient_one trade_two_ingredient_two trade_two_result_preview : Container
  enchanting_input enchanting_material : Container
  stonecutter_input stonecutter_result_preview : Container
  smithing_table_template smithing_table_input smithing_table_material : Container
  smithing_table_result_preview : Container
  loom_input loom_dye loom_material loom_result_preview : Container
  beacon_payment : Container
  cartography_input cartography_additional cartography_result_preview : Container
  crafter_level_entity horse_equip : Container
  other : ℕ → Container

-- A number for each symbol, to compare them by; the protocol's own numbers are not used.
abbrev pub tag : Container → ℕ
tag cursor = 0
tag offhand = 1
tag armor = 2
tag inventory = 3
tag hot_bar = 4
tag combined_hot_bar_and_inventory = 5
tag level_entity = 6
tag crafting_input = 7
tag crafting_output_preview = 8
tag created_output = 9
tag furnace_ingredient = 10
tag furnace_fuel = 11
tag furnace_result = 12
tag brewing_stand_result = 13
tag brewing_stand_input = 14
tag brewing_stand_fuel = 15
tag anvil_input = 16
tag anvil_material = 17
tag anvil_result_preview = 18
tag grindstone_input = 19
tag grindstone_additional = 20
tag grindstone_result_preview = 21
tag trade_two_ingredient_one = 22
tag trade_two_ingredient_two = 23
tag trade_two_result_preview = 24
tag enchanting_input = 25
tag enchanting_material = 26
tag stonecutter_input = 27
tag stonecutter_result_preview = 28
tag smithing_table_template = 29
tag smithing_table_input = 30
tag smithing_table_material = 31
tag smithing_table_result_preview = 32
tag loom_input = 33
tag loom_dye = 34
tag loom_material = 35
tag loom_result_preview = 36
tag beacon_payment = 37
tag cartography_input = 38
tag cartography_additional = 39
tag cartography_result_preview = 40
tag crafter_level_entity = 41
tag horse_equip = 42
tag (other n) = n + 43

abbrev pub same : Container → Container → Bool
same c d = tag c == tag d

abbrev named : List Container
named =
    cursor ∷ offhand ∷ armor ∷ inventory ∷ hot_bar ∷ combined_hot_bar_and_inventory ∷ level_entity
    ∷ crafting_input ∷ crafting_output_preview ∷ created_output ∷ furnace_ingredient ∷ furnace_fuel
    ∷ furnace_result ∷ brewing_stand_result ∷ brewing_stand_input ∷ brewing_stand_fuel ∷ anvil_input
    ∷ anvil_material ∷ anvil_result_preview ∷ grindstone_input ∷ grindstone_additional
    ∷ grindstone_result_preview ∷ trade_two_ingredient_one ∷ trade_two_ingredient_two
    ∷ trade_two_result_preview ∷ enchanting_input ∷ enchanting_material ∷ stonecutter_input
    ∷ stonecutter_result_preview ∷ smithing_table_template ∷ smithing_table_input
    ∷ smithing_table_material ∷ smithing_table_result_preview ∷ loom_input ∷ loom_dye
    ∷ loom_material ∷ loom_result_preview ∷ beacon_payment ∷ cartography_input
    ∷ cartography_additional ∷ cartography_result_preview ∷ crafter_level_entity ∷ horse_equip ∷ []

of_tag : ℕ → Container
of_tag t = if leb 43 t then other (t - 43) else get_or named t cursor

of_tag-tag : (c : Container) → of_tag (tag c) ≡ c
unfolding of_tag
of_tag-tag (other n) = ground arith
of_tag-tag cursor = refl
of_tag-tag _ = refl

-- Two containers with the same number are the same.
pub eq_of_same : (c d : Container) → same c d ≡ true → c ≡ d
eq_of_same c d h = sym (of_tag-tag c) ∙ ap of_tag ((==_iff (tag c) (tag d)).0 h) ∙ of_tag-tag d

-- protocol.StackRequestSlotInfo: the container and the slot byte.
pub record SlotInfo : Type 0 where
  pub container : Container
  pub slot : ℕ

-- The actions of an item-stack request that the gateway tells apart; `unbridged` is any other.
pub data Action : Type 0 where
  take place : SlotInfo → SlotInfo → ℕ → Action
  swap : SlotInfo → SlotInfo → Action
  drop destroy consume : SlotInfo → ℕ → Action
  craft_recipe auto_craft_recipe craft_creative : ℕ → Action
  craft_optional : ℕ → Action
  craft_grindstone : Action
  craft_loom : String → Action
  beacon_payment_action : ℕ → ℕ → Action
  craft_results_deprecated : Action
  unbridged : Action

-- protocol.ItemStackRequest
pub record Request : Type 0 where
  pub actions : List Action
  pub filter_strings : List String
