-- ===== src/Slots.antt =====
-- internal/gw/inventory.go and itemstack.go: the two numberings of the player's own window, and
-- which containers live in Bedrock's UI window or hold a menu's result.
-- A slot is an int32 pattern; each test on one here has an upper bound, so that the plain order
-- serves for the signed one.
pub mod RoundTrip
use tachyne_gw_bedrock.Prelude.{
  ℕ, ◌+◌, ◌-◌, Bool, true, false, Option, none, some, ◌&&◌, ◌==◌, ltb, leb, if◌then◌else◌,
}
use tachyne_gw_bedrock.Protocol
use tachyne_gw_bedrock.Protocol.{Container}

abbrev pub java_armor_first : ℕ
java_armor_first = 5

abbrev pub java_main_first : ℕ
java_main_first = 9

abbrev pub java_hotbar_first : ℕ
java_hotbar_first = 36

abbrev pub java_offhand : ℕ
java_offhand = 45

abbrev pub java_window_size : ℕ
java_window_size = 46

abbrev pub java_cursor_slot : ℕ
java_cursor_slot = java_window_size

abbrev pub bedrock_inv_size : ℕ
bedrock_inv_size = 36

abbrev pub bedrock_armor_size : ℕ
bedrock_armor_size = 4

abbrev pub player_grid_first : ℕ
player_grid_first = 28

abbrev pub table_grid_first : ℕ
table_grid_first = 32

abbrev pub craft_output_slot : ℕ
craft_output_slot = 50

-- javaToBedrockSlot
unfoldable pub java_to_bedrock_slot : ℕ → Option (Container × ℕ)
java_to_bedrock_slot slot =
    if leb java_hotbar_first slot && ltb slot java_offhand
    then some (Container.inventory, slot - java_hotbar_first)
    else if leb java_main_first slot && ltb slot java_hotbar_first
    then some (Container.inventory, slot - java_main_first + 9)
    else if leb java_armor_first slot && ltb slot java_main_first
    then some (Container.armor, slot - java_armor_first)
    else if slot == java_offhand
    then some (Container.offhand, 0)
    else if slot == 0
    then some (Container.crafting_output_preview, craft_output_slot)
    else if leb 1 slot && leb slot 4
    then some (Container.crafting_input, player_grid_first + (slot - 1))
    else none

abbrev bedrock_storage : ℕ → Option ℕ
bedrock_storage slot =
    if ltb slot 9
    then some (java_hotbar_first + slot)
    else if ltb slot bedrock_inv_size
    then some (java_main_first + slot - 9)
    else none

-- bedrockToJavaSlot. The slot is a byte, and is only lowered past a test that it is large enough.
unfoldable pub bedrock_to_java_slot : Container → ℕ → Option ℕ
bedrock_to_java_slot Container.cursor slot = some java_cursor_slot
bedrock_to_java_slot Container.offhand slot = some java_offhand
bedrock_to_java_slot Container.crafting_input slot =
    if leb player_grid_first slot && ltb slot (player_grid_first + 4)
    then some (slot - player_grid_first + 1)
    else none
bedrock_to_java_slot Container.crafting_output_preview slot = some 0
bedrock_to_java_slot Container.created_output slot = some 0
bedrock_to_java_slot Container.armor slot =
    if ltb slot bedrock_armor_size then some (java_armor_first + slot) else none
bedrock_to_java_slot Container.inventory slot = bedrock_storage slot
bedrock_to_java_slot Container.hot_bar slot = bedrock_storage slot
bedrock_to_java_slot Container.combined_hot_bar_and_inventory slot = bedrock_storage slot
bedrock_to_java_slot _ slot = none

-- uiContainer
unfoldable pub ui_container : Container → Bool
ui_container Container.crafting_input = true
ui_container Container.crafting_output_preview = true
ui_container Container.created_output = true
ui_container Container.anvil_input = true
ui_container Container.anvil_material = true
ui_container Container.anvil_result_preview = true
ui_container Container.grindstone_input = true
ui_container Container.grindstone_additional = true
ui_container Container.grindstone_result_preview = true
ui_container Container.trade_two_ingredient_one = true
ui_container Container.trade_two_ingredient_two = true
ui_container Container.trade_two_result_preview = true
ui_container Container.enchanting_input = true
ui_container Container.enchanting_material = true
ui_container Container.stonecutter_input = true
ui_container Container.stonecutter_result_preview = true
ui_container Container.smithing_table_template = true
ui_container Container.smithing_table_input = true
ui_container Container.smithing_table_material = true
ui_container Container.smithing_table_result_preview = true
ui_container Container.loom_input = true
ui_container Container.loom_dye = true
ui_container Container.loom_material = true
ui_container Container.loom_result_preview = true
ui_container Container.beacon_payment = true
ui_container Container.cartography_input = true
ui_container Container.cartography_additional = true
ui_container Container.cartography_result_preview = true
ui_container _ = false

-- resultContainer
unfoldable pub result_container : Container → Bool
result_container Container.crafting_output_preview = true
result_container Container.anvil_result_preview = true
result_container Container.grindstone_result_preview = true
result_container Container.trade_two_result_preview = true
result_container Container.stonecutter_result_preview = true
result_container Container.smithing_table_result_preview = true
result_container Container.loom_result_preview = true
result_container Container.cartography_result_preview = true
result_container _ = false
