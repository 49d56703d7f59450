-- ===== src/Tests/Sessions.antt =====
-- A session that opens a furnace, and one that the world closes late.
use tachyne_gw_bedrock.Prelude.{
  inr, some, panic, ◌-◌, ◌^◌, ℕ, ◌≡◌, refl, List, [], ◌∷◌, none, some, arith, and_then, get_elem?,
  set, replicate, ok,
}
use tachyne_gw_bedrock.Item.{ItemStack, no_item}
use tachyne_gw_bedrock.Protocol.{Request, Container, take}
use tachyne_gw_bedrock.Layouts.{WindowType, MenuWindow, furnace_layout, find_menu, menu_windows}
use tachyne_gw_bedrock.Slots.{bedrock_to_java_slot}
use tachyne_gw_bedrock.Mirror.{
  Mirror, EnchantRow, new_inv_mirror, set_all, fill_below, map_in, map_out,
}
use tachyne_gw_bedrock.Moves.{WindowClick, transfer, move_stacks}
use tachyne_gw_bedrock.Requests.Steps.{Work, elem, touch}
use tachyne_gw_bedrock.Requests.Clicks.{read_click}
use tachyne_gw_bedrock.Requests.Crafts.{Tables, enchant_button}
use tachyne_gw_bedrock.Requests.Apply.{apply_request}
use tachyne_gw_bedrock.Requests.Transfers.{apply_transfer, apply_action, apply_actions}
use tachyne_gw_bedrock.Windows.{no_window, opened, open_window, enchant_options, number_rows}
use tachyne_gw_bedrock.Windows.Enchanting.{enchant_button-enchant_options}
use tachyne_gw_bedrock.Windows.Menus.{map_in-map_out-opened}
use tachyne_gw_bedrock.Session.{
  Session, new_session, window_items, stack_request, window_slot, window_close_server, world_click,
  target, step,
}
use tachyne_gw_bedrock.Session.Reach.{
  Reached, start, next, reached-read_click, negative_slot, stale_close,
}

abbrev no_tables : Tables
no_tables = record { cuts = []; transforms = []; loom_button = λ p i. none }

abbrev same_number : ℕ → ℕ
same_number n = n

abbrev furnace_menu : MenuWindow
furnace_menu = record { layout = furnace_layout; ctype = WindowType.furnace }

abbrev at_furnace : Session
at_furnace = record new_session {
  win = open_window no_window 3 furnace_layout WindowType.furnace "F";
}

furnace_found : find_menu menu_windows 14 ≡ some furnace_menu
unfolding find_menu
furnace_found = refl

abbrev coal : ItemStack
coal = record { id = 4; count = 2; components = [] }

negative_slot_example :
    step no_tables [] same_number at_furnace (window_slot 3 (2 ^ 32 - 1) coal) ≡ panic
unfolding open_window opened
negative_slot_example =
    negative_slot no_tables [] same_number at_furnace
      (opened no_window 3 furnace_layout WindowType.furnace) (2 ^ 32 - 1) coal refl (omega arith)
      (omega arith) (omega arith) (omega arith)

-- The world fills the player's window, and the client moves two items to the cursor.
abbrev stack : ℕ → ItemStack
stack count = record { id = 10; count = count; components = [] }

abbrev frame : List ItemStack
frame = set (replicate 46 no_item) 36 (stack 5)

abbrev stocked : Session
stocked = record new_session {
  own = record new_inv_mirror { slots = set (replicate 47 no_item) 36 (stack 5) };
}

world_stocks :
    step no_tables [] same_number new_session (window_items 0 frame no_item) ≡ ok (stocked, [])
unfolding step new_session new_inv_mirror set_all fill_below
world_stocks = refl

stocked-Reached : Reached no_tables [] same_number stocked
stocked-Reached = next (window_items 0 frame no_item) [] start tt world_stocks

abbrev lift : Request
lift = record {
  actions =
      take (record { container = Container.hot_bar; slot = 0 })
        (record { container = Container.cursor; slot = 0 }) 2
      ∷ [];
  filter_strings = [];
}

abbrev lifted : Work
lifted = record {
  slots = set (set (replicate 47 no_item) 36 (stack 3)) 46 (stack 2);
  touched = 46 ∷ 36 ∷ [];
  steps = [];
}

lift_run : apply_request (target stocked) no_tables [] (some stocked.recipes) lift ≡ ok lifted
unfolding apply_request apply_actions apply_action apply_transfer map_in bedrock_to_java_slot
    transfer move_stacks touch elem new_inv_mirror new_session
lift_run = refl

reached-read_click_example :
    (s' : Session) × (click : WindowClick) × (step no_tables [] same_number stocked
        (stack_request lift)
      ≡ ok (s', world_click click ∷ []))
    × (read_click (target stocked) click ≡ some (target s').slots)
unfolding elem new_session new_inv_mirror
reached-read_click_example =
    reached-read_click no_tables [] same_number stocked lift lifted stocked-Reached refl lift_run
      refl (inr (36, refl, omega arith))

stale_close_example :
    (s' : Session) × (step no_tables [] same_number at_furnace (window_close_server 2)
      ≡ ok (s', []))
    × (target s' ≡ at_furnace.own)
unfolding open_window opened
stale_close_example =
    stale_close no_tables [] same_number at_furnace
      (opened no_window 3 furnace_layout WindowType.furnace) 2 refl (omega arith)

map_in-map_out-opened_example :
    and_then
      (map_out (opened no_window 3 furnace_layout WindowType.furnace) 2)
      (λ (c, i). map_in (opened no_window 3 furnace_layout WindowType.furnace) c i)
    ≡ some 2
map_in-map_out-opened_example =
    map_in-map_out-opened no_window 14 3 furnace_menu 2 furnace_found (omega arith)

-- A table with its second row on offer.
abbrev row : ℕ → EnchantRow
row cost = record { cost = cost; bedrock = 9; level = 1; net_id = 0 }

abbrev table : Mirror
table = record new_inv_mirror { ench = row 0 ∷ row 3 ∷ row 0 ∷ [] }

second_row : get_elem? (enchant_options 40 table).ench 1 ≡ some (record (row 3) { net_id = 41 })
unfolding enchant_options number_rows
second_row = refl

enchant_button-enchant_options_example : enchant_button (enchant_options 40 table) 41 ≡ some 1
enchant_button-enchant_options_example =
    enchant_button-enchant_options table 40 1 (record (row 3) { net_id = 41 }) (omega arith)
      second_row (omega arith)
