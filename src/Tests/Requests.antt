-- ===== src/Tests/Requests.antt =====
-- A player's window with two stacks, and a client that moves them, crafts and takes creative items.
use tachyne_gw_bedrock.Prelude.{
  inr, ℕ, ◌≤◌, ◌<◌, ◌^◌, ◌≡◌, refl, true, List, [], ◌∷◌, none, some, arith, set, ok, Safe,
}
use tachyne_gw_bedrock.Item.{ItemStack, no_item}
use tachyne_gw_bedrock.Protocol.{Action, take, place, SlotInfo, Container, Request, craft_creative}
use tachyne_gw_bedrock.Slots.{bedrock_to_java_slot}
use tachyne_gw_bedrock.Requests.Transfers.{apply_transfer, apply_action, apply_actions}
use tachyne_gw_bedrock.Mirror.{Mirror, new_inv_mirror, map_in}
use tachyne_gw_bedrock.Mirror.Invariant.{IsMirror, new_inv_mirror-IsMirror, with_slots-IsMirror}
use tachyne_gw_bedrock.Moves.{transfer, shed, move_stacks, left_of}
use tachyne_gw_bedrock.Moves.Totals.{total, load, Keeps, Sheds, transfer-Keeps, shed-Sheds}
use tachyne_gw_bedrock.Requests.Steps.{Work, start, elem, touch}
use tachyne_gw_bedrock.Requests.Clicks.{click_for, read_click}
use tachyne_gw_bedrock.Requests.Crafts.{Tables, Craft, take_result}
use tachyne_gw_bedrock.Requests.Crafts.Takes.{Delivered, take_result-Delivered}
use tachyne_gw_bedrock.Requests.Apply.{apply_request}
use tachyne_gw_bedrock.Requests.Apply.Laws.{
  Applied, apply_request-Applied, read_click-apply_request, apply_request-items,
  apply_request-keeps,
}

abbrev stack : ℕ → ℕ → ItemStack
stack id count = record { id = id; count = count; components = [] }

-- Five of item 10 in the first hotbar slot and three below it.
abbrev two_stacks : List ItemStack
two_stacks = set (set new_inv_mirror.slots 36 (stack 10 5)) 9 (stack 10 3)

abbrev player : Mirror
player = record new_inv_mirror { slots = two_stacks }

player-IsMirror : IsMirror player
unfolding new_inv_mirror
player-IsMirror = with_slots-IsMirror new_inv_mirror two_stacks new_inv_mirror-IsMirror refl

abbrev tables : Tables
tables = record { cuts = []; transforms = []; loom_button = λ p i. none }

abbrev spot : Container → ℕ → SlotInfo
spot c i = record { container = c; slot = i }

-- Two from the hotbar to the cursor, and on to the other stack.
abbrev carry : Request
carry = record {
  actions =
      take (spot Container.hot_bar 0) (spot Container.cursor 0) 2
      ∷ place (spot Container.cursor 0) (spot Container.inventory 9) 2
      ∷ [];
  filter_strings = [];
}

abbrev carried : Work
carried = record {
  slots = set (set two_stacks 36 (stack 10 3)) 9 (stack 10 5);
  touched = 9 ∷ 46 ∷ 36 ∷ [];
  steps = [];
}

carry_run : apply_request player tables [] none carry ≡ ok carried
unfolding apply_request apply_actions apply_action apply_transfer map_in bedrock_to_java_slot
    transfer move_stacks touch elem new_inv_mirror
carry_run = refl

-- The click may name the touched slots in any order.
carry_covers : (j : ℕ) → elem j carried.touched ≡ true → elem j (36 ∷ 9 ∷ 46 ∷ []) ≡ true
unfolding elem
carry_covers j h = ground arith

two_stacks-load : load two_stacks < 2 ^ 31
unfolding load new_inv_mirror
two_stacks-load = omega arith

read_click-apply_request_example :
    read_click player (click_for (record player { slots = carried.slots }) (36 ∷ 9 ∷ 46 ∷ []))
    ≡ some carried.slots
unfolding elem new_inv_mirror
read_click-apply_request_example =
    read_click-apply_request player tables [] none carry carried (36 ∷ 9 ∷ 46 ∷ []) player-IsMirror
      refl carry_run carry_covers refl (inr (36, refl, omega arith))

apply_request-Applied_example : Safe (Applied player) (apply_request player tables [] none carry)
apply_request-Applied_example = apply_request-Applied player tables [] none carry player-IsMirror

apply_request-items_example : total 10 carried.slots ≤ total 10 two_stacks
apply_request-items_example =
    apply_request-items player tables [] none carry carried refl two_stacks-load
      (omega arith, (omega arith, tt)) carry_run 10

apply_request-keeps_example : total 10 carried.slots ≡ total 10 two_stacks
apply_request-keeps_example =
    apply_request-keeps player tables [] none carry carried refl two_stacks-load
      (omega arith, (omega arith, tt)) refl carry_run 10

-- Four planks of a recipe that makes two, onto the cursor.
abbrev craft : Craft
craft = record {
  work = start two_stacks;
  out = record { book_id = 7; result = stack 12 2 };
  auto = true;
  named = true;
}

abbrev on_cursor : SlotInfo
on_cursor = spot Container.cursor 0

take_result-Delivered_example :
    Safe
      (Delivered player craft on_cursor 4)
      (take_result player craft (spot Container.created_output 50) on_cursor 4)
take_result-Delivered_example =
    take_result-Delivered player craft (spot Container.created_output 50) on_cursor 4
      player-IsMirror refl

-- A creative client takes 64 of the second item listed into its inventory.
abbrev picks : List Action
picks =
    craft_creative 2 ∷ take (spot Container.created_output 50) (spot Container.inventory 20) 64 ∷ []

abbrev two_slots : List ItemStack
two_slots = stack 10 5 ∷ stack 10 3 ∷ []

two_slots-load : load two_slots < 2 ^ 31
unfolding load
two_slots-load = omega arith

transfer_run : transfer two_slots 0 1 2 ≡ some (stack 10 3 ∷ stack 10 5 ∷ [])
unfolding transfer move_stacks
transfer_run = refl

shed_run : shed two_slots 0 5 ≡ some (no_item ∷ stack 10 3 ∷ [])
unfolding shed left_of
shed_run = refl

transfer-Keeps_example : Keeps two_slots (stack 10 3 ∷ stack 10 5 ∷ [])
transfer-Keeps_example =
    transfer-Keeps two_slots 0 1 2 (stack 10 3 ∷ stack 10 5 ∷ []) two_slots-load (omega arith)
      transfer_run

shed-Sheds_example : Sheds two_slots (no_item ∷ stack 10 3 ∷ [])
shed-Sheds_example =
    shed-Sheds two_slots 0 5 (no_item ∷ stack 10 3 ∷ []) (omega arith) two_slots-load shed_run
