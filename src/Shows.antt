-- ===== src/Shows.antt =====
-- internal/gw/window.go and inventory.go: what the client is shown of a window, slot by slot, and
-- the answer to a request (itemstack.go). A packet's item is the stack that it renders.
pub mod Places
use tachyne_gw_bedrock.Prelude.{
  ℕ, zero, suc, ◌+◌, ◌-◌, ◌%◌, ◌^◌, Bool, true, false, not, List, [], ◌∷◌, ◌++◌, Option, none, some,
  ◌&&◌, ◌==◌, if◌then◌else◌, ltb, leb, length, get_elem?, get_or, set, take, replicate, lt_i32, Res,
  ok, panic, ◌>>=◌,
}
use tachyne_gw_bedrock.Item.{ItemStack, no_item}
use tachyne_gw_bedrock.Protocol.{Container, same}
use tachyne_gw_bedrock.Layouts.{WinSlot, horse_unmapped}
use tachyne_gw_bedrock.Slots.{
  java_hotbar_first, bedrock_inv_size, bedrock_armor_size, java_to_bedrock_slot, ui_container,
}
use tachyne_gw_bedrock.Mirror.{Mirror, tail_slot, map_out, player_view}

-- The windows that a packet names: protocol.WindowID…, or an open window's id.
pub data Home : Type 0 where
  inventory armor off_hand ui : Home
  opened : ℕ → Home

-- InventorySlot, with the container that it names if any, and InventoryContent.
pub data Shown : Type 0 where
  one : Home → ℕ → Option Container → ItemStack → Shown
  whole : Home → List ItemStack → Container → Shown

-- sendInventorySlot
abbrev pub slot_at : Option (Container × ℕ) → ItemStack → List Shown
slot_at none st = []
slot_at (some (Container.armor, i)) st = one Home.armor i none st ∷ []
slot_at (some (Container.offhand, i)) st = one Home.off_hand i none st ∷ []
slot_at (some (Container.crafting_input, i)) st =
    one Home.ui i (some Container.crafting_input) st ∷ []
slot_at (some (Container.crafting_output_preview, i)) st =
    one Home.ui i (some Container.crafting_output_preview) st ∷ []
slot_at (some (c, i)) st = one Home.inventory i none st ∷ []

unfoldable pub send_inventory_slot : ℕ → ItemStack → List Shown
unfolding java_to_bedrock_slot
send_inventory_slot slot st = slot_at (java_to_bedrock_slot slot) st

-- The three lists that sendPlayerInventory fills.
pub record Parts : Type 0 where
  pub inv : List ItemStack
  pub armor : List ItemStack
  pub offhand : ItemStack

abbrev pub put_part : Option (Container × ℕ) → ItemStack → Parts → Parts
put_part (some (Container.inventory, i)) st p = record p { inv = set p.inv i st }
put_part (some (Container.armor, i)) st p = record p { armor = set p.armor i st }
put_part (some (Container.offhand, i)) st p = record p { offhand = st }
put_part _ st p = p

unfoldable pub fill_parts : ℕ → List ItemStack → Parts → Parts
unfolding java_to_bedrock_slot
fill_parts i [] p = p
fill_parts i (st ∷ slots) p = fill_parts (suc i) slots (put_part (java_to_bedrock_slot i) st p)

unfoldable pub send_grid : ℕ → List ItemStack → List Shown
unfolding send_inventory_slot
send_grid slot [] = []
send_grid slot (st ∷ slots) = send_inventory_slot slot st ++ send_grid (suc slot) slots

-- sendPlayerInventory
unfoldable pub send_player_inventory : List ItemStack → List Shown
unfolding fill_parts send_grid
send_player_inventory slots =
    let blank : Parts = record {
      inv = replicate bedrock_inv_size no_item;
      armor = replicate bedrock_armor_size no_item;
      offhand = no_item;
    } in
    let p = fill_parts 0 slots blank in
    whole Home.inventory p.inv Container.inventory
    ∷ whole Home.armor p.armor Container.armor
    ∷ whole Home.off_hand (p.offhand ∷ []) Container.offhand
    ∷ send_grid 0 (take 5 slots)

-- sendWindowSlot
abbrev pub home_of : Mirror → Container → Home
home_of m c = if ui_container c then Home.ui else Home.opened m.window

abbrev pub in_lower_half : Option (Container × ℕ) → ItemStack → List Shown
in_lower_half none st = []
in_lower_half (some (c, i)) st =
    if ltb i 9 then send_inventory_slot (java_hotbar_first + i) st else send_inventory_slot i st

-- m.layout[slot]
abbrev pub in_layout_slot : Mirror → Option WinSlot → ItemStack → Res (List Shown)
in_layout_slot m none st = panic
in_layout_slot m (some ws) st = ok (one (home_of m ws.container) ws.idx (some ws.container) st ∷ [])

-- A negative slot (2 ^ 31 or more, past any layout) passes the code's test and is then outside the layout.
abbrev pub window_slot_at : Mirror → ℕ → ItemStack → Option WinSlot → Res (List Shown)
window_slot_at m slot st (some ws) =
    ok (one (Home.opened m.window) ws.idx (some ws.container) st ∷ [])
window_slot_at m slot st none =
    if ltb slot (length m.layout)
    then in_layout_slot m (get_elem? m.layout slot) st
    else if lt_i32 slot 0
    then panic
    else ok (in_lower_half (map_out m slot) st)

unfoldable pub send_window_slot : Mirror → ℕ → ItemStack → Res (List Shown)
unfolding tail_slot send_inventory_slot map_out ui_container
send_window_slot m slot st = window_slot_at m slot st (tail_slot m slot)

-- sendWindowItems: UI slots one by one, from Java slot j on.
unfoldable pub send_ui : Mirror → ℕ → List WinSlot → List ItemStack → Res (List Shown)
unfolding send_window_slot
send_ui m j [] slots = ok []
send_ui m j (ws ∷ l) [] = ok []
send_ui m j (ws ∷ l) (st ∷ slots) = do
  first ← send_window_slot m j st
  rest ← send_ui m (suc j) l slots
  ok (first ++ rest)

-- The size of the block's own container, and its content.
pub content_size : List WinSlot → ℕ → ℕ
content_size [] size = size
content_size (ws ∷ l) size =
    content_size l
      (if not (ws.idx == horse_unmapped) && ltb size (ws.idx + 1) then ws.idx + 1 else size)

-- A place past the end is passed over.
pub fill_content : List WinSlot → List ItemStack → List ItemStack → List ItemStack
fill_content [] slots content = content
fill_content (ws ∷ l) [] content = content
fill_content (ws ∷ l) (st ∷ slots) content = fill_content l slots (set content ws.idx st)

unfoldable pub send_tail : Mirror → ℕ → List WinSlot → List ItemStack → Res (List Shown)
unfolding send_window_slot
send_tail m slot [] slots = ok []
send_tail m slot (ws ∷ t) slots = do
  first ←
      (if ltb slot (length slots)
        then send_window_slot m slot (get_or slots slot no_item)
        else ok [])
  rest ← send_tail m (suc slot) t slots
  ok (first ++ rest)

abbrev pub starts_in_ui : List WinSlot → Bool
starts_in_ui [] = false
starts_in_ui (ws ∷ l) = ui_container ws.container

unfoldable pub send_window_items : Mirror → List ItemStack → Res (List Shown)
unfolding send_ui send_player_inventory player_view send_tail content_size fill_content ui_container
send_window_items m slots = do
  let blank = replicate (content_size m.layout 0) no_item
  let content =
      whole (Home.opened m.window) (fill_content m.layout slots blank) Container.level_entity
  top ← (if starts_in_ui m.layout then send_ui m 0 m.layout slots else ok (content ∷ []))
  tail ← send_tail m (length m.layout + 36) m.tail slots
  ok (top ++ (send_player_inventory (player_view m) ++ tail))

-- respondStackRequest, of an accepted request: a place and a count for each changed slot. The code
-- groups them by container in a map, whose order it does not fix.
pub record Answer : Type 0 where
  pub container : Container
  pub slot : ℕ
  pub count : ℕ

abbrev pub answer_at : Option (Container × ℕ) → ItemStack → List Answer
answer_at none st = []
answer_at (some (c, i)) st =
    record { container = c; slot = i % 2 ^ 8; count = st.count % 2 ^ 8 } ∷ []

unfoldable pub answers : Mirror → List ℕ → List Answer
unfolding map_out
answers m [] = []
answers m (slot ∷ changed) =
    answer_at (if slot == m.cursor then some (Container.cursor, 0) else map_out m slot)
      (get_or m.slots slot no_item)
    ++ answers m changed
