-- ===== src/Mirror.antt =====
-- internal/gw/itemstack.go and crafter.go: invMirror, the gateway's copy of an open window. Its lock
-- is held over each method, so that a method is one step on the state.
pub mod Invariant
pub mod Mapping
pub mod Frames
pub mod Writes
use tachyne_gw_bedrock.Prelude.{
  ℕ, suc, ◌+◌, ◌-◌, Bool, true, false, List, [], ◌∷◌, ◌++◌, Option, none, some, ◌&&◌, ◌==◌, ltb,
  leb, if◌then◌else◌, lt_i32, le_i32, minus_one, length, get_elem?, set, take, drop, replicate, Res,
  ok, panic, ◌>>=◌,
}
use tachyne_gw_bedrock.Item.{ItemStack, no_item}
use tachyne_gw_bedrock.Protocol.{Container, same}
use tachyne_gw_bedrock.Layouts.{WinSlot, horse_unmapped}
use tachyne_gw_bedrock.Slots.{
  java_window_size, java_cursor_slot, bedrock_inv_size, bedrock_to_java_slot, java_to_bedrock_slot,
  result_container, java_main_first,
}

-- enchantRow: int32 patterns, the network id a uint32.
pub record EnchantRow : Type 0 where
  pub cost : ℕ
  pub bedrock : ℕ
  pub level : ℕ
  pub net_id : ℕ

abbrev pub blank_row : EnchantRow
blank_row = record { cost = 0; bedrock = 0; level = 0; net_id = 0 }

-- invMirror. `own` says which closures mapIn and mapOut are: those of newInvMirror, or those that
-- newWindowMirror makes over the layout. `trades` is none where the Go slice is nil.
pub record Mirror : Type 0 where
  pub slots : List ItemStack
  pub cursor : ℕ
  pub window : ℕ
  pub own : Bool
  pub layout : List WinSlot
  pub result : ℕ
  pub trades : Option (List ItemStack)
  pub ench : List EnchantRow
  pub table : Bool
  pub cutter : Bool
  pub smith : Bool
  pub loom : Bool
  pub beacon : Bool
  pub lectern_book : Bool
  pub lectern_page : ℕ
  pub position : ℕ × ℕ × ℕ
  pub tail : List WinSlot
  pub crafter_mask : ℕ
  pub crafter_triggered : Bool
  pub beacon_primary : ℕ
  pub beacon_secondary : ℕ

-- newInvMirror
unfoldable pub new_inv_mirror : Mirror
new_inv_mirror = record {
  slots = replicate (java_window_size + 1) no_item;
  cursor = java_cursor_slot;
  window = 0;
  own = true;
  layout = [];
  result = 0;
  trades = none;
  ench = replicate 3 blank_row;
  table = false;
  cutter = false;
  smith = false;
  loom = false;
  beacon = false;
  lectern_book = false;
  lectern_page = 0;
  position = (0, 0, 0);
  tail = [];
  crafter_mask = 0;
  crafter_triggered = false;
  beacon_primary = 0;
  beacon_secondary = 0;
}

-- The loop of newWindowMirror that finds the result slot: the last layout entry that is one.
pub find_result : List WinSlot → ℕ → ℕ → ℕ
find_result [] j found = found
find_result (ws ∷ l) j found =
    find_result l (suc j) (if result_container ws.container then j else found)

-- newWindowMirror
unfoldable pub new_window_mirror : ℕ → List WinSlot → Mirror
unfolding new_inv_mirror
new_window_mirror id l = record new_inv_mirror {
  slots = replicate (length l + 36 + 1) no_item;
  cursor = length l + 36;
  window = id;
  own = false;
  layout = l;
  result = find_result l 0 minus_one;
}

-- The search of mapIn through the layout.
pub find_slot : List WinSlot → ℕ → Container → ℕ → Option ℕ
find_slot [] j c slot = none
find_slot (ws ∷ l) j c slot =
    if same ws.container c && ws.idx == slot then some j else find_slot l (suc j) c slot

abbrev window_storage : ℕ → ℕ → Option ℕ
window_storage size slot =
    if ltb slot 9
    then some (size + 27 + slot)
    else if ltb slot bedrock_inv_size
    then some (size + slot - 9)
    else none

unfoldable pub window_map_in : Mirror → Container → ℕ → Option ℕ
window_map_in m Container.cursor slot = some m.cursor
window_map_in m Container.inventory slot = window_storage (length m.layout) slot
window_map_in m Container.hot_bar slot = window_storage (length m.layout) slot
window_map_in m Container.combined_hot_bar_and_inventory slot =
    window_storage (length m.layout) slot
window_map_in m c slot =
    if slot == horse_unmapped
    then none
    else if same c Container.created_output
    then (if le_i32 0 m.result then some m.result else none)
    else find_slot m.layout 0 c slot

-- mapIn: a Bedrock container and slot byte to the Java slot.
unfoldable pub map_in : Mirror → Container → ℕ → Option ℕ
unfolding bedrock_to_java_slot window_map_in
map_in m c slot = if m.own then bedrock_to_java_slot c slot else window_map_in m c slot

abbrev place_of : Option WinSlot → Option (Container × ℕ)
place_of none = none
place_of (some ws) = some (ws.container, ws.idx)

unfoldable pub window_map_out : Mirror → ℕ → Option (Container × ℕ)
window_map_out m slot =
    let size = length m.layout in
    if ltb slot size
    then place_of (get_elem? m.layout slot)
    else if leb size slot && ltb slot (size + 27)
    then some (Container.inventory, slot - size + 9)
    else if leb (size + 27) slot && ltb slot (size + 36)
    then some (Container.inventory, slot - size - 27)
    else if slot == m.cursor
    then some (Container.cursor, 0)
    else none

-- tailSlot: the containers slots that Java numbers after the player's inventory.
unfoldable pub tail_slot : Mirror → ℕ → Option WinSlot
tail_slot m slot =
    let base = length m.layout + 36 in
    if leb base slot && ltb slot (base + length m.tail)
    then get_elem? m.tail (slot - base)
    else none

-- mapOut: a Java slot to its place on Bedrock's side, the tail that setTail put first.
unfoldable pub map_out : Mirror → ℕ → Option (Container × ℕ)
unfolding tail_slot window_map_out java_to_bedrock_slot
map_out m slot = elim (tail_slot m slot) [
  | some ws ↦ some (ws.container, ws.idx)
  | none ↦ if m.own then java_to_bedrock_slot slot else window_map_out m slot
]

-- make([]T, n) with copy
abbrev pub resize : ℕ → List ItemStack → List ItemStack
resize n xs = take n (xs ++ replicate n no_item)

-- setTail
unfoldable pub set_tail : Mirror → List WinSlot → Mirror
set_tail m t =
    let c = length m.layout + 36 + length t in
    record m { tail = t; cursor = c; slots = resize (c + 1) m.slots }

-- setTrades, with the offers the world's frame lists
unfoldable pub set_trades : Mirror → List ItemStack → Mirror
set_trades m results = record m { trades = some results }

-- xs[i] = v, which panics out of range.
unfoldable pub put_at : List ItemStack → ℕ → ItemStack → Res (List ItemStack)
put_at xs i v = if ltb i (length xs) then ok (set xs i v) else panic

-- setCursor
unfoldable pub set_cursor : Mirror → ItemStack → Res Mirror
unfolding put_at
set_cursor m st = do xs ← put_at m.slots m.cursor st; ok (record m { slots = xs })

-- set: a slot outside the window is passed over. `slot` is an int32's bit pattern.
unfoldable pub set_slot : Mirror → ℕ → ItemStack → Res Mirror
unfolding put_at
set_slot m slot st =
    if lt_i32 slot 0
    then ok m
    else if leb (length m.slots) slot
    then ok m
    else (do xs ← put_at m.slots slot st; ok (record m { slots = xs }))

-- The loop of setAll over the frame's slots, from index i on.
unfoldable pub fill_below : ℕ → ℕ → List ItemStack → List ItemStack → List ItemStack
fill_below cursor i [] slots = slots
fill_below cursor i (st ∷ frame) slots =
    fill_below cursor (suc i) frame (if ltb i cursor then set slots i st else slots)

-- setAll, as it leaves the mirror where no write is out of range
unfoldable pub set_all : Mirror → List ItemStack → ItemStack → Mirror
unfolding fill_below
set_all m frame held =
    let blank = replicate (length m.slots) no_item in
    record m { slots = set (fill_below m.cursor 0 frame blank) m.cursor held }

-- setAll with its writes
unfoldable pub write_below : ℕ → ℕ → List ItemStack → List ItemStack → Res (List ItemStack)
unfolding put_at
write_below cursor i [] slots = ok slots
write_below cursor i (st ∷ frame) slots = do
  slots' ← (if ltb i cursor then put_at slots i st else ok slots)
  write_below cursor (suc i) frame slots'

unfoldable pub write_all : Mirror → List ItemStack → ItemStack → Res Mirror
unfolding write_below
write_all m frame held = do
  filled ← write_below m.cursor 0 frame (replicate (length m.slots) no_item)
  xs ← put_at filled m.cursor held
  ok (record m { slots = xs })

-- xs[a:b]
abbrev pub slice : ℕ → ℕ → List ItemStack → List ItemStack
slice a b xs = take (b - a) (drop a xs)

-- playerView
unfoldable pub player_view : Mirror → List ItemStack
player_view m =
    if m.window == 0
    then slice 0 java_window_size m.slots
    else (let size = length m.slots - 36 - 1 in
        replicate java_main_first no_item
        ++ (slice size (size + 27) m.slots
            ++ (slice (size + 27) (size + 36) m.slots ++ no_item ∷ [])))
