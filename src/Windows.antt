-- ===== src/Windows.antt =====
-- internal/gw/window.go: winState, the container window that a client has open; and the properties
-- of a menu that its mirror keeps (enchanting.go, crafter.go, beacon.go).
pub mod Enchanting
pub mod Invariant
pub mod Menus
use Prim.Native.String.{String}
use tachyne_gw_bedrock.Prelude.{
  Res, ok, panic, ◌>>=◌, ltb, ℕ, ◌+◌, ◌-◌, ◌*◌, ◌/◌, ◌%◌, ◌^◌, Bool, true, false, not, List, [],
  ◌∷◌, Option, none, some, ◌&&◌, ◌==◌, if◌then◌else◌, lt_i32, le_i32, minus_one, get_or, set,
  replicate,
}
use tachyne_gw_bedrock.Layouts.{WinSlot, WindowType, same_type, crafter_tail}
use tachyne_gw_bedrock.Mirror.{Mirror, EnchantRow, blank_row, new_window_mirror, set_tail}

-- winState
pub record WinState : Type 0 where
  pub mirror : Option Mirror
  pub ctype : WindowType
  pub title : String
  pub last_use : ℕ × ℕ × ℕ
  pub last_entity : ℕ

abbrev pub no_window : WinState
no_window = record {
  mirror = none;
  ctype = WindowType.container;
  title = "";
  last_use = (0, 0, 0);
  last_entity = 0;
}

-- open: the mirror, with what its container type says of it.
unfoldable pub typed : WinState → ℕ → List WinSlot → WindowType → Mirror
unfolding new_window_mirror
typed w id l ctype = record (new_window_mirror id l) {
  table = same_type ctype WindowType.enchantment;
  cutter = same_type ctype WindowType.stonecutter;
  smith = same_type ctype WindowType.smithing_table;
  loom = same_type ctype WindowType.loom;
  beacon = same_type ctype WindowType.beacon;
  lectern_book = same_type ctype WindowType.lectern;
  position = w.last_use;
}

unfoldable pub opened : WinState → ℕ → List WinSlot → WindowType → Mirror
unfolding typed set_tail
opened w id l ctype =
    let m = typed w id l ctype in
    record (if same_type ctype WindowType.crafter then set_tail m crafter_tail else m) {
      ench = replicate 3 (record blank_row { bedrock = minus_one; level = minus_one });
    }

unfoldable pub open_window : WinState → ℕ → List WinSlot → WindowType → String → WinState
unfolding opened
open_window w id l ctype title = record w {
  mirror = some (opened w id l ctype);
  ctype = ctype;
  title = title;
}

-- close: the window that was open, if any.
unfoldable pub close_over : WinState → Option Mirror → WinState × Option (ℕ × WindowType)
close_over w none = (w, none)
close_over w (some m) = (record w { mirror = none }, some (m.window, w.ctype))

unfoldable pub close_window : WinState → WinState × Option (ℕ × WindowType)
unfolding close_over
close_window w = close_over w w.mirror

-- used and usedEntity
unfoldable pub used : WinState → ℕ → ℕ → ℕ → WinState
used w x y z = record w { last_use = (x, y, z) }

unfoldable pub used_entity : WinState → ℕ → WinState
used_entity w id = record w { last_entity = id }

-- Whether a property stands between two bounds, as int32s.
abbrev pub between : ℕ → ℕ → ℕ → Bool
between a b prop = le_i32 a prop && le_i32 prop b

-- m.ench[i] of the array of three rows, changed; with whether the row's level arrived.
abbrev pub put_row : Mirror → ℕ → (EnchantRow → EnchantRow) → Bool → Res (Mirror × Bool)
put_row m i change told =
    if ltb i 3
    then ok (record m { ench = set m.ench i (change (get_or m.ench i blank_row)) }, told)
    else panic

-- enchantProp. `renumber` is bedrockEnchantment.
unfoldable pub enchant_prop : (ℕ → ℕ) → Mirror → ℕ → ℕ → Res (Mirror × Bool)
enchant_prop renumber m prop value =
    if between 0 2 prop
    then put_row m prop (λ r. record r { cost = value }) false
    else if between 4 6 prop
    then put_row m (prop - 4) (λ r. record r { bedrock = renumber value }) false
    else if between 7 9 prop
    then put_row m (prop - 7) (λ r. record r { level = value }) true
    else ok (m, false)

abbrev pub is_offered : EnchantRow → Bool
is_offered r = le_i32 0 r.level && lt_i32 0 r.cost

-- enchantOptions, of the rows: each row on offer takes the next id of the counter.
unfoldable pub number_rows : ℕ → List EnchantRow → List EnchantRow
number_rows counter [] = []
number_rows counter (r ∷ rows) =
    let offered = record r { net_id = (counter + 1) % 2 ^ 32 } ∷ number_rows (counter + 1) rows in
    let blank = record r { net_id = 0 } ∷ number_rows counter rows in
    if is_offered r then offered else blank

unfoldable pub enchant_options : ℕ → Mirror → Mirror
unfolding number_rows
enchant_options counter m = record m { ench = number_rows counter m.ench }

-- A bit of the crafter's mask, and the mask with that bit set or cleared.
abbrev pub bit : ℕ → ℕ → Bool
bit mask p = mask / 2 ^ p % 2 == 1

abbrev pub put_bit : ℕ → ℕ → Bool → ℕ
put_bit mask p on =
    if bit mask p then (if on then mask else mask - 2 ^ p) else (if on then mask + 2 ^ p else mask)

-- crafterProp: none where it renders nothing.
unfoldable pub crafter_prop : Mirror → ℕ → ℕ → Option Mirror
crafter_prop m prop value =
    if between 0 8 prop
    then some (record m { crafter_mask = put_bit m.crafter_mask prop (not (value == 0)) })
    else if prop == 9
    then some (record m { crafter_triggered = not (value == 0) })
    else none

-- crafterToggle: the slot, and whether it is enabled.
unfoldable pub crafter_toggle : ℕ → Bool → ℕ × Bool
crafter_toggle slot disabled = (slot, not disabled)

-- beaconProp
unfoldable pub beacon_prop : Mirror → ℕ → ℕ → Option Mirror
beacon_prop m prop value =
    let chosen = if lt_i32 value 0 then 0 else value in
    if prop == 1
    then some (record m { beacon_primary = chosen })
    else if prop == 2
    then some (record m { beacon_secondary = chosen })
    else none

abbrev pub or_same : Mirror → Option Mirror → Mirror
or_same m none = m
or_same m (some m') = m'

-- windowData, as far as the mirror keeps it: the bars of a furnace or a brewing stand are passed on
-- without a trace.
unfoldable pub window_data : (ℕ → ℕ) → ℕ → Mirror → WindowType → ℕ → ℕ → Res Mirror
unfolding enchant_prop enchant_options beacon_prop crafter_prop
window_data renumber counter m WindowType.enchantment prop value = do
  (m', told) ← enchant_prop renumber m prop value
  ok (if told then enchant_options counter m' else m')
window_data renumber counter m WindowType.beacon prop value =
    ok (or_same m (beacon_prop m prop value))
window_data renumber counter m WindowType.crafter prop value =
    ok (or_same m (crafter_prop m prop value))
window_data renumber counter m WindowType.lectern prop value =
    ok (if prop == 0 then record m { lectern_page = value } else m)
window_data renumber counter m _ prop value = ok m
