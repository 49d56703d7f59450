-- ===== src/Tests/Windows.antt =====
-- The frames, places and shapes of a chest's and a crafter's windows.
use tachyne_gw_bedrock.Prelude.{
  ℕ, ◌<◌, ◌≡◌, refl, inl, false, List, [], ◌∷◌, ◌++◌, some, arith, and_then, length, replicate,
}
use tachyne_gw_bedrock.Item.{ItemStack, no_item}
use tachyne_gw_bedrock.Protocol.{Container}
use tachyne_gw_bedrock.Slots.{java_to_bedrock_slot, bedrock_to_java_slot}
use tachyne_gw_bedrock.Slots.RoundTrip.{bedrock_to_java-java_to_bedrock}
use tachyne_gw_bedrock.Layouts.{furnace_layout, crafter_layout, crafter_tail}
use tachyne_gw_bedrock.Mirror.{
  Mirror, new_window_mirror, set_tail, set_all, player_view, map_in, map_out, window_map_in,
}
use tachyne_gw_bedrock.Mirror.Invariant.{
  IsMirror, new_window_mirror-IsMirror, set_tail-IsMirror, map_in-lt,
}
use tachyne_gw_bedrock.Mirror.Mapping.{map_in-map_out}
use tachyne_gw_bedrock.Mirror.Frames.{set_all-slots, player_view-set_all, player_view-set_all_tail}

abbrev stack : ℕ → ItemStack
stack id = record { id = id; count = 1; components = [] }

abbrev furnace : Mirror
furnace = new_window_mirror 4 furnace_layout

abbrev crafter : Mirror
crafter = set_tail (new_window_mirror 5 crafter_layout) crafter_tail

new_window_mirror-IsMirror_example : IsMirror furnace
new_window_mirror-IsMirror_example = new_window_mirror-IsMirror 4 furnace_layout (omega arith)

furnace-IsMirror : IsMirror furnace
furnace-IsMirror = new_window_mirror-IsMirror 4 furnace_layout (omega arith)

crafter_parts :
    ((new_window_mirror 5 crafter_layout).own ≡ false)
    × (length (new_window_mirror 5 crafter_layout).layout ≡ 9)
unfolding new_window_mirror
crafter_parts = (refl, refl)

set_tail-IsMirror_example : IsMirror crafter
set_tail-IsMirror_example =
    set_tail-IsMirror (new_window_mirror 5 crafter_layout) crafter_tail
      (new_window_mirror-IsMirror 5 crafter_layout (omega arith)) crafter_parts.0
      (omega (arith, crafter_parts.1))

crafter-IsMirror : IsMirror crafter
crafter-IsMirror =
    set_tail-IsMirror (new_window_mirror 5 crafter_layout) crafter_tail
      (new_window_mirror-IsMirror 5 crafter_layout (omega arith)) crafter_parts.0
      (omega (arith, crafter_parts.1))

second_hotbar_slot : map_in furnace Container.hot_bar 1 ≡ some 31
unfolding new_window_mirror map_in window_map_in
second_hotbar_slot = refl

map_in-lt_example : 31 < length furnace.slots
map_in-lt_example = map_in-lt furnace Container.hot_bar 1 31 furnace-IsMirror second_hotbar_slot

-- The furnace's fuel slot.
map_in-map_out_example : and_then (map_out furnace 1) (λ (c, i). map_in furnace c i) ≡ some 1
unfolding new_window_mirror
map_in-map_out_example = map_in-map_out furnace 1 refl refl refl (inl (omega arith))

bedrock_to_java-java_to_bedrock_example :
    and_then (java_to_bedrock_slot 37) (λ (c, i). bedrock_to_java_slot c i) ≡ some 37
bedrock_to_java-java_to_bedrock_example = bedrock_to_java-java_to_bedrock 37 (omega arith)

abbrev contents : List ItemStack
contents = stack 1 ∷ stack 2 ∷ stack 3 ∷ []

abbrev main_rows : List ItemStack
main_rows = replicate 27 (stack 4)

abbrev hotbar : List ItemStack
hotbar = replicate 9 (stack 5)

set_all-slots_example :
    (set_all furnace (contents ++ (main_rows ++ hotbar)) no_item).slots
    ≡ (contents ++ (main_rows ++ hotbar)) ++ no_item ∷ []
unfolding new_window_mirror
set_all-slots_example =
    set_all-slots furnace (contents ++ (main_rows ++ hotbar)) no_item furnace-IsMirror refl

player_view-set_all_example :
    player_view (set_all furnace (contents ++ (main_rows ++ hotbar)) no_item)
    ≡ replicate 9 no_item ++ (main_rows ++ (hotbar ++ no_item ∷ []))
unfolding new_window_mirror
player_view-set_all_example =
    player_view-set_all furnace contents main_rows hotbar no_item furnace-IsMirror (omega arith)
      refl refl refl refl refl

abbrev grid : List ItemStack
grid = replicate 9 (stack 6)

abbrev short_hotbar : List ItemStack
short_hotbar = replicate 8 (stack 5)

player_view-set_all_tail_example :
    player_view
      (set_all crafter (grid ++ stack 7 ∷ (main_rows ++ (short_hotbar ++ stack 8 ∷ []))) no_item)
    ≡ replicate 9 no_item ++ (main_rows ++ ((short_hotbar ++ stack 8 ∷ []) ++ no_item ∷ []))
unfolding new_window_mirror set_tail
player_view-set_all_tail_example =
    player_view-set_all_tail crafter grid main_rows short_hotbar (stack 7) (stack 8) no_item
      crafter-IsMirror (omega arith) refl refl refl refl refl
