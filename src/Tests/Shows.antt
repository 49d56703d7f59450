-- ===== src/Tests/Shows.antt =====
-- A furnace's fuel as it is shown and answered, and a book with a page taken out.
use tachyne_gw_bedrock.Prelude.{
  ok, inl, inr, ℕ, zero, suc, ◌≤◌, ◌≡◌, refl, Bool, true, false, List, [], ◌∷◌, some, arith, length,
}
use tachyne_gw_bedrock.Item.{ItemStack}
use tachyne_gw_bedrock.Protocol.{Container}
use tachyne_gw_bedrock.Layouts.{furnace_layout}
use tachyne_gw_bedrock.Mirror.{
  Mirror, new_window_mirror, map_in, map_out, tail_slot, window_map_out,
}
use tachyne_gw_bedrock.Shows.{one, home_of, send_window_slot, answers}
use tachyne_gw_bedrock.Shows.Places.{NamesAll, send_window_slot-map_in, answers-map_in}
use tachyne_gw_bedrock.Books.{BookAction, edit_pages, edit, trim}
use tachyne_gw_bedrock.Books.Edits.{EndsInText, edit_pages-EndsInText}

abbrev furnace : Mirror
furnace = new_window_mirror 4 furnace_layout

abbrev coal : ItemStack
coal = record { id = 7; count = 8; components = [] }

send_window_slot-map_in_example :
    (c : Container) × (i : ℕ) × (send_window_slot furnace 1 coal
      ≡ ok (one (home_of furnace c) i (some c) coal ∷ []))
    × (map_in furnace c i ≡ some 1)
unfolding new_window_mirror
send_window_slot-map_in_example = send_window_slot-map_in furnace 1 coal refl refl (omega arith)

fuel_place : map_out furnace 1 ≡ some (Container.furnace_fuel, 1)
unfolding map_out tail_slot window_map_out new_window_mirror
fuel_place = refl

-- Fuel is taken to the cursor: both are answered.
answers-map_in_example : NamesAll furnace (39 ∷ 1 ∷ []) (answers furnace (39 ∷ 1 ∷ []))
unfolding new_window_mirror
answers-map_in_example =
    answers-map_in furnace (39 ∷ 1 ∷ []) refl refl refl
      (inl refl, (inr (omega arith, Container.furnace_fuel, 1, fuel_place, omega arith), tt))

-- Pages are numbers here, and 0 is the blank page.
abbrev is_zero : ℕ → Bool
is_zero zero = true
is_zero (suc n) = false

abbrev first_page : List ℕ
first_page = 5 ∷ []

delete_last : edit_pages 0 is_zero (5 ∷ 0 ∷ 6 ∷ []) BookAction.delete_page 2 0 0 ≡ some first_page
unfolding edit_pages edit trim
delete_last = refl

edit_pages-EndsInText_example : EndsInText 0 is_zero first_page × (length first_page ≤ 101)
edit_pages-EndsInText_example =
    edit_pages-EndsInText 0 is_zero (5 ∷ 0 ∷ 6 ∷ []) BookAction.delete_page 2 0 0 first_page
      (omega arith) delete_last
