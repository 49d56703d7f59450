-- ===== src/Session.antt =====
-- internal/gw/session.go, play: the frames of the world and the packets of the client that read or
-- write the mirrors. The two goroutines share the mirrors under their locks; a run is a sequence of
-- frames and packets, in whatever order they interleave.
pub mod Writes
pub mod Invariant
pub mod Reach
use Prim.Native.String.{String}
use tachyne_gw_bedrock.Prelude.{
  ℕ, ◌<◌, ◌^◌, Bool, true, false, List, [], ◌∷◌, map, Option, none, some, ◌==◌, if◌then◌else◌,
  lt_i32, Res, ok, refuse, panic, ◌>>=◌,
}
use tachyne_gw_bedrock.Item.{ItemStack}
use tachyne_gw_bedrock.Protocol.{Container, Request}
use tachyne_gw_bedrock.Layouts.{WindowType, MenuWindow, menu_windows, find_menu, horse_layout}
use tachyne_gw_bedrock.Mirror.{Mirror, new_inv_mirror, write_all, set_slot, set_cursor, set_trades}
use tachyne_gw_bedrock.Moves.{WindowClick, drop_held}
use tachyne_gw_bedrock.Recipes.{RecipeBook, RecipeSet, new_recipe_set, add_book}
use tachyne_gw_bedrock.Requests.Steps.{CraftStep, Work}
use tachyne_gw_bedrock.Requests.Clicks.{click_for}
use tachyne_gw_bedrock.Requests.Crafts.{Tables}
use tachyne_gw_bedrock.Requests.Apply.{apply_request}
use tachyne_gw_bedrock.Shows.{send_window_slot}
use tachyne_gw_bedrock.Windows.{
  WinState, no_window, open_window, close_window, used, used_entity, window_data,
}

-- The variables of play that the window side keeps.
pub record Session : Type 0 where
  pub own : Mirror
  pub win : WinState
  pub recipes : RecipeSet

unfoldable pub new_session : Session
unfolding new_inv_mirror new_recipe_set
new_session = record { own = new_inv_mirror; win = no_window; recipes = new_recipe_set }

-- Frames of the world, then packets of the client.
pub data Event : Type 0 where
  window_open : ℕ → ℕ → String → Event
  horse_screen : ℕ → ℕ → Bool → Event
  window_items : ℕ → List ItemStack → ItemStack → Event
  window_slot : ℕ → ℕ → ItemStack → Event
  -- The last number is the counter of network ids.
  window_property : ℕ → ℕ → ℕ → ℕ → Event
  trades : ℕ → List ItemStack → Event
  cursor_item : ItemStack → Event
  window_close_server : ℕ → Event
  recipe_book : RecipeBook → Event
  stack_request : Request → Event
  container_close : Event
  drop_key : ℕ → ℕ → Event
  use_block : ℕ → ℕ → ℕ → Event
  use_entity : ℕ → Event

-- What goes out: a close, a click or a step to the world, or a close to the client.
pub data Sent : Type 0 where
  world_close : Sent
  world_click : WindowClick → Sent
  world_step : CraftStep → Sent
  client_close : ℕ → WindowType → Bool → Sent

-- The open window's mirror, or the player's.
abbrev pub target : Session → Mirror
target s = elim s.win.mirror [ none ↦ s.own | some m ↦ m ]

abbrev pub with_window : Session → Option Mirror → Session
with_window s o = record s { win = record s.win { mirror = o } }

abbrev pub retarget_over : Option Mirror → Session → Mirror → Session
retarget_over none s m = record s { own = m }
retarget_over (some _) s m = with_window s (some m)

abbrev pub retarget : Session → Mirror → Session
retarget s m = retarget_over s.win.mirror s m

-- A change to the open window, where it is the one that the frame names.
abbrev pub on_named : Option Mirror → ℕ → (Mirror → Mirror) → Option Mirror
on_named none id f = none
on_named (some m) id f = some (if m.window == id then f m else m)

abbrev pub on_window : Session → ℕ → (Mirror → Mirror) → Session
on_window s id f = with_window s (on_named s.win.mirror id f)

-- A change that can index out of range, to the player's mirror or to the open window where it is the one that is named.
abbrev pub in_window :
    Session → ℕ → Option Mirror → (Mirror → Res Mirror) → Res (Session × List Sent)
in_window s id none f = ok (s, [])
in_window s id (some m) f =
    if m.window == id then (do m' ← f m; ok (with_window s (some m'), [])) else ok (s, [])

abbrev pub in_either :
    Session → ℕ → (Mirror → Res Mirror) → (Mirror → Res Mirror) → Res (Session × List Sent)
in_either s id own shown =
    if id == 0
    then (do m ← own s.own; ok (record s { own = m }, []))
    else in_window s id s.win.mirror shown

-- A menu with no Bedrock twin is closed at once.
unfoldable pub opening : Session → ℕ → String → Option MenuWindow → Session × List Sent
unfolding open_window
opening s id title none = (s, world_close ∷ [])
opening s id title (some mw) =
    (record s { win = open_window s.win id mw.layout mw.ctype title }, [])

-- The packets of an accepted request: its steps if there are any, else the click.
abbrev pub sent_over : Mirror → Work → List CraftStep → List Sent
sent_over m w [] = world_click (click_for (record m { slots = w.slots }) w.touched) ∷ []
sent_over m w (s ∷ rest) = map world_step (s ∷ rest)

abbrev pub sent_for : Mirror → Work → List Sent
sent_for m w = sent_over m w w.steps

abbrev pub close_server_sent : ℕ → Option (ℕ × WindowType) → List Sent
close_server_sent id none = []
close_server_sent id (some (shown, ctype)) =
    if shown == id then client_close shown ctype true ∷ [] else []

abbrev pub close_sent : Option (ℕ × WindowType) → List Sent
close_sent none = []
close_sent (some (shown, ctype)) = world_close ∷ client_close shown ctype false ∷ []

abbrev pub answered : Session → Res Work → Res (Session × List Sent)
answered s (ok w) = ok (retarget s (record (target s) { slots = w.slots }), sent_for (target s) w)
answered s refuse = ok (s, [])
answered s panic = panic

abbrev pub dropped : Session → Option (Mirror × WindowClick) → Session × List Sent
dropped s none = (s, [])
dropped s (some (m, click)) = (record s { own = m }, world_click click ∷ [])

-- A slot of the open window that the world sets: what sendWindowSlot sends goes to the client.
abbrev pub set_and_show : Mirror → ℕ → ItemStack → Res Mirror
set_and_show m slot item = do
  m' ← set_slot m slot item
  shown ← send_window_slot m' slot item
  ok m'

module _ (t : Tables) (listing : List ℕ) (renumber : ℕ → ℕ) where
  -- One frame or packet. Of the packets that show a window to the client those of sendWindowSlot are taken here, where
  -- the world's slot number indexes; the others have no state and are in Shows.
  unfoldable pub step : Session → Event → Res (Session × List Sent)
  unfolding opening open_window close_window used used_entity window_data write_all set_slot
      send_window_slot set_cursor set_trades add_book apply_request drop_held click_for
  step s (window_open id menu title) = ok (opening s id title (find_menu menu_windows menu))
  step s (horse_screen id columns llama) =
      ok (
        record s { win = open_window s.win id (horse_layout columns llama) WindowType.horse "" },
        [],
      )
  step s (window_items id slots held) =
      in_either s id (λ m. write_all m slots held) (λ m. write_all m slots held)
  step s (window_slot id slot item) =
      in_either s id (λ m. set_slot m slot item) (λ m. set_and_show m slot item)
  step s (window_property id prop value counter) =
      in_window s id s.win.mirror (λ m. window_data renumber counter m s.win.ctype prop value)
  step s (trades id results) = ok (on_window s id (λ m. set_trades m results), [])
  step s (cursor_item item) = do m ← set_cursor (target s) item; ok (retarget s m, [])
  step s (window_close_server id) =
      let (w, was) = close_window s.win in ok (record s { win = w }, close_server_sent id was)
  step s (recipe_book b) = ok (record s { recipes = add_book s.recipes b }, [])
  step s (stack_request req) = answered s (apply_request (target s) t listing (some s.recipes) req)
  step s container_close =
      let (w, was) = close_window s.win in ok (record s { win = w }, close_sent was)
  step s (drop_key slot count) = ok (
      if lt_i32 0 count
      then dropped s (drop_held s.own Container.inventory slot count)
      else (s, []))
  step s (use_block x y z) = ok (record s { win = used s.win x y z }, [])
  step s (use_entity id) = ok (record s { win = used_entity s.win id }, [])
