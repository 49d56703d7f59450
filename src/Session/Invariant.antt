-- ===== src/Session/Invariant.antt =====
-- internal/gw/session.go: the shape of both mirrors over one frame or packet.
use Prim.Native.String.{String}
use tachyne_gw_bedrock.Prelude.{
  ℕ, ◌<◌, ◌^◌, ◌≡◌, refl, ap, ◌∙◌, Bool, true, false, List, Option, none, some, ◌==◌, if◌then◌else◌,
  lt_i32, arith, length, length-set, Res, ok, refuse, panic, Safe, Safe-bind, Safe-if,
}
use tachyne_gw_bedrock.Item.{ItemStack}
use tachyne_gw_bedrock.Protocol.{Container}
use tachyne_gw_bedrock.Layouts.{WindowType, MenuWindow, menu_windows, find_menu, horse_layout}
use tachyne_gw_bedrock.Layouts.Sizes.{length-horse_layout}
use tachyne_gw_bedrock.Mirror.{Mirror, set_cursor, set_trades, map_in}
use tachyne_gw_bedrock.Mirror.Invariant.{IsMirror, new_inv_mirror-IsMirror}
use tachyne_gw_bedrock.Moves.{drop_found, drop_mapped, shed, shed-written}
use tachyne_gw_bedrock.Requests.Steps.{Work}
use tachyne_gw_bedrock.Requests.Crafts.{Tables}
use tachyne_gw_bedrock.Requests.Apply.{apply_request}
use tachyne_gw_bedrock.Requests.Apply.Laws.{Applied, apply_request-Applied}
use tachyne_gw_bedrock.Windows.{WinState, open_window, close_over}
use tachyne_gw_bedrock.Windows.Invariant.{
  SameShape, SameShape-IsMirror, SameShape-IsWindow, IsWindow, opened-IsWindow, window_data-Safe,
}
use tachyne_gw_bedrock.Windows.Menus.{menu_windows-plain}
use tachyne_gw_bedrock.Session.{
  Session, new_session, Event, window_open, horse_screen, window_items, window_slot,
  window_property, trades, cursor_item, window_close_server, recipe_book, stack_request,
  container_close, drop_key, use_block, use_entity, Sent, target, retarget_over, retarget, on_named,
  on_window, in_window, in_either, answered, dropped, opening, step,
}
use tachyne_gw_bedrock.Session.Writes.{
  Writes, slots-SameShape, set_slot-Writes, write_all-Writes, set_cursor-Writes, set_and_show-Safe,
}

abbrev pub OpenIsWindow : Option Mirror → Type 0
OpenIsWindow none = Unit {0}
OpenIsWindow (some m) = IsWindow m

-- The player's mirror and the open window's are in shape.
pub record IsSession (s : Session) : Type 0 where
  pub own : IsMirror s.own
  pub window : OpenIsWindow s.win.mirror

-- A mount's chest is of a size that can be laid out, the slot that the world sets is not negative, and a property's number
-- is an int32.
abbrev pub IsSized : Event → Type 0
IsSized (horse_screen id columns llama) = columns < 2 ^ 26
IsSized (window_slot id slot item) = slot < 2 ^ 31
IsSized (window_property id prop value counter) = prop < 2 ^ 32
IsSized _ = Unit {0}

abbrev Keeps : (Mirror → Mirror) → Type 0
Keeps f = (m : Mirror) → IsMirror m → SameShape m (f m)

on_named-IsWindow :
    (o : Option Mirror) (id : ℕ) (f : Mirror → Mirror)
    → Keeps f
    → OpenIsWindow o
    → OpenIsWindow (on_named o id f)
on_named-IsWindow none id f k v = tt
on_named-IsWindow (some m) id f k v = by (m.window == id)
  where
    by : (b : Bool) → IsWindow (if b then f m else m)
    by true = SameShape-IsWindow m (f m) (k m v.mirror) v
    by false = v

on_window-IsSession :
    (s : Session) (id : ℕ) (f : Mirror → Mirror)
    → Keeps f
    → IsSession s
    → IsSession (on_window s id f)
on_window-IsSession s id f k v = record {
  own = v.own;
  window = on_named-IsWindow s.win.mirror id f k v.window;
}

in_window-Safe :
    (s : Session) (id : ℕ) (o : Option Mirror) (f : Mirror → Res Mirror)
    → ((m : Mirror) → IsWindow m → Safe (SameShape m) (f m))
    → IsSession s
    → OpenIsWindow o
    → Safe (λ (s', sent). IsSession s') (in_window s id o f)
in_window-Safe s id none f k v w = v
in_window-Safe s id (some m) f k v w =
    Safe-if _ (m.window == id) _ _
      (Safe-bind _ (SameShape m) (f m) _ (k m w)
        λ m' _ same. record { own = v.own; window = SameShape-IsWindow m m' same w })
      v

in_either-Safe :
    (s : Session) (id : ℕ) (own shown : Mirror → Res Mirror)
    → Writes own
    → ((m : Mirror) → IsWindow m → Safe (SameShape m) (shown m))
    → IsSession s
    → Safe (λ (s', sent). IsSession s') (in_either s id own shown)
in_either-Safe s id own shown k k' v =
    Safe-if _ (id == 0) _ _
      (Safe-bind _ (SameShape s.own) (own s.own) _ (k s.own v.own)
        λ m _ same. record { own = SameShape-IsMirror s.own m same v.own; window = v.window })
      (in_window-Safe s id s.win.mirror shown k' v v.window)

pub target-IsMirror : (s : Session) → IsSession s → IsMirror (target s)
target-IsMirror s v = by s.win.mirror v.window
  where
    by : (o : Option Mirror) → OpenIsWindow o → IsMirror (elim o [ none ↦ s.own | some m ↦ m ])
    by none w = v.own
    by (some m) w = w.mirror

retarget-IsSession :
    (s : Session) (m : Mirror) → SameShape (target s) m → IsSession s → IsSession (retarget s m)
retarget-IsSession s m e v = by s.win.mirror v.window e
  where
    by :
        (o : Option Mirror)
        → OpenIsWindow o
        → SameShape (elim o [ none ↦ s.own | some x ↦ x ]) m
        → IsSession (retarget_over o s m)
    by none w e = record { own = SameShape-IsMirror s.own m e v.own; window = v.window }
    by (some x) w e = record { own = v.own; window = SameShape-IsWindow x m e w }

set_trades-SameShape : (m : Mirror) (sold : List ItemStack) → SameShape m (set_trades m sold)
unfolding set_trades
set_trades-SameShape m sold = record {
  own = refl;
  cursor = refl;
  result = refl;
  layout = refl;
  tail = refl;
  size = refl;
}

found-IsSession :
    (s : Session) (j count : ℕ) (o : Option (List ItemStack))
    → IsSession s
    → shed s.own.slots j count ≡ o
    → IsSession (dropped s (drop_found s.own j o)).0
found-IsSession s j count none v e = v
found-IsSession s j count (some xs) v e = record {
  own =
      SameShape-IsMirror s.own _
        (slots-SameShape s.own xs
          (ap length (shed-written s.own.slots j count xs e).1 ∙ length-set s.own.slots j _))
        v.own;
  window = v.window;
}

dropped-IsSession :
    (s : Session) (count : ℕ) (o : Option ℕ)
    → IsSession s
    → IsSession (dropped s (drop_mapped s.own count o)).0
unfolding drop_mapped
dropped-IsSession s count none v = v
dropped-IsSession s count (some j) v = found-IsSession s j count (shed s.own.slots j count) v refl

closed-OpenIsWindow :
    (w : WinState) (o : Option Mirror) → w.mirror ≡ o → OpenIsWindow (close_over w o).0.mirror
unfolding close_over
closed-OpenIsWindow w none e = rw e tt
closed-OpenIsWindow w (some m) e = tt

pub new_session-IsSession : IsSession new_session
unfolding new_session
new_session-IsSession = record { own = new_inv_mirror-IsMirror; window = tt }

opening-IsSession :
    (s : Session) (id : ℕ) (title : String) (o : Option MenuWindow) (menu : ℕ)
    → IsSession s
    → find_menu menu_windows menu ≡ o
    → IsSession (opening s id title o).0
unfolding opening open_window
opening-IsSession s id title none menu v e = v
opening-IsSession s id title (some mw) menu v e = record {
  own = v.own;
  window =
      opened-IsWindow s.win id mw.layout mw.ctype (omega (arith, (menu_windows-plain menu mw e).1));
}

answered-Safe :
    (s : Session) (r : Res Work)
    → IsSession s
    → Safe (Applied (target s)) r
    → Safe (λ (s', sent). IsSession s') (answered s r)
answered-Safe s (ok w) v a =
    retarget-IsSession s _ (slots-SameShape (target s) w.slots a.declares.size) v
answered-Safe s refuse v a = v
answered-Safe s panic v a = a

by_count :
    (b : Bool) (x y : Session × List Sent)
    → IsSession x.0
    → IsSession y.0
    → IsSession (if b then x else y).0
by_count true x y p q = p
by_count false x y p q = q

module _ (t : Tables) (listing : List ℕ) (renumber : ℕ → ℕ) where
  -- No frame or packet of a fitting size makes the gateway index out of range, and each keeps both mirrors in shape.
  pub step-Safe :
      (s : Session) (e : Event)
      → IsSession s
      → IsSized e
      → Safe (λ (s', sent). IsSession s') (step t listing renumber s e)
  unfolding step
  step-Safe s (window_open id menu title) v z =
      opening-IsSession s id title (find_menu menu_windows menu) menu v refl
  step-Safe s (horse_screen id columns llama) v z = record {
    own = v.own;
    window =
        opened-IsWindow s.win id (horse_layout columns llama) WindowType.horse
          (omega (arith, length-horse_layout columns llama z));
  }
  step-Safe s (window_items id slots held) v z =
      in_either-Safe s id _ _ (write_all-Writes slots held)
        (λ m w. write_all-Writes slots held m w.mirror) v
  step-Safe s (window_slot id slot item) v z =
      in_either-Safe s id _ _ (set_slot-Writes slot item) (λ m w. set_and_show-Safe slot item m z w)
        v
  step-Safe s (window_property id prop value counter) v z =
      in_window-Safe s id s.win.mirror _
        (λ m _. window_data-Safe renumber counter m s.win.ctype prop value z) v v.window
  step-Safe s (trades id results) v z =
      on_window-IsSession s id _ (λ m _. set_trades-SameShape m results) v
  step-Safe s (cursor_item item) v z =
      Safe-bind _ (SameShape (target s)) (set_cursor (target s) item) _
        (set_cursor-Writes item (target s) (target-IsMirror s v))
        λ m _ same. retarget-IsSession s m same v
  step-Safe s (window_close_server id) v z = record {
    own = v.own;
    window = closed-OpenIsWindow s.win s.win.mirror refl;
  }
  step-Safe s (recipe_book b) v z = record { own = v.own; window = v.window }
  step-Safe s (stack_request req) v z =
      answered-Safe s (apply_request (target s) t listing (some s.recipes) req) v
        (apply_request-Applied (target s) t listing (some s.recipes) req (target-IsMirror s v))
  step-Safe s container_close v z = record {
    own = v.own;
    window = closed-OpenIsWindow s.win s.win.mirror refl;
  }
  step-Safe s (drop_key slot count) v z =
      by_count (lt_i32 0 count) _ _
        (dropped-IsSession s count (map_in s.own Container.inventory slot) v) v
  step-Safe s (use_block x y z') v z = record { own = v.own; window = v.window }
  step-Safe s (use_entity id) v z = record { own = v.own; window = v.window }
