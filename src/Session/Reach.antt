-- ===== src/Session/Reach.antt =====
-- internal/gw/session.go: the states that a session can come to, whatever frames and packets come
-- in whatever order.
use tachyne_gw_bedrock.Prelude.{
  ℕ, ◌≡◌, ◌≢◌, refl, ap, ◌∙◌, sym, List, [], ◌∷◌, some, none, Option, arith, false, true, ◌+◌, ◌<◌,
  ◌≤◌, ◌^◌, length, lt_i32, ltb, leb, ◌&&◌, ◌==◌, panic, ok, Safe-at,
}
use tachyne_gw_bedrock.Protocol.{Request}
use tachyne_gw_bedrock.Item.{ItemStack}
use tachyne_gw_bedrock.Mirror.{Mirror, set_slot, tail_slot}
use tachyne_gw_bedrock.Shows.{send_window_slot}
use tachyne_gw_bedrock.Moves.{WindowClick}
use tachyne_gw_bedrock.Requests.Steps.{Work, elem}
use tachyne_gw_bedrock.Requests.Clicks.{click_for, read_click, OnStorage}
use tachyne_gw_bedrock.Requests.Crafts.{Tables}
use tachyne_gw_bedrock.Requests.Apply.{kind_of, moves, apply_request}
use tachyne_gw_bedrock.Requests.Apply.Laws.{read_click-apply_request, moves-steps}
use tachyne_gw_bedrock.Windows.{close_over, close_window}
use tachyne_gw_bedrock.Session.{
  Session, new_session, Event, window_slot, stack_request, window_close_server, Sent, world_click,
  target, retarget, retarget_over, sent_over, answered, step,
}
use tachyne_gw_bedrock.Session.Invariant.{
  IsSession, IsSized, new_session-IsSession, step-Safe, target-IsMirror,
}

retarget_over-target :
    (s : Session) (m : Mirror) (o : Option Mirror)
    → s.win.mirror ≡ o
    → target (retarget_over o s m) ≡ m
retarget_over-target s m none e = rw e refl
retarget_over-target s m (some x) e = refl

module _ (t : Tables) (listing : List ℕ) (renumber : ℕ → ℕ) where
  -- The states that a session can come to.
  pub data Reached : Session → Type 0 where
    start : Reached new_session
    next :
        {s s' : Session} (e : Event) (sent : List Sent)
        → Reached s
        → IsSized e
        → step t listing renumber s e ≡ ok (s', sent)
        → Reached s'

  Reached-IsSession : {s : Session} → Reached s → IsSession s
  Reached-IsSession start = new_session-IsSession
  Reached-IsSession (next {s} e sent r z q) =
      Safe-at _ (step t listing renumber s e) _
        (step-Safe t listing renumber s e (Reached-IsSession r) z) q

  -- In every state that a session can come to, an accepted request that crafts nothing and touches no result slot sends
  -- the world one click and nothing else; the click names the open window, or else the player's, and a slot that is not
  -- its result, and read as the world reads it, turns what that window held into what its mirror then holds. Where the
  -- result is slot 0, as in the player's window, some touched slot is not the cursor.
  pub reached-read_click :
      (s : Session) (req : Request) (w : Work)
      → Reached s
      → kind_of req.actions ≡ moves
      → apply_request (target s) t listing (some s.recipes) req ≡ ok w
      → elem (target s).result w.touched ≡ false
      → OnStorage (target s) w.touched
      → (s' : Session) × (click : WindowClick) × (step t listing renumber s (stack_request req)
          ≡ ok (s', world_click click ∷ []))
        × (read_click (target s) click ≡ some (target s').slots)
  unfolding step
  reached-read_click s req w r k e apart stored = (
    retarget s m',
    click_for m' w.touched,
    ap (answered s) e
        ∙ ap (λ steps. ok (retarget s m', sent_over (target s) w steps))
            (moves-steps (target s) t listing (some s.recipes) req w k e),
    read_click-apply_request (target s) t listing (some s.recipes) req w w.touched
          (target-IsMirror s (Reached-IsSession r)) k e (λ j h. h) apart stored
        ∙ ap (λ (m : Mirror). some m.slots) (sym (retarget_over-target s m' s.win.mirror refl)),
  )
    where
      m' : Mirror
      m' = record (target s) { slots = w.slots }

-- A close of the world's for another window than the open one closes the open one all the same, and
-- the client is not told: it keeps its screen, and its requests go to the player's own mirror.
pub stale_close :
    (t : Tables) (listing : List ℕ) (renumber : ℕ → ℕ) (s : Session) (m : Mirror) (id : ℕ)
    → s.win.mirror ≡ some m
    → m.window ≢ id
    → (s' : Session) × (step t listing renumber s (window_close_server id) ≡ ok (s', []))
      × (target s' ≡ s.own)
unfolding step close_window close_over
stale_close t listing renumber s m id e n =
    (record s { win = record s.win { mirror = none } }, rw e (ground arith), refl)

-- A slot of the open window that the world sets with a negative number makes the gateway index out of range: set passes over
-- it, but sendWindowSlot does not.
pub negative_slot :
    (t : Tables) (listing : List ℕ) (renumber : ℕ → ℕ) (s : Session) (m : Mirror) (slot : ℕ)
    (item : ItemStack)
    → s.win.mirror ≡ some m
    → m.window ≢ 0
    → length m.layout + 36 + length m.tail < 2 ^ 31
    → 2 ^ 31 ≤ slot
    → slot < 2 ^ 32
    → step t listing renumber s (window_slot m.window slot item) ≡ panic
unfolding step set_slot send_window_slot tail_slot
negative_slot t listing renumber s m slot item e own small neg word =
    let named : (m.window == 0) ≡ false = ground (arith, own) in
    let same : (m.window == m.window) ≡ true = ground arith in
    let below : lt_i32 slot 0 ≡ true = ground arith in
    let no_tail : leb (length m.layout + 36) slot && ltb slot (length m.layout + 36 + length m.tail)
        ≡ false =
      ground arith in
    let outside : ltb slot (length m.layout) ≡ false = ground arith in
    rw (named, e, same, below, no_tail, outside, below) refl
