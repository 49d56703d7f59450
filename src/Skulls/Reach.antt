-- ===== src/Skulls/Reach.antt =====
-- The states that a session's head cache can come to (internal/gw/skulls.go, and its calls in session.go).
use tachyne_gw_bedrock.Prelude.{ℕ, ◌<◌, ◌≤◌, ◌≡◌, Bool, List, Option, refl, arith}
use Prim.Native.String.{String}
use tachyne_gw_bedrock.Skulls.Cache.{Pos, Cache, new_cache, max_visible_skulls}
use tachyne_gw_bedrock.Skulls.Steps
use tachyne_gw_bedrock.Skulls.Steps.{Outside, Display}
use tachyne_gw_bedrock.Skulls.Players.{players, wearing}
use tachyne_gw_bedrock.Skulls.Heads.{worn, Worn}
use tachyne_gw_bedrock.Skulls.Kept.{
  put-Worn, display-Worn, block_set-Worn, moved-Worn, clear-Worn, fetched-Worn,
}

module _ {At P : Type 0} (w : Outside At P) where
  -- What the session does with the cache.
  pub data Step : Cache At → Cache At → Type 0 where
    put :
        (c : Cache At) (pos : Pos) (state : ℕ) (url : String) → Step c (Steps.put w pos state url c)
    display : (c : Cache At) (e : Display P) → Step c (Steps.display w e c)
    block_set : (c : Cache At) (pos : Pos) (state : ℕ) → Step c (Steps.block_set w pos state c)
    moved : (c : Cache At) (p : At) → Step c (Steps.moved w p c)
    clear : (c : Cache At) → Step c (Steps.clear w c)
    fetched : (c : Cache At) (url : String) (o : Option (List ℕ)) → Step c (Steps.fetched w url o c)

  pub data Reached : Cache At → Type 0 where
    start : (can_fetch : Bool) → Reached (new_cache can_fetch)
    next : {c c' : Cache At} → Reached c → Step c c' → Reached c'

  new_cache-Worn : (can_fetch : Bool) → Worn {At = At} (new_cache can_fetch)
  unfolding new_cache players wearing worn
  new_cache-Worn can_fetch = record {
    shown = record { agrees = λ id p. refl; unused = λ id p. refl };
    few = omega arith;
  }

  Step-Worn : {c c' : Cache At} → Step c c' → Worn c → Worn c'
  Step-Worn (put c pos state url) a = put-Worn w pos state url c a
  Step-Worn (display c e) a = display-Worn w e c a
  Step-Worn (block_set c pos state) a = block_set-Worn w pos state c a
  Step-Worn (moved c p) a = moved-Worn w p c a
  Step-Worn (clear c) a = clear-Worn w c a
  Step-Worn (fetched c url o) a = fetched-Worn w url o c a

  Reached-Worn : {c : Cache At} → Reached c → Worn c
  Reached-Worn (start can_fetch) = new_cache-Worn can_fetch
  Reached-Worn (next r s) = Step-Worn s (Reached-Worn r)

  -- In every state that the cache can come to, the client has a fake player under an id when, and only when, exactly one head of the
  -- cache wears it: none is left behind and none is worn twice; at most 128 heads wear one.
  pub reached-players :
      (c : Cache At)
      → Reached c
      → ((id : ℕ) → 0 < id → wearing id c.skulls ≡ players id c.sent)
        × (worn c.skulls ≤ max_visible_skulls)
  reached-players c r = let a = Reached-Worn r in (a.shown.agrees, a.few)
