-- ===== src/Skulls/Cache.antt =====
-- internal/gw/skulls.go: skullCache and its methods. Each holds the cache's lock throughout, and is a step on its
-- state; a fetch that ends is a step of its own.
use tachyne_gw_bedrock.Prelude.{
  ℕ, suc, ◌+◌, ◌^◌, Bool, true, false, not, List, [], ◌∷◌, Option, none, some, ◌&&◌, ◌||◌,
  if◌then◌else◌, ◌==◌,
}
use Prim.Native.String.{String}
use text.Mathlib.Text.{◌==◌ as str_eq}

pub record Pos : Type 0 where
  pub x : ℕ
  pub y : ℕ
  pub z : ℕ

abbrev pub same_pos : Pos → Pos → Bool
same_pos p q = p.x == q.x && (p.y == q.y && p.z == q.z)

-- skull; `id` 0 is none.
pub record Skull : Type 0 where
  pub pos : Pos
  pub state : ℕ
  pub url : String
  pub id : ℕ
  pub uid : ℕ
  pub dist2 : ℕ

-- The packets that c.send takes, and the goroutine that fetches a skin. Where a fake player stands is computed from
-- the head's position and state alone (skullPosition).
pub data Effect : Type 0 where
  add_player : ℕ → ℕ → Pos → ℕ → Effect
  remove_actor : ℕ → Effect
  move_player : ℕ → Pos → ℕ → Effect
  set_visible : ℕ → Bool → Effect
  list_add : ℕ → ℕ → String → List ℕ → Effect
  list_remove : ℕ → Effect
  fetch_skin : String → Effect

-- skullCache. `sent` is all that was sent, the newest first; `at` is where the player was at the last visibility pass,
-- and none is the code's !placed.
pub record Cache {ℓ} (At : Type ℓ) : Type ℓ where
  pub sent : List Effect
  pub can_fetch : Bool
  pub skulls : List Skull
  pub heads : List (Pos × ℕ)
  pub skins : List (String × List ℕ)
  pub pending : List String
  pub next_id : ℕ
  pub at : Option At

abbrev pub skull_entity_base : ℕ
skull_entity_base = 2 ^ 40 + 0x7ff00000

abbrev pub max_visible_skulls : ℕ
max_visible_skulls = 128

-- The maps keyed by position and by URL.
unfoldable pub set_head : Pos → ℕ → List (Pos × ℕ) → List (Pos × ℕ)
set_head p state [] = (p, state) ∷ []
set_head p state ((q, old) ∷ heads) =
    if same_pos p q then (q, state) ∷ heads else (q, old) ∷ set_head p state heads

unfoldable pub drop_head : Pos → List (Pos × ℕ) → List (Pos × ℕ)
drop_head p [] = []
drop_head p ((q, old) ∷ heads) = if same_pos p q then heads else (q, old) ∷ drop_head p heads

unfoldable pub find_head : Pos → List (Pos × ℕ) → Option ℕ
find_head p [] = none
find_head p ((q, state) ∷ heads) = if same_pos p q then some state else find_head p heads

unfoldable pub find_skin : String → List (String × List ℕ) → Option (List ℕ)
find_skin url [] = none
find_skin url ((u, rgba) ∷ skins) = if str_eq url u then some rgba else find_skin url skins

unfoldable pub set_skin : String → List ℕ → List (String × List ℕ) → List (String × List ℕ)
set_skin url rgba [] = (url, rgba) ∷ []
set_skin url rgba ((u, old) ∷ skins) =
    if str_eq url u then (u, rgba) ∷ skins else (u, old) ∷ set_skin url rgba skins

unfoldable pub is_pending : String → List String → Bool
is_pending url [] = false
is_pending url (u ∷ us) = str_eq url u || is_pending url us

unfoldable pub drop_pending : String → List String → List String
drop_pending url [] = []
drop_pending url (u ∷ us) = if str_eq url u then us else u ∷ drop_pending url us

-- newSkullCache
unfoldable pub new_cache {ℓ} : {At : Type ℓ} → Bool → Cache At
new_cache can_fetch = record {
  sent = [];
  can_fetch = can_fetch;
  skulls = [];
  heads = [];
  skins = [];
  pending = [];
  next_id = skull_entity_base;
  at = none;
}

-- uuid.New is the source of UUIDs, drawn once for each entity id.
module _ {ℓ} {At : Type ℓ} (new_uuid : ℕ → ℕ) where
  abbrev pub send : Effect → Cache At → Cache At
  send e c = record c { sent = e ∷ c.sent }

  unfoldable pub apply_skin : Skull → List ℕ → Cache At → Cache At
  apply_skin s rgba c =
      send (set_visible s.id true)
        (send (list_remove s.uid) (send (list_add s.uid s.id s.url rgba) c))

  unfoldable pub dress_with : Option (List ℕ) → Skull → Cache At → Cache At
  unfolding apply_skin
  dress_with (some rgba) s c = apply_skin s rgba c
  dress_with none s c =
      if not c.can_fetch || is_pending s.url c.pending
      then c
      else record c { pending = s.url ∷ c.pending; sent = fetch_skin s.url ∷ c.sent }

  unfoldable pub dress : Skull → Cache At → Cache At
  unfolding dress_with
  dress s c = dress_with (find_skin s.url c.skins) s c

  -- A method that changes a skull returns it with the cache.
  unfoldable pub spawn : Skull → Cache At → Skull × Cache At
  unfolding dress
  spawn s c =
      let fresh = suc c.next_id in
      let s' = record s { id = fresh; uid = new_uuid fresh } in
      let c' = record c {
        next_id = fresh;
        sent = add_player s'.uid fresh s.pos s.state ∷ c.sent;
      } in
      if s.id == 0 then (s', dress s' c') else (s, c)

  unfoldable pub free : Skull → Cache At → Skull × Cache At
  free s c = if s.id == 0 then (s, c) else (record s { id = 0 }, send (remove_actor s.id) c)

  unfoldable pub place : Skull → Cache At → Cache At
  place s c = send (move_player s.id s.pos s.state) c
