-- ===== src/Skulls/Steps.antt =====
-- internal/gw/skulls.go: what the world, the player and the fetches do to the cache.
use tachyne_gw_bedrock.Prelude.{
  ℕ, ◌+◌, Bool, false, not, List, [], ◌∷◌, Option, none, some, ◌&&◌, if◌then◌else◌, leb, ◌==◌,
  length,
}
use Prim.Native.String.{String}
use text.Mathlib.Text.{◌==◌ as str_eq}
use tachyne_gw_bedrock.Skulls.Poses.{Pose, head_pose}
use tachyne_gw_bedrock.Skulls.Cache.{
  Pos, same_pos, Skull, set_visible, Cache, set_head, drop_head, find_head, set_skin, drop_pending,
  send, apply_skin, dress, free, place,
}
use tachyne_gw_bedrock.Skulls.Visible.{cull}

-- c.skulls, keyed by the skulls' own positions.
unfoldable pub find_skull : Pos → List Skull → Option Skull
find_skull p [] = none
find_skull p (s ∷ ss) = if same_pos p s.pos then some s else find_skull p ss

unfoldable pub drop_skull : Pos → List Skull → List Skull
drop_skull p [] = []
drop_skull p (s ∷ ss) = if same_pos p s.pos then ss else s ∷ drop_skull p ss

-- A skull that was found by its position and changed through its pointer.
unfoldable pub store_skull : Skull → List Skull → List Skull
store_skull s [] = []
store_skull s (t ∷ ts) = if same_pos s.pos t.pos then s ∷ ts else t ∷ store_skull s ts

abbrev pub blank_skull : Pos → ℕ → String → Skull
blank_skull pos state url = record {
  pos = pos;
  state = state;
  url = url;
  id = 0;
  uid = 0;
  dist2 = 0;
}

-- attach.BlockDisplay: whether it is a skull's, and the profile that it carries.
pub record Display {ℓ} (P : Type ℓ) : Type ℓ where
  pub is_skull : Bool
  pub pos : Pos
  pub profile : Option P

-- What the methods take from elsewhere: uuid.New, the distance and the test of mgl32's vectors (`close` is
-- LenSqr() < 4), the limits, the first states of the heads in the shared block table, and skinURLFromProfile.
pub record Outside (At P : Type 0) : Type 0 where
  pub new_uuid : ℕ → ℕ
  pub dist2 : At → Pos → ℕ
  pub forget_limit : ℕ
  pub render_limit : ℕ
  pub head_first : ℕ
  pub wall_head_first : ℕ
  pub close : At → At → Bool
  pub skin_url : P → String

module _ {At P : Type 0} (w : Outside At P) where
  abbrev pub culled : Cache At → Cache At
  culled = cull w.new_uuid w.dist2 w.forget_limit w.render_limit

  unfoldable pub remove_found : Option Skull → Pos → Cache At → Cache At
  unfolding free drop_skull
  remove_found none pos c = c
  remove_found (some s) pos c =
      let c' = (free w.new_uuid s c).1 in culled (record c' { skulls = drop_skull pos c'.skulls })

  unfoldable pub remove : Pos → Cache At → Cache At
  unfolding remove_found find_skull
  remove pos c = remove_found (find_skull pos c.skulls) pos c

  -- put, from the lookup on.
  unfoldable pub put_found : Option Skull → Pos → ℕ → String → Cache At → Cache At
  unfolding store_skull dress place
  put_found none pos state url c =
      culled (record c { skulls = blank_skull pos state url ∷ c.skulls })
  put_found (some s) pos state url c =
      let s' = record s { state = state; url = url } in
      let c' = record c { skulls = store_skull s' c.skulls } in
      let redressed =
        if str_eq s.url url
        then c'
        else dress w.new_uuid s' (send w.new_uuid (set_visible s.id false) c') in
      if s.id == 0 then culled c' else place w.new_uuid s' redressed

  unfoldable pub put : Pos → ℕ → String → Cache At → Cache At
  unfolding remove put_found find_skull set_head
  put pos state url c =
      let c' = record c { heads = set_head pos state c.heads } in
      if str_eq url "" then remove pos c' else put_found (find_skull pos c'.skulls) pos state url c'

  abbrev or_default : Option ℕ → ℕ
  or_default none = w.head_first + 16
  or_default (some state) = state

  abbrev url_of : Option P → String
  url_of none = ""
  url_of (some profile) = w.skin_url profile

  unfoldable pub display : Display P → Cache At → Cache At
  unfolding put find_head
  display e c =
      if e.is_skull
      then put e.pos (or_default (find_head e.pos c.heads)) (url_of e.profile) c
      else c

  -- blockSet, from the lookup on.
  unfoldable pub turn_found : Option Skull → ℕ → Cache At → Cache At
  unfolding store_skull place
  turn_found none state c = c
  turn_found (some s) state c =
      let s' = record s { state = state } in
      let c' = record c { skulls = store_skull s' c.skulls } in
      if s.state == state then c else if s.id == 0 then c' else place w.new_uuid s' c'

  unfoldable pub block_set_as : Option Pose → Pos → ℕ → Cache At → Cache At
  unfolding turn_found remove find_skull set_head drop_head
  block_set_as none pos state c = remove pos (record c { heads = drop_head pos c.heads })
  block_set_as (some pose) pos state c =
      let c' = record c { heads = set_head pos state c.heads } in
      turn_found (find_skull pos c'.skulls) state c'

  unfoldable pub block_set : Pos → ℕ → Cache At → Cache At
  unfolding block_set_as head_pose
  block_set pos state c = block_set_as (head_pose w.head_first w.wall_head_first state) pos state c

  -- Whether the player is less than two blocks from where the last pass was.
  abbrev pub still_near : Option At → At → Bool
  still_near none p = false
  still_near (some at) p = w.close p at

  unfoldable pub moved : At → Cache At → Cache At
  moved p c = if still_near c.at p then c else culled (record c { at = some p })

  unfoldable pub free_all : List Skull → Cache At → Cache At
  unfolding free
  free_all [] c = c
  free_all (s ∷ ss) c = free_all ss (free w.new_uuid s c).1

  unfoldable pub clear : Cache At → Cache At
  unfolding free_all
  clear c = let c' = free_all c.skulls c in record c' { skulls = []; heads = [] }

  unfoldable pub dress_all : String → List ℕ → List Skull → Cache At → Cache At
  unfolding apply_skin
  dress_all url rgba [] c = c
  dress_all url rgba (s ∷ ss) c =
      dress_all url rgba ss
        (if str_eq s.url url && not (s.id == 0) then apply_skin w.new_uuid s rgba c else c)

  -- fetchSkin, once the fetch has ended; none is an error.
  unfoldable pub fetched : String → Option (List ℕ) → Cache At → Cache At
  unfolding dress_all set_skin drop_pending
  fetched url none c = record c { pending = drop_pending url c.pending }
  fetched url (some rgba) c =
      let skins = if leb 256 (length c.skins) then [] else c.skins in
      let c' = record c { pending = drop_pending url c.pending; skins = set_skin url rgba skins } in
      dress_all url rgba c'.skulls c'
