-- ===== src/Skulls/Visible.antt =====
-- internal/gw/skulls.go: cullLocked, which gives the nearest heads their fake players.
use tachyne_gw_bedrock.Prelude.{
  ℕ, zero, suc, List, [], ◌∷◌, ◌++◌, Option, none, some, if◌then◌else◌, ltb, leb,
}
use tachyne_gw_bedrock.Skulls.Cache.{Pos, Skull, Cache, drop_head, spawn, free, max_visible_skulls}

-- What the first loop does with a head.
pub data Seen : Type 0 where
  forgotten : Seen
  far near : Skull → Seen

-- The heads in range, and the rest of those that stay in the cache.
pub record Sifted : Type 0 where
  pub near_heads : List Skull
  pub far_heads : List Skull

unfoldable pub keep_seen : Seen → Sifted → Sifted
keep_seen forgotten r = r
keep_seen (far s) r = record r { far_heads = s ∷ r.far_heads }
keep_seen (near s) r = record r { near_heads = s ∷ r.near_heads }

-- sort.Slice by distance; heads at one distance may come in any order, and here come in the order of the map's walk.
unfoldable pub insert_by_distance : Skull → List Skull → List Skull
insert_by_distance s [] = s ∷ []
insert_by_distance s (t ∷ ts) =
    if leb s.dist2 t.dist2 then s ∷ t ∷ ts else t ∷ insert_by_distance s ts

unfoldable pub sort_by_distance : List Skull → List Skull
unfolding insert_by_distance
sort_by_distance [] = []
sort_by_distance (s ∷ ss) = insert_by_distance s (sort_by_distance ss)

module _ {ℓ} {At : Type ℓ} (new_uuid : ℕ → ℕ) where
  -- The second loop, with the number of fake players that are left to give.
  unfoldable pub show_nearest : ℕ → List Skull → Cache At → List Skull × Cache At
  unfolding spawn free
  show_nearest room [] c = ([], c)
  show_nearest zero (s ∷ ss) c =
      let (s', c') = free new_uuid s c in
      let (rest, c'') = show_nearest zero ss c' in (s' ∷ rest, c'')
  show_nearest (suc room) (s ∷ ss) c =
      let (s', c') = spawn new_uuid s c in
      let (rest, c'') = show_nearest room ss c' in (s' ∷ rest, c'')

-- The squared distances are float64 that are not negative; such floats compare as their bit patterns do, which are
-- the numbers here. The limits are skullForgetDistance and skullRenderDistance squared.
module _ {ℓ} {At : Type ℓ} (new_uuid : ℕ → ℕ) (dist2 : At → Pos → ℕ)
    (forget_limit render_limit : ℕ) where
  unfoldable pub look : At → Skull → Cache At → Seen × Cache At
  unfolding free drop_head
  look at s c =
      let s' = record s { dist2 = dist2 at s.pos } in
      let gone = (free new_uuid s' c).1 in
      if ltb forget_limit s'.dist2
      then (forgotten, record gone { heads = drop_head s.pos gone.heads })
      else if ltb render_limit s'.dist2
      then (far (free new_uuid s' c).0, gone)
      else (near s', c)

  unfoldable pub sift : At → List Skull → Cache At → Sifted × Cache At
  unfolding look keep_seen
  sift at [] c = (record { near_heads = []; far_heads = [] }, c)
  sift at (s ∷ ss) c =
      let (seen, c') = look at s c in let (rest, c'') = sift at ss c' in (keep_seen seen rest, c'')

  unfoldable pub cull_at : Option At → Cache At → Cache At
  unfolding sift sort_by_distance show_nearest
  cull_at none c = c
  cull_at (some at) c =
      let (sifted, c') = sift at c.skulls c in
      let (shown, c'') =
        show_nearest new_uuid max_visible_skulls (sort_by_distance sifted.near_heads) c' in
      record c'' { skulls = shown ++ sifted.far_heads }

  unfoldable pub cull : Cache At → Cache At
  unfolding cull_at
  cull c = cull_at c.at c
