-- ===== src/Skulls/Range.antt =====
-- Which heads cullLocked keeps, and their distances (internal/gw/skulls.go).
use tachyne_gw_bedrock.Prelude.{
  ℕ, zero, suc, ◌<◌, ◌≤◌, ◌≡◌, ◌⊎◌, inl, inr, refl, ◌∙◌, List, [], ◌∷◌, ◌++◌, some, ltb, leb,
  Bool-cases, arith,
}
use tachyne_gw_bedrock.Skulls.Cache.{Pos, Skull, Cache, spawn, free, max_visible_skulls}
use tachyne_gw_bedrock.Skulls.Visible.{
  Seen, forgotten, far, near, Sifted, keep_seen, insert_by_distance, sort_by_distance, show_nearest,
  look, sift, cull_at,
}
use tachyne_gw_bedrock.Skulls.Ranks.{All, All-map, All-append, sort-All, free-dist2, spawn-dist2}

-- A head at this place is in the list.
abbrev pub Has : Pos → List Skull → Type 0
Has p [] = ⊥
Has p (s ∷ ss) = (s.pos ≡ p) ⊎ Has p ss

module _ (p : Pos) where
  Has-append_left : (xs ys : List Skull) → Has p xs → Has p (xs ++ ys)
  Has-append_left [] ys h = elim h [ ]
  Has-append_left (x ∷ xs) ys (inl e) = inl e
  Has-append_left (x ∷ xs) ys (inr h) = inr (Has-append_left xs ys h)

  Has-append_right : (xs ys : List Skull) → Has p ys → Has p (xs ++ ys)
  Has-append_right [] ys h = h
  Has-append_right (x ∷ xs) ys h = inr (Has-append_right xs ys h)

  -- A place that is in front, or behind it.
  second :
      (s t : Skull) (ts : List Skull)
      → ((s.pos ≡ p) ⊎ Has p (t ∷ ts))
      → (t.pos ≡ p) ⊎ ((s.pos ≡ p) ⊎ Has p ts)
  second s t ts (inl e) = inr (inl e)
  second s t ts (inr (inl e)) = inl e
  second s t ts (inr (inr h)) = inr (inr h)

  insert-Has :
      (s : Skull) (ts : List Skull) → ((s.pos ≡ p) ⊎ Has p ts) → Has p (insert_by_distance s ts)
  unfolding insert_by_distance
  insert-Has s [] h = h
  insert-Has s (t ∷ ts) h = elim (Bool-cases (leb s.dist2 t.dist2)) [
    | inl q ↦ rw q h
    | inr q ↦ rw q (elim (second s t ts h) [ inl e ↦ inl e | inr k ↦ inr (insert-Has s ts k) ])
  ]

  sort-Has : (ss : List Skull) → Has p ss → Has p (sort_by_distance ss)
  unfolding sort_by_distance
  sort-Has [] h = elim h [ ]
  sort-Has (s ∷ ss) (inl e) = insert-Has s (sort_by_distance ss) (inl e)
  sort-Has (s ∷ ss) (inr h) = insert-Has s (sort_by_distance ss) (inr (sort-Has ss h))

module _ {ℓ} {At : Type ℓ} (new_uuid : ℕ → ℕ) where
  free-pos : (s : Skull) (c : Cache At) → (free new_uuid s c).0.pos ≡ s.pos
  unfolding free
  free-pos s c = ground arith

  spawn-pos : (s : Skull) (c : Cache At) → (spawn new_uuid s c).0.pos ≡ s.pos
  unfolding spawn
  spawn-pos s c = ground arith

  show_nearest-Has :
      (p : Pos) (room : ℕ) (ss : List Skull) (c : Cache At)
      → Has p ss
      → Has p (show_nearest new_uuid room ss c).0
  unfolding show_nearest
  show_nearest-Has p zero [] c h = elim h [ ]
  show_nearest-Has p (suc room) [] c h = elim h [ ]
  show_nearest-Has p zero (s ∷ ss) c (inl e) = inl (free-pos s c ∙ e)
  show_nearest-Has p zero (s ∷ ss) c (inr h) =
      inr (show_nearest-Has p zero ss (free new_uuid s c).1 h)
  show_nearest-Has p (suc room) (s ∷ ss) c (inl e) = inl (spawn-pos s c ∙ e)
  show_nearest-Has p (suc room) (s ∷ ss) c (inr h) =
      inr (show_nearest-Has p room ss (spawn new_uuid s c).1 h)

module _ {ℓ} {At : Type ℓ} (new_uuid : ℕ → ℕ) (dist2 : At → Pos → ℕ)
    (forget_limit render_limit : ℕ) where
  -- A head has the distance of its place, which is not past the limit of the cache.
  abbrev pub Measured : At → Skull → Type 0
  Measured at s = (s.dist2 ≡ dist2 at s.pos) × (s.dist2 ≤ forget_limit)

  show_nearest-Measured :
      (at : At) (room : ℕ) (ss : List Skull) (c : Cache At)
      → All (Measured at) ss
      → All (Measured at) (show_nearest new_uuid room ss c).0
  unfolding show_nearest
  show_nearest-Measured at room [] c a = tt
  show_nearest-Measured at zero (s ∷ ss) c a = (
    same_measure (free new_uuid s c).0 s (free-pos new_uuid s c) (free-dist2 new_uuid s c) a.0,
    show_nearest-Measured at zero ss (free new_uuid s c).1 a.1,
  )
    where
      same_measure :
          (x y : Skull) → x.pos ≡ y.pos → x.dist2 ≡ y.dist2 → Measured at y → Measured at x
      same_measure x y e d m = rw (e, d) m
  show_nearest-Measured at (suc room) (s ∷ ss) c a = (
    rw (spawn-pos new_uuid s c, spawn-dist2 new_uuid s c) a.0,
    show_nearest-Measured at room ss (spawn new_uuid s c).1 a.1,
  )

  abbrev SeenWell : At → Skull → Seen → Type 0
  SeenWell at s forgotten = forget_limit < dist2 at s.pos
  SeenWell at s (far t) = Measured at t × (t.pos ≡ s.pos)
  SeenWell at s (near t) = Measured at t × (t.pos ≡ s.pos)

  look-SeenWell :
      (at : At) (s : Skull) (c : Cache At)
      → SeenWell at s (look new_uuid dist2 forget_limit render_limit at s c).0
  unfolding look
  look-SeenWell at s c =
      let s' : Skull = record s { dist2 = dist2 at s.pos } in
      elim (Bool-cases (ltb forget_limit (dist2 at s.pos))) [
        | inl h ↦ rw h (ground arith)
        | inr h ↦ rw h (elim (Bool-cases (ltb render_limit (dist2 at s.pos))) [
          | inl q ↦
              rw q
                (rw (free-pos new_uuid s' c, free-dist2 new_uuid s' c) ((refl, ground arith), refl))
          | inr q ↦ rw q ((refl, ground arith), refl)
        ])
      ]

  -- Past the limit, or still there.
  abbrev pub KeptIn : At → List Skull → Skull → Type 0
  KeptIn at after s = (forget_limit < dist2 at s.pos) ⊎ Has s.pos after

  sift-Measured :
      (at : At) (ss : List Skull) (c : Cache At)
      → All (Measured at) (sift new_uuid dist2 forget_limit render_limit at ss c).0.near_heads
        × All (Measured at) (sift new_uuid dist2 forget_limit render_limit at ss c).0.far_heads
  unfolding sift keep_seen
  sift-Measured at [] c = (tt, tt)
  sift-Measured at (s ∷ ss) c =
      let (seen, c') = look new_uuid dist2 forget_limit render_limit at s c in
      keep seen (sift new_uuid dist2 forget_limit render_limit at ss c').0 (look-SeenWell at s c)
        (sift-Measured at ss c')
    where
      keep :
          (seen : Seen) (r : Sifted)
          → SeenWell at s seen
          → All (Measured at) r.near_heads × All (Measured at) r.far_heads
          → All (Measured at) (keep_seen seen r).near_heads
            × All (Measured at) (keep_seen seen r).far_heads
      keep forgotten r w a = a
      keep (far t) r w a = (a.0, (w.0, a.1))
      keep (near t) r w a = ((w.0, a.0), a.1)

  -- The heads that were sifted are past the limit, or near or far.
  abbrev SiftedAll : At → Sifted → List Skull → Type 0
  SiftedAll at r ss =
      All (λ s. (forget_limit < dist2 at s.pos) ⊎ (Has s.pos r.near_heads ⊎ Has s.pos r.far_heads))
        ss

  more_seen :
      (at : At) (seen : Seen) (r : Sifted) (ss : List Skull)
      → SiftedAll at r ss
      → SiftedAll at (keep_seen seen r) ss
  unfolding keep_seen
  more_seen at forgotten r ss a = a
  more_seen at (far t) r ss a =
      All-map _ _ ss
        (λ s k. elim k [
          | inl f ↦ inl f
          | inr h ↦ inr (elim h [ inl n ↦ inl n | inr g ↦ inr (inr g) ])
        ])
        a
  more_seen at (near t) r ss a =
      All-map _ _ ss
        (λ s k. elim k [
          | inl f ↦ inl f
          | inr h ↦ inr (elim h [ inl n ↦ inl (inr n) | inr g ↦ inr g ])
        ])
        a

  seen_kept :
      (at : At) (s : Skull) (seen : Seen) (r : Sifted)
      → SeenWell at s seen
      → (forget_limit < dist2 at s.pos)
        ⊎ (Has s.pos (keep_seen seen r).near_heads ⊎ Has s.pos (keep_seen seen r).far_heads)
  unfolding keep_seen
  seen_kept at s forgotten r w = inl w
  seen_kept at s (far t) r w = inr (inr (inl w.1))
  seen_kept at s (near t) r w = inr (inl (inl w.1))

  sift-SiftedAll :
      (at : At) (ss : List Skull) (c : Cache At)
      → SiftedAll at (sift new_uuid dist2 forget_limit render_limit at ss c).0 ss
  unfolding sift
  sift-SiftedAll at [] c = tt
  sift-SiftedAll at (s ∷ ss) c =
      let (seen, c') = look new_uuid dist2 forget_limit render_limit at s c in
      let r = (sift new_uuid dist2 forget_limit render_limit at ss c').0 in
      (
        seen_kept at s seen r (look-SeenWell at s c),
        more_seen at seen r ss (sift-SiftedAll at ss c'),
      )

  -- After a pass each head has the distance of its place to the player, no head that stays is past the limit of the
  -- cache, and each that was there is past it or stays.
  pub cull_at-KeptIn :
      (at : At) (c : Cache At)
      → let after = (cull_at new_uuid dist2 forget_limit render_limit (some at) c).skulls in
        All (Measured at) after × All (KeptIn at after) c.skulls
  unfolding cull_at
  cull_at-KeptIn at c =
      let (r, c') = sift new_uuid dist2 forget_limit render_limit at c.skulls c in
      let sorted = sort_by_distance r.near_heads in
      let shown = (show_nearest new_uuid max_visible_skulls sorted c').0 in
      let measured = sift-Measured at c.skulls c in
      (
        All-append (Measured at) shown r.far_heads
            (show_nearest-Measured at max_visible_skulls sorted c'
              (sort-All (Measured at) r.near_heads measured.0))
            measured.1,
        All-map _ _ c.skulls
            (λ s k. elim k [
              | inl f ↦ inl f
              | inr h ↦ inr (elim h [
                | inl n ↦ Has-append_left s.pos shown r.far_heads (
                    show_nearest-Has new_uuid s.pos max_visible_skulls sorted c'
                      (sort-Has s.pos r.near_heads n))
                | inr g ↦ Has-append_right s.pos shown r.far_heads g
              ])
            ])
            (sift-SiftedAll at c.skulls c),
      )
