-- ===== src/Skulls/Nearest.antt =====
-- Which heads cullLocked gives fake players (internal/gw/skulls.go).
use tachyne_gw_bedrock.Prelude.{
  ℕ, ◌<◌, ◌≤◌, ◌≡◌, ◌≢◌, ◌⊎◌, inl, inr, ap, subst, sym, ◌∙◌, List, [], ◌∷◌, ◌++◌, none, some, ltb,
  Bool-cases, arith, length,
}
use mathlib.Core.List.{append_assoc}
use tachyne_gw_bedrock.Skulls.Cache.{Pos, Skull, Cache, max_visible_skulls}
use tachyne_gw_bedrock.Skulls.Visible.{
  Seen, forgotten, far, near, Sifted, keep_seen, sort_by_distance, look, sift, cull_at, cull,
}
use tachyne_gw_bedrock.Skulls.Ranks.{
  All-append_left, All, All-append, All-map, All-both, sort-All, sort-Sorted, free-id, free-dist2,
  show_nearest-All, show_nearest-Ranked,
}
use tachyne_gw_bedrock.Skulls.Range.{Measured, KeptIn, cull_at-KeptIn}

-- What the first loop makes of the heads, by the limits.
module _ {ℓ} {At : Type ℓ} (new_uuid : ℕ → ℕ) (dist2 : At → Pos → ℕ)
    (forget_limit render_limit : ℕ) where
  abbrev SortedOut : Sifted → Type 0
  SortedOut r =
      All (λ s. s.dist2 ≤ render_limit) r.near_heads
      × All (λ s. (s.id ≡ 0) × (render_limit < s.dist2)) r.far_heads

  abbrev SeenRight : Seen → Type 0
  SeenRight forgotten = Unit
  SeenRight (far s) = (s.id ≡ 0) × (render_limit < s.dist2)
  SeenRight (near s) = s.dist2 ≤ render_limit

  keep_seen-SortedOut :
      (seen : Seen) (r : Sifted) → SeenRight seen → SortedOut r → SortedOut (keep_seen seen r)
  unfolding keep_seen
  keep_seen-SortedOut forgotten r p o = o
  keep_seen-SortedOut (far s) r p o = (o.0, (p, o.1))
  keep_seen-SortedOut (near s) r p o = ((p, o.0), o.1)

  look-SeenRight :
      (at : At) (s : Skull) (c : Cache At)
      → SeenRight (look new_uuid dist2 forget_limit render_limit at s c).0
  unfolding look
  look-SeenRight at s c = elim (Bool-cases (ltb forget_limit (dist2 at s.pos))) [
    | inl h ↦ rw h tt
    | inr h ↦ rw h (elim (Bool-cases (ltb render_limit (dist2 at s.pos))) [
      | inl q ↦ rw q (
        free-id new_uuid (record s { dist2 = dist2 at s.pos }) c,
        ground (arith, free-dist2 new_uuid (record s { dist2 = dist2 at s.pos }) c),
      )
      | inr q ↦ rw q (ground arith)
    ])
  ]

  sift-SortedOut :
      (at : At) (ss : List Skull) (c : Cache At)
      → SortedOut (sift new_uuid dist2 forget_limit render_limit at ss c).0
  unfolding sift
  sift-SortedOut at [] c = (tt, tt)
  sift-SortedOut at (s ∷ ss) c =
      keep_seen-SortedOut _ _ (look-SeenRight at s c)
        (sift-SortedOut at ss (look new_uuid dist2 forget_limit render_limit at s c).1)

  -- The heads that have a fake player after a pass come first: they are in range and at most 128. The rest have none, and each of
  -- those is out of range or no nearer than any that is shown, with all 128 given away.
  abbrev pub Nearest : List Skull → Type 0
  Nearest skulls =
      (shown : List Skull) × (rest : List Skull) × (skulls ≡ shown ++ rest)
      × All (λ s. (s.id ≢ 0) × (s.dist2 ≤ render_limit)) shown
      × (length shown ≤ max_visible_skulls)
      × All
          (λ t.
            (t.id ≡ 0)
            × ((render_limit < t.dist2)
                ⊎ ((length shown ≡ max_visible_skulls) × All (λ s. s.dist2 ≤ t.dist2) shown)))
          rest

  cull_at-Nearest :
      (at : At) (c : Cache At)
      → Nearest (cull_at new_uuid dist2 forget_limit render_limit (some at) c).skulls
  unfolding cull_at
  cull_at-Nearest at c =
      let (r, c') = sift new_uuid dist2 forget_limit render_limit at c.skulls c in
      let sorted = sort_by_distance r.near_heads in
      let out = sift-SortedOut at c.skulls c in
      let (shown, rest, e, worn, few, left) =
        show_nearest-Ranked new_uuid max_visible_skulls sorted c' (sort-Sorted r.near_heads) in
      let near_all =
        subst (λ l. All (λ s. s.dist2 ≤ render_limit) l) e
          (show_nearest-All new_uuid (λ d. d ≤ render_limit) max_visible_skulls sorted c'
            (sort-All (λ s. s.dist2 ≤ render_limit) r.near_heads out.0)) in
      (
        shown,
        rest ++ r.far_heads,
        ap (λ l. l ++ r.far_heads) e ∙ append_assoc shown rest r.far_heads,
        All-both _ _ shown worn (All-append_left _ shown rest near_all),
        few,
        All-append _ rest r.far_heads (All-map _ _ rest (λ t p. (p.0, inr (p.1, p.2))) left)
            (All-map _ _ r.far_heads (λ t p. (p.0, inl p.1)) out.1),
      )

  abbrev pub Culled : At → List Skull → List Skull → Type 0
  Culled at before after =
      Nearest after
      × All (Measured new_uuid dist2 forget_limit render_limit at) after
      × All (KeptIn new_uuid dist2 forget_limit render_limit at after) before

  -- After a pass over the heads with the player at a known place, each head has its own distance from there, none past the
  -- limit of the cache is left and none within it is lost; the heads that have a fake player are in render range and at
  -- most 128, and each head without one is out of that range or no nearer than every head that has one, all 128 being
  -- given.
  pub cull-Nearest :
      (c : Cache At) (at : At)
      → c.at ≡ some at
      → Culled at c.skulls (cull new_uuid dist2 forget_limit render_limit c).skulls
  unfolding cull
  cull-Nearest c at e =
      let (measured, kept) = cull_at-KeptIn new_uuid dist2 forget_limit render_limit at c in
      subst (λ o. Culled at c.skulls (cull_at new_uuid dist2 forget_limit render_limit o c).skulls)
        (sym e) (cull_at-Nearest at c, measured, kept)

  -- Without a place there is no pass.
  pub cull-none :
      (c : Cache At)
      → c.at ≡ none
      → (cull new_uuid dist2 forget_limit render_limit c).skulls ≡ c.skulls
  unfolding cull cull_at
  cull-none c e = ap (λ o. (cull_at new_uuid dist2 forget_limit render_limit o c).skulls) e
