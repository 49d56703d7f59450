-- ===== src/Skulls/Culls.antt =====
-- What cullLocked leaves of the fake players (internal/gw/skulls.go).
use tachyne_gw_bedrock.Prelude.{
  ℕ, zero, suc, ◌+◌, ◌≡◌, refl, ap, ◌∙◌, List, [], ◌∷◌, Option, none, some, ltb, leb, Bool-cases,
  inl, inr, arith,
}
use tachyne_gw_bedrock.Skulls.Cache.{Pos, Skull, Cache, spawn, free, max_visible_skulls}
use tachyne_gw_bedrock.Skulls.Visible.{
  Seen, forgotten, far, near, Sifted, keep_seen, insert_by_distance, sort_by_distance, look, sift,
  show_nearest, cull_at, cull,
}
use tachyne_gw_bedrock.Skulls.Players.{
  wearing, wearing-append, one, Agree, Agree-eq, free-Agree, free-one, spawn-Agree,
}

pub sort-wearing : (id : ℕ) (ss : List Skull) → wearing id (sort_by_distance ss) ≡ wearing id ss
unfolding sort_by_distance wearing
sort-wearing id [] = refl
sort-wearing id (s ∷ ss) =
    insert_wearing s (sort_by_distance ss) ∙ ap (λ n. one s id + n) (sort-wearing id ss)
  where
    insert_wearing :
        (s : Skull) (ts : List Skull)
        → wearing id (insert_by_distance s ts) ≡ one s id + wearing id ts
    insert_wearing s [] = refl
    insert_wearing s (t ∷ ts) = elim (Bool-cases (leb s.dist2 t.dist2)) [
      | inl h ↦ rw h refl
      | inr h ↦ rw h (omega (arith, insert_wearing s ts))
    ]

abbrev one_seen : Seen → ℕ → ℕ
one_seen forgotten id = 0
one_seen (far s) id = one s id
one_seen (near s) id = one s id

abbrev sifted : Sifted → ℕ → ℕ
sifted r id = wearing id r.near_heads + wearing id r.far_heads

keep_seen-sifted :
    (seen : Seen) (r : Sifted) (id : ℕ)
    → sifted (keep_seen seen r) id ≡ one_seen seen id + sifted r id
unfolding keep_seen wearing
keep_seen-sifted forgotten r id = omega arith
keep_seen-sifted (far s) r id = omega arith
keep_seen-sifted (near s) r id = omega arith

module _ {ℓ} {At : Type ℓ} (new_uuid : ℕ → ℕ) (dist2 : At → Pos → ℕ)
    (forget_limit render_limit : ℕ) where
  look-Agree :
      (at : At) (s : Skull) (k : ℕ → ℕ) (c : Cache At)
      → Agree (λ id. one s id + k id) c
      → Agree
          (λ id. one_seen (look new_uuid dist2 forget_limit render_limit at s c).0 id + k id)
          (look new_uuid dist2 forget_limit render_limit at s c).1
  unfolding look
  look-Agree at s k c a =
      let gone = free-Agree new_uuid (record s { dist2 = dist2 at s.pos }) k c a in
      elim (Bool-cases (ltb forget_limit (dist2 at s.pos))) [
        | inl h ↦ rw h (record {
          agrees = λ id p. omega (
            arith,
            gone.agrees id p,
            free-one new_uuid (record s { dist2 = dist2 at s.pos }) c id p,
          );
          unused = gone.unused;
        })
        | inr h ↦ rw h (elim (Bool-cases (ltb render_limit (dist2 at s.pos))) [
          | inl q ↦ rw q gone
          | inr q ↦ rw q a
        ])
      ]

  sift-Agree :
      (at : At) (ss : List Skull) (k : ℕ → ℕ) (c : Cache At)
      → Agree (λ id. wearing id ss + k id) c
      → Agree
          (λ id. sifted (sift new_uuid dist2 forget_limit render_limit at ss c).0 id + k id)
          (sift new_uuid dist2 forget_limit render_limit at ss c).1
  unfolding sift wearing
  sift-Agree at [] k c a = Agree-eq _ _ c (λ id. omega arith) a
  sift-Agree at (s ∷ ss) k c a =
      let (seen, c') = look new_uuid dist2 forget_limit render_limit at s c in
      let first =
        look-Agree at s (λ id. wearing id ss + k id) c (Agree-eq _ _ c (λ id. omega arith) a) in
      let rest =
        sift-Agree at ss (λ id. one_seen seen id + k id) c'
          (Agree-eq _ _ c' (λ id. omega arith) first) in
      Agree-eq _ _ _
        (λ id. omega (
          arith,
          keep_seen-sifted seen (sift new_uuid dist2 forget_limit render_limit at ss c').0 id,
        ))
        rest

module _ {ℓ} {At : Type ℓ} (new_uuid : ℕ → ℕ) where
  show_nearest-Agree :
      (room : ℕ) (ss : List Skull) (k : ℕ → ℕ) (c : Cache At)
      → Agree (λ id. wearing id ss + k id) c
      → Agree
          (λ id. wearing id (show_nearest new_uuid room ss c).0 + k id)
          (show_nearest new_uuid room ss c).1
  unfolding show_nearest wearing
  show_nearest-Agree room [] k c a = a
  show_nearest-Agree zero (s ∷ ss) k c a =
      let (s', c') = free new_uuid s c in
      let first =
        free-Agree new_uuid s (λ id. wearing id ss + k id) c
          (Agree-eq _ _ c (λ id. omega arith) a) in
      let rest =
        show_nearest-Agree zero ss (λ id. one s' id + k id) c'
          (Agree-eq _ _ c' (λ id. omega arith) first) in
      Agree-eq _ _ _ (λ id. omega arith) rest
  show_nearest-Agree (suc room) (s ∷ ss) k c a =
      let (s', c') = spawn new_uuid s c in
      let first =
        spawn-Agree new_uuid s (λ id. wearing id ss + k id) c
          (Agree-eq _ _ c (λ id. omega arith) a) in
      let rest =
        show_nearest-Agree room ss (λ id. one s' id + k id) c'
          (Agree-eq _ _ c' (λ id. omega arith) first) in
      Agree-eq _ _ _ (λ id. omega arith) rest

module _ {ℓ} {At : Type ℓ} (new_uuid : ℕ → ℕ) (dist2 : At → Pos → ℕ)
    (forget_limit render_limit : ℕ) where
  cull_at-Agree :
      (o : Option At) (c : Cache At)
      → Agree (λ id. wearing id c.skulls) c
      → Agree
          (λ id. wearing id (cull_at new_uuid dist2 forget_limit render_limit o c).skulls)
          (cull_at new_uuid dist2 forget_limit render_limit o c)
  unfolding cull_at
  cull_at-Agree none c a = a
  cull_at-Agree (some at) c a =
      let (r, c') = sift new_uuid dist2 forget_limit render_limit at c.skulls c in
      let (shown, c'') =
        show_nearest new_uuid max_visible_skulls (sort_by_distance r.near_heads) c' in
      let first =
        sift-Agree new_uuid dist2 forget_limit render_limit at c.skulls (λ id. 0) c
          (Agree-eq _ _ c (λ id. omega arith) a) in
      let rest =
        show_nearest-Agree new_uuid max_visible_skulls (sort_by_distance r.near_heads)
          (λ id. wearing id r.far_heads) c'
          (Agree-eq _ _ c' (λ id. omega (arith, sort-wearing id r.near_heads)) first) in
      record {
        agrees = λ id p. omega (arith, wearing-append id shown r.far_heads, rest.agrees id p);
        unused = rest.unused;
      }

  pub cull-Agree :
      (c : Cache At)
      → Agree (λ id. wearing id c.skulls) c
      → Agree
          (λ id. wearing id (cull new_uuid dist2 forget_limit render_limit c).skulls)
          (cull new_uuid dist2 forget_limit render_limit c)
  unfolding cull
  cull-Agree c a = cull_at-Agree c.at c a
