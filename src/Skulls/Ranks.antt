-- ===== src/Skulls/Ranks.antt =====
-- The two loops of cullLocked over the heads in order of distance (internal/gw/skulls.go).
use tachyne_gw_bedrock.Prelude.{
  ℕ, zero, suc, ◌≤◌, ◌≡◌, ◌≢◌, inl, inr, refl, ap, subst, sym, List, [], ◌∷◌, ◌++◌, leb, Bool-cases,
  arith, length,
}
use tachyne_gw_bedrock.Skulls.Cache.{Skull, Cache, spawn, free}
use tachyne_gw_bedrock.Skulls.Visible.{insert_by_distance, sort_by_distance, show_nearest}

abbrev pub All {ℓ κ} : {A : Type ℓ} → (A → Type κ) → List A → Type κ
All P [] = Unit
All P (x ∷ xs) = P x × All P xs

module _ {ℓ κ} {A : Type ℓ} (P : A → Type κ) where
  pub All-append : (xs ys : List A) → All P xs → All P ys → All P (xs ++ ys)
  All-append [] ys a b = b
  All-append (x ∷ xs) ys a b = (a.0, All-append xs ys a.1 b)

  pub All-append_left : (xs ys : List A) → All P (xs ++ ys) → All P xs
  All-append_left [] ys a = tt
  All-append_left (x ∷ xs) ys a = (a.0, All-append_left xs ys a.1)

  All-append_right : (xs ys : List A) → All P (xs ++ ys) → All P ys
  All-append_right [] ys a = a
  All-append_right (x ∷ xs) ys a = All-append_right xs ys a.1

pub All-map {ℓ κ κ'} :
    {A : Type ℓ} (P : A → Type κ) (Q : A → Type κ') (xs : List A)
    → ((x : A) → P x → Q x)
    → All P xs
    → All Q xs
All-map P Q [] f a = tt
All-map P Q (x ∷ xs) f a = (f x a.0, All-map P Q xs f a.1)

pub All-both {ℓ κ κ'} :
    {A : Type ℓ} (P : A → Type κ) (Q : A → Type κ') (xs : List A)
    → All P xs
    → All Q xs
    → All (λ x. P x × Q x) xs
All-both P Q [] a b = tt
All-both P Q (x ∷ xs) a b = ((a.0, b.0), All-both P Q xs a.1 b.1)

-- The heads in order of their distance.
abbrev pub Sorted : List Skull → Type 0
Sorted [] = Unit
Sorted (s ∷ ss) = All (λ t. s.dist2 ≤ t.dist2) ss × Sorted ss

module _ {κ} (P : Skull → Type κ) where
  insert-All : (s : Skull) (ts : List Skull) → P s → All P ts → All P (insert_by_distance s ts)
  unfolding insert_by_distance
  insert-All s [] p a = (p, tt)
  insert-All s (t ∷ ts) p a = elim (Bool-cases (leb s.dist2 t.dist2)) [
    | inl h ↦ rw h (p, a)
    | inr h ↦ rw h (a.0, insert-All s ts p a.1)
  ]

  pub sort-All : (ss : List Skull) → All P ss → All P (sort_by_distance ss)
  unfolding sort_by_distance
  sort-All [] a = tt
  sort-All (s ∷ ss) a = insert-All s (sort_by_distance ss) a.0 (sort-All ss a.1)

insert-Sorted : (s : Skull) (ts : List Skull) → Sorted ts → Sorted (insert_by_distance s ts)
unfolding insert_by_distance
insert-Sorted s [] o = (tt, tt)
insert-Sorted s (t ∷ ts) o = elim (Bool-cases (leb s.dist2 t.dist2)) [
  | inl h ↦ rw h (
    (
      ground arith,
      All-map (λ u. t.dist2 ≤ u.dist2) (λ u. s.dist2 ≤ u.dist2) ts (λ u p. ground arith) o.0,
    ),
    o,
  )
  | inr h ↦
      rw h (insert-All (λ u. t.dist2 ≤ u.dist2) s ts (ground arith) o.0, insert-Sorted s ts o.1)
]

pub sort-Sorted : (ss : List Skull) → Sorted (sort_by_distance ss)
unfolding sort_by_distance
sort-Sorted [] = tt
sort-Sorted (s ∷ ss) = insert-Sorted s (sort_by_distance ss) (sort-Sorted ss)

-- The first heads in the order are shown, up to the room for them, and the rest are not.
abbrev pub Ranked : ℕ → List Skull → Type 0
Ranked room ss =
    (shown : List Skull) × (rest : List Skull) × (ss ≡ shown ++ rest)
    × All (λ s. s.id ≢ 0) shown
    × (length shown ≤ room)
    × All (λ t. (t.id ≡ 0) × (length shown ≡ room) × All (λ s. s.dist2 ≤ t.dist2) shown) rest

module _ {ℓ} {At : Type ℓ} (new_uuid : ℕ → ℕ) where
  spawn-id : (s : Skull) (c : Cache At) → (spawn new_uuid s c).0.id ≢ 0
  unfolding spawn
  spawn-id s c e = ground arith

  pub spawn-dist2 : (s : Skull) (c : Cache At) → (spawn new_uuid s c).0.dist2 ≡ s.dist2
  unfolding spawn
  spawn-dist2 s c = ground arith

  pub free-id : (s : Skull) (c : Cache At) → (free new_uuid s c).0.id ≡ 0
  unfolding free
  free-id s c = ground arith

  pub free-dist2 : (s : Skull) (c : Cache At) → (free new_uuid s c).0.dist2 ≡ s.dist2
  unfolding free
  free-dist2 s c = ground arith

  pub show_nearest-All :
      (P : ℕ → Type 0) (room : ℕ) (ss : List Skull) (c : Cache At)
      → All (λ s. P s.dist2) ss
      → All (λ s. P s.dist2) (show_nearest new_uuid room ss c).0
  unfolding show_nearest
  show_nearest-All P room [] c a = tt
  show_nearest-All P zero (s ∷ ss) c a =
      (subst P (sym (free-dist2 s c)) a.0, show_nearest-All P zero ss (free new_uuid s c).1 a.1)
  show_nearest-All P (suc room) (s ∷ ss) c a =
      (subst P (sym (spawn-dist2 s c)) a.0, show_nearest-All P room ss (spawn new_uuid s c).1 a.1)

  show_none-id :
      (ss : List Skull) (c : Cache At) → All (λ s. s.id ≡ 0) (show_nearest new_uuid 0 ss c).0
  unfolding show_nearest
  show_none-id [] c = tt
  show_none-id (s ∷ ss) c = (free-id s c, show_none-id ss (free new_uuid s c).1)

  pub show_nearest-Ranked :
      (room : ℕ) (ss : List Skull) (c : Cache At)
      → Sorted ss
      → Ranked room (show_nearest new_uuid room ss c).0
  unfolding show_nearest
  show_nearest-Ranked room [] c o = ([], [], refl, tt, omega arith, tt)
  show_nearest-Ranked zero (s ∷ ss) c o = (
    [],
    _,
    refl,
    tt,
    omega arith,
    All-map {A = Skull} (λ t. t.id ≡ 0) (λ t. (t.id ≡ 0) × ◌≡◌ {A = ℕ} 0 0 × Unit {0})
        (show_nearest new_uuid 0 (s ∷ ss) c).0 (λ t e. (e, refl, tt)) (show_none-id (s ∷ ss) c),
  )
  show_nearest-Ranked (suc room) (s ∷ ss) c o =
      let (s', c') = spawn new_uuid s c in
      let (shown, rest, e, worn, few, left) = show_nearest-Ranked room ss c' o.1 in
      let above =
        All-append_right (λ t. s.dist2 ≤ t.dist2) shown rest
          (subst (λ l. All (λ t. s.dist2 ≤ t.dist2) l) e
            (show_nearest-All (λ d. s.dist2 ≤ d) room ss c' o.0)) in
      (
        s' ∷ shown,
        rest,
        ap (◌∷◌ s') e,
        (spawn-id s c, worn),
        omega arith,
        All-map {A = Skull}
            (λ t.
              ((t.id ≡ 0) × (length shown ≡ room) × All (λ u. u.dist2 ≤ t.dist2) shown)
              × (s.dist2 ≤ t.dist2))
            _ rest (λ t p. (p.0.0, ap suc p.0.1, (omega (arith, spawn-dist2 s c, p.1), p.0.2)))
            (All-both _ _ rest left above),
      )
