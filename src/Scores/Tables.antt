-- ===== src/Scores/Tables.antt =====
-- The maps of the scoreboard (internal/gw/scoreboard.go) after an insertion or a deletion.
use tachyne_gw_bedrock.Prelude.{
  ℕ, ◌≡◌, refl, subst, sym, ap, ◌∙◌, false, List, [], ◌∷◌, none, some, if◌then◌else◌, ==_iff,
  Bool-cases, inl, inr, arith,
}
use tachyne_gw_bedrock.Prelude.{◌==◌ as num_eq}
use Prim.Native.String.{String}
use mathlib.Core.Option.{some-injective}
use text.Mathlib.Text.{◌==◌}
use text.Mathlib.TextEquality.{eq_iff}
use tachyne_gw_bedrock.Scores.Board.{Objective, lookup, insert, erase}
use tachyne_gw_bedrock.Scores.Client.{find_entry, Distinct}

module _ {κ} {V : Type κ} where
  pub lookup-insert :
      (stored name : String) (entry : V) (table : List (String × V))
      → lookup name (insert stored entry table)
        ≡ (if stored == name then some entry else lookup name table)
  unfolding insert lookup
  lookup-insert stored name entry [] = refl
  lookup-insert stored name entry ((key, old) ∷ table) =
      let rest = lookup-insert stored name entry table in
      ground (arith, rest, eq_iff key name, eq_iff key stored, eq_iff stored name)

  pub lookup-erase_ne :
      (k j : String) (m : List (String × V)) → (k == j) ≡ false → lookup j (erase k m) ≡ lookup j m
  unfolding lookup erase
  lookup-erase_ne k j [] h = refl
  lookup-erase_ne k j ((i, u) ∷ m) h =
      ground (arith, eq_iff k j, eq_iff i k, eq_iff i j, lookup-erase_ne k j m)

module _ (entry_id : String → String → ℕ) where
  -- Each objective's lines have distinct ids.
  abbrev pub AllDistinct : List (String × Objective) → Type 0
  AllDistinct [] = Unit
  AllDistinct ((name, o) ∷ m) = Distinct entry_id name o.scores × AllDistinct m

  pub lookup-Distinct :
      (m : List (String × Objective)) (name : String) (o : Objective)
      → AllDistinct m
      → lookup name m ≡ some o
      → Distinct entry_id name o.scores
  unfolding lookup
  lookup-Distinct [] name o a e = cc
  lookup-Distinct ((j, p) ∷ m) name o a e = elim (Bool-cases (j == name)) [
    | inl h ↦
        subst (λ (q : Objective). Distinct entry_id name q.scores) (some-injective _ _ (rw h at e))
          (subst (λ k. Distinct entry_id k p.scores) ((eq_iff j name).0 h) a.0)
    | inr h ↦ lookup-Distinct m name o a.1 (rw h at e)
  ]

  pub insert-AllDistinct :
      (m : List (String × Objective)) (name : String) (o : Objective)
      → AllDistinct m
      → Distinct entry_id name o.scores
      → AllDistinct (insert name o m)
  unfolding insert
  insert-AllDistinct [] name o a d = (d, tt)
  insert-AllDistinct ((j, p) ∷ m) name o a d = elim (Bool-cases (j == name)) [
    | inl h ↦ rw h (d, a.1)
    | inr h ↦ rw h (a.0, insert-AllDistinct m name o a.1 d)
  ]

  pub erase-AllDistinct :
      (m : List (String × Objective)) (name : String) → AllDistinct m → AllDistinct (erase name m)
  unfolding erase
  erase-AllDistinct [] name a = tt
  erase-AllDistinct ((j, p) ∷ m) name a = elim (Bool-cases (j == name)) [
    | inl h ↦ rw h a.1
    | inr h ↦ rw h (a.0, erase-AllDistinct m name a.1)
  ]

  -- No other owner in the objective has this owner's entry id.
  abbrev pub Alone : String → String → List (String × ℕ) → Type 0
  Alone name owner [] = Unit
  Alone name owner ((a, u) ∷ scores) =
      (entry_id name a ≡ entry_id name owner → a ≡ owner) × Alone name owner scores

  pub find_entry-id :
      (name : String) (i : ℕ) (scores : List (String × ℕ)) (a : String) (u : ℕ)
      → find_entry entry_id name i scores ≡ some (a, u)
      → i ≡ entry_id name a
  unfolding find_entry
  find_entry-id name i [] a u e = cc
  find_entry-id name i ((b, v) ∷ scores) a u e = elim (Bool-cases (num_eq i (entry_id name b))) [
    | inl h ↦
        (==_iff i (entry_id name b)).0 h
        ∙ ap (λ (p : String × ℕ). entry_id name p.0) (some-injective _ _ (rw h at e))
    | inr h ↦ find_entry-id name i scores a u (rw h at e)
  ]

  pub find_entry-insert :
      (name owner : String) (v i : ℕ) (scores : List (String × ℕ))
      → Alone name owner scores
      → find_entry entry_id name i (insert owner v scores) ≡ (
          if num_eq i (entry_id name owner)
          then some (owner, v)
          else find_entry entry_id name i scores)
  unfolding find_entry insert
  find_entry-insert name owner v i [] a = refl
  find_entry-insert name owner v i ((b, u) ∷ scores) a = elim (Bool-cases (b == owner)) [
    | inl h ↦ rw (h, ap (entry_id name) ((eq_iff b owner).0 h)) (ground arith)
    | inr h ↦
        rw (h, find_entry-insert name owner v i scores a.1) (ground (arith, a.0, eq_iff b owner))
  ]

  pub find_entry-erase :
      (name owner : String) (i : ℕ) (scores : List (String × ℕ))
      → Alone name owner scores
      → Distinct entry_id name scores
      → find_entry entry_id name i (erase owner scores)
        ≡ (if num_eq i (entry_id name owner) then none else find_entry entry_id name i scores)
  unfolding find_entry erase
  find_entry-erase name owner i [] a d = ground arith
  find_entry-erase name owner i ((b, u) ∷ scores) a d = elim (Bool-cases (b == owner)) [
    | inl h ↦ rw h (elim (Bool-cases (num_eq i (entry_id name owner))) [
      | inl q ↦
          let same : i ≡ entry_id name b =
            (==_iff i (entry_id name owner)).0 q
            ∙ ap (entry_id name) (sym ((eq_iff b owner).0 h)) in
          rw q (ap (λ j. find_entry entry_id name j scores) same ∙ d.0)
      | inr q ↦ rw (q, ap (λ k. num_eq i (entry_id name k)) ((eq_iff b owner).0 h) ∙ q) refl
    ])
    | inr h ↦
        rw (h, find_entry-erase name owner i scores a.1 d.1) (ground (arith, a.0, eq_iff b owner))
  ]

  pub insert-Distinct :
      (name owner : String) (v : ℕ) (scores : List (String × ℕ))
      → Alone name owner scores
      → Distinct entry_id name scores
      → Distinct entry_id name (insert owner v scores)
  unfolding insert
  insert-Distinct name owner v [] a d = (unfold find_entry in refl, tt)
  insert-Distinct name owner v ((b, u) ∷ scores) a d = elim (Bool-cases (b == owner)) [
    | inl h ↦ rw h (
      ap (λ k. find_entry entry_id name (entry_id name k) scores) (sym ((eq_iff b owner).0 h))
          ∙ d.0,
      d.1,
    )
    | inr h ↦ rw h (
      find_entry-insert name owner v (entry_id name b) scores a.1
          ∙ ground (arith, a.0, eq_iff b owner, d.0),
      insert-Distinct name owner v scores a.1 d.1,
    )
  ]

  pub erase-Distinct :
      (name owner : String) (scores : List (String × ℕ))
      → Alone name owner scores
      → Distinct entry_id name scores
      → Distinct entry_id name (erase owner scores)
  unfolding erase
  erase-Distinct name owner [] a d = d
  erase-Distinct name owner ((b, u) ∷ scores) a d = elim (Bool-cases (b == owner)) [
    | inl h ↦ rw h d.1
    | inr h ↦ rw h (
      find_entry-erase name owner (entry_id name b) scores a.1 d.1 ∙ ground (arith, d.0),
      erase-Distinct name owner scores a.1 d.1,
    )
  ]
