-- ===== src/Skulls/Heads.antt =====
-- The heads of the cache and the fake players that they wear (internal/gw/skulls.go).
use tachyne_gw_bedrock.Prelude.{
  ℕ, ◌+◌, ◌≤◌, ◌≡◌, refl, ap, sym, ◌∙◌, Bool, true, List, [], ◌∷◌, ◌++◌, some, if◌then◌else◌, ◌==◌,
  length, Bool-cases, inl, inr, arith,
}
use mathlib.Core.Option.{some-injective}
use tachyne_gw_bedrock.Skulls.Cache.{Pos, same_pos, Skull, set_visible, Cache, max_visible_skulls}
use tachyne_gw_bedrock.Skulls.Ranks.{All}
use tachyne_gw_bedrock.Skulls.Steps.{find_skull, drop_skull, store_skull}
use tachyne_gw_bedrock.Skulls.Players.{players, wearing, one, Agree, Agree-eq, Agree-Quiet, Quiet}

-- How many heads wear a fake player.
unfoldable pub worn : List Skull → ℕ
worn [] = 0
worn (s ∷ ss) = (if s.id == 0 then 0 else 1) + worn ss

-- The heads of the cache wear the client's fake players, one each, and are at most 128.
pub record Worn {ℓ} {At : Type ℓ} (c : Cache At) : Type 0 where
  pub shown : Agree (λ id. wearing id c.skulls) c
  pub few : worn c.skulls ≤ max_visible_skulls

pub worn-append : (ss ts : List Skull) → worn (ss ++ ts) ≡ worn ss + worn ts
unfolding worn
worn-append [] ts = omega arith
worn-append (s ∷ ss) ts = omega (arith, worn-append ss ts)

pub worn-le : (ss : List Skull) → worn ss ≤ length ss
unfolding worn
worn-le [] = omega arith
worn-le (s ∷ ss) = ground (arith, worn-le ss)

pub worn-drop : (p : Pos) (ss : List Skull) → worn (drop_skull p ss) ≤ worn ss
unfolding worn drop_skull
worn-drop p [] = omega arith
worn-drop p (s ∷ ss) = ground (arith, worn-drop p ss)

pub none_worn :
    (ss : List Skull) (Q : Skull → Type 0) → All (λ s. (s.id ≡ 0) × Q s) ss → worn ss ≡ 0
unfolding worn
none_worn [] Q a = refl
none_worn (s ∷ ss) Q a = ground (arith, a.0, none_worn ss Q a.1)

same_pos→eq : (p q : Pos) → same_pos p q ≡ true → q ≡ p
same_pos→eq p q h = ground arith

pub find_skull-pos : (p : Pos) (ss : List Skull) (s : Skull) → find_skull p ss ≡ some s → s.pos ≡ p
unfolding find_skull
find_skull-pos p [] s e = cc
find_skull-pos p (t ∷ ts) s e = elim (Bool-cases (same_pos p t.pos)) [
  | inl h ↦ ap (λ (u : Skull). u.pos) (sym (some-injective _ _ (rw h at e))) ∙ same_pos→eq p t.pos h
  | inr h ↦ find_skull-pos p ts s (rw h at e)
]

pub Worn-Quiet : {At : Type 0} (c c' : Cache At) → Worn c → Quiet c c' → Worn c'
Worn-Quiet c c' a q = record {
  shown =
      Agree-eq _ _ c' (λ id. ap (wearing id) q.same_skulls)
        (Agree-Quiet (λ id. wearing id c.skulls) c c' a.shown q);
  few = omega (arith, a.few, ap worn q.same_skulls);
}

pub find_skull-wearing :
    (p : Pos) (ss : List Skull) (s : Skull) (id : ℕ)
    → find_skull p ss ≡ some s
    → wearing id ss ≡ one s id + wearing id (drop_skull p ss)
unfolding find_skull drop_skull wearing
find_skull-wearing p [] s id e = cc
find_skull-wearing p (t ∷ ts) s id e = elim (Bool-cases (same_pos p t.pos)) [
  | inl h ↦ rw h (ap (λ (u : Skull). one u id + wearing id ts) (some-injective _ _ (rw h at e)))
  | inr h ↦ rw h (omega (arith, find_skull-wearing p ts s id (rw h at e)))
]

store_skull-worn :
    (p : Pos) (ss : List Skull) (s s' : Skull)
    → find_skull p ss ≡ some s
    → s'.id ≡ s.id
    → s'.pos ≡ p
    → worn (store_skull s' ss) ≡ worn ss
unfolding find_skull store_skull worn
store_skull-worn p [] s s' e same q = cc
store_skull-worn p (t ∷ ts) s s' e same q = elim (Bool-cases (same_pos p t.pos)) [
  | inl h ↦ rw (ap (λ x. same_pos x t.pos) q ∙ h) (
      let same_id = same ∙ ap (λ (u : Skull). u.id) (sym (some-injective _ _ (rw h at e))) in
      ground (arith, same_id))
  | inr h ↦
      rw (ap (λ x. same_pos x t.pos) q ∙ h)
        (omega (arith, store_skull-worn p ts s s' (rw h at e) same q))
]

store_skull-wearing :
    (p : Pos) (ss : List Skull) (s s' : Skull) (id : ℕ)
    → find_skull p ss ≡ some s
    → s'.pos ≡ p
    → wearing id (store_skull s' ss) + one s id ≡ one s' id + wearing id ss
unfolding find_skull store_skull wearing
store_skull-wearing p [] s s' id e q = cc
store_skull-wearing p (t ∷ ts) s s' id e q = elim (Bool-cases (same_pos p t.pos)) [
  | inl h ↦
      rw (ap (λ x. same_pos x t.pos) q ∙ h)
        (omega (arith, ap (λ (u : Skull). one u id) (some-injective _ _ (rw h at e))))
  | inr h ↦
      rw (ap (λ x. same_pos x t.pos) q ∙ h)
        (omega (arith, store_skull-wearing p ts s s' id (rw h at e) q))
]

pub Quiet-refl : {At : Type 0} (c : Cache At) → Quiet c c
Quiet-refl c = record { same_next = refl; same_players = λ id. refl; same_skulls = refl }

pub heads-Quiet :
    {At : Type 0} (c : Cache At) (heads : List (Pos × ℕ)) → Quiet c (record c { heads = heads })
heads-Quiet c heads = record { same_next = refl; same_players = λ id. refl; same_skulls = refl }

pub set_visible-Quiet :
    {At : Type 0} (id : ℕ) (b : Bool) (c : Cache At)
    → Quiet {At = At} c (record c { sent = set_visible id b ∷ c.sent })
unfolding players
set_visible-Quiet id b c = record { same_next = refl; same_players = λ i. refl; same_skulls = refl }

-- A skull changed in place keeps its fake player.
pub stored-Worn :
    {At : Type 0} (s s' : Skull) (pos : Pos) (c : Cache At)
    → find_skull pos c.skulls ≡ some s
    → s'.id ≡ s.id
    → s'.pos ≡ pos
    → Worn c
    → Worn {At = At} (record c { skulls = store_skull s' c.skulls })
stored-Worn s s' pos c e same q a = record {
  shown = record {
    agrees = λ id p.
        omega
          (arith, store_skull-wearing pos c.skulls s s' id e q, same_one id, a.shown.agrees id p);
    unused = a.shown.unused;
  };
  few = omega (arith, store_skull-worn pos c.skulls s s' e same q, a.few);
}
  where
    same_one : (id : ℕ) → one s' id ≡ one s id
    same_one id = ground (arith, same)
