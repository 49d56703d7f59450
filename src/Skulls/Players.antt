-- ===== src/Skulls/Players.antt =====
-- The fake players that the client has, and the heads that wear them (internal/gw/skulls.go).
use tachyne_gw_bedrock.Prelude.{
  ℕ, suc, ◌+◌, ◌<◌, ◌≤◌, ◌≡◌, refl, ◌∙◌, ==_iff, Bool, true, false, not, List, [], ◌∷◌, ◌++◌,
  Option, none, some, ◌||◌, if◌then◌else◌, ◌==◌, Bool-cases, inl, inr, arith,
}
use tachyne_gw_bedrock.Skulls.Cache.{
  Pos, Skull, Effect, add_player, remove_actor, move_player, set_visible, list_add, list_remove,
  fetch_skin, Cache, find_skin, is_pending, apply_skin, dress_with, dress, spawn, free, place,
}

-- Whether the client has a fake player with this id, 1 or 0, after what was sent.
unfoldable pub players : ℕ → List Effect → ℕ
players id [] = 0
players id (add_player uid i pos state ∷ es) = if i == id then 1 else players id es
players id (remove_actor i ∷ es) = if i == id then 0 else players id es
players id (move_player i pos state ∷ es) = players id es
players id (set_visible i b ∷ es) = players id es
players id (list_add uid i url rgba ∷ es) = players id es
players id (list_remove uid ∷ es) = players id es
players id (fetch_skin url ∷ es) = players id es

abbrev pub one : Skull → ℕ → ℕ
one s id = if s.id == id then 1 else 0

-- How many heads wear the fake player.
unfoldable pub wearing : ℕ → List Skull → ℕ
wearing id [] = 0
wearing id (s ∷ ss) = one s id + wearing id ss

players-le : (id : ℕ) (es : List Effect) → players id es ≤ 1
unfolding players
players-le id [] = omega arith
players-le id (add_player uid i pos state ∷ es) = ground (arith, players-le id es)
players-le id (remove_actor i ∷ es) = ground (arith, players-le id es)
players-le id (move_player i pos state ∷ es) = players-le id es
players-le id (set_visible i b ∷ es) = players-le id es
players-le id (list_add uid i url rgba ∷ es) = players-le id es
players-le id (list_remove uid ∷ es) = players-le id es
players-le id (fetch_skin url ∷ es) = players-le id es

pub wearing-append :
    (id : ℕ) (ss ts : List Skull) → wearing id (ss ++ ts) ≡ wearing id ss + wearing id ts
unfolding wearing
wearing-append id [] ts = omega arith
wearing-append id (s ∷ ss) ts = omega (arith, wearing-append id ss ts)

-- The heads that `w` counts wear the client's fake players, one each, and no id above the counter is in use.
pub record Agree {ℓ} {At : Type ℓ} (w : ℕ → ℕ) (c : Cache At) : Type 0 where
  pub agrees : (id : ℕ) → 0 < id → w id ≡ players id c.sent
  pub unused : (id : ℕ) → c.next_id < id → players id c.sent ≡ 0

-- What changes no fake player and no id.
pub record Quiet {ℓ} {At : Type ℓ} (c c' : Cache At) : Type 0 where
  pub same_next : c'.next_id ≡ c.next_id
  pub same_players : (id : ℕ) → players id c'.sent ≡ players id c.sent
  pub same_skulls : c'.skulls ≡ c.skulls

pub Quiet-trans {ℓ} : {At : Type ℓ} (a b c : Cache At) → Quiet a b → Quiet b c → Quiet a c
Quiet-trans a b c p q = record {
  same_next = q.same_next ∙ p.same_next;
  same_players = λ id. q.same_players id ∙ p.same_players id;
  same_skulls = q.same_skulls ∙ p.same_skulls;
}

pub Quiet-if {ℓ} :
    {At : Type ℓ} (b : Bool) (a x y : Cache At)
    → Quiet a x
    → Quiet a y
    → Quiet a (if b then x else y)
Quiet-if true a x y p q = p
Quiet-if false a x y p q = q

pub Agree-Quiet {ℓ} :
    {At : Type ℓ} (w : ℕ → ℕ) (c c' : Cache At) → Agree w c → Quiet c c' → Agree w c'
Agree-Quiet w c c' a q = record {
  agrees = λ id h. omega (arith, a.agrees id h, q.same_players id);
  unused = λ id h.
      omega (arith, q.same_next, a.unused id (omega (arith, q.same_next)), q.same_players id);
}

pub Agree-eq {ℓ} :
    {At : Type ℓ} (w w' : ℕ → ℕ) (c : Cache At) → ((id : ℕ) → w' id ≡ w id) → Agree w c → Agree w' c
Agree-eq w w' c e a = record {
  agrees = λ id h. omega (arith, e id, a.agrees id h);
  unused = a.unused;
}

module _ {ℓ} {At : Type ℓ} (new_uuid : ℕ → ℕ) where
  pub apply_skin-Quiet :
      (s : Skull) (rgba : List ℕ) (c : Cache At) → Quiet c (apply_skin new_uuid s rgba c)
  unfolding apply_skin players
  apply_skin-Quiet s rgba c = record {
    same_next = refl;
    same_players = λ id. refl;
    same_skulls = refl;
  }

  dress_with-Quiet :
      (o : Option (List ℕ)) (s : Skull) (c : Cache At) → Quiet c (dress_with new_uuid o s c)
  unfolding dress_with players
  dress_with-Quiet (some rgba) s c = apply_skin-Quiet s rgba c
  dress_with-Quiet none s c = elim (Bool-cases (not c.can_fetch || is_pending s.url c.pending)) [
    | inl h ↦ rw h (record { same_next = refl; same_players = λ id. refl; same_skulls = refl })
    | inr h ↦ rw h (record { same_next = refl; same_players = λ id. refl; same_skulls = refl })
  ]

  pub dress-Quiet : (s : Skull) (c : Cache At) → Quiet c (dress new_uuid s c)
  unfolding dress
  dress-Quiet s c = dress_with-Quiet (find_skin s.url c.skins) s c

  pub place-Quiet : (s : Skull) (c : Cache At) → Quiet c (place new_uuid s c)
  unfolding place players
  place-Quiet s c = record { same_next = refl; same_players = λ id. refl; same_skulls = refl }

  pub free-Agree :
      (s : Skull) (k : ℕ → ℕ) (c : Cache At)
      → Agree (λ id. one s id + k id) c
      → Agree (λ id. one (free new_uuid s c).0 id + k id) (free new_uuid s c).1
  unfolding free players
  free-Agree s k c a = elim (Bool-cases (s.id == 0)) [
    | inl h ↦ rw h a
    | inr h ↦ rw h (record {
      agrees = λ id p. ground (arith, a.agrees id p, players-le id c.sent);
      unused = λ id p. ground (arith, a.unused id p);
    })
  ]

  -- The next id goes to a head that wears none.
  fresh-Agree :
      (s : Skull) (k : ℕ → ℕ) (c : Cache At) (uid : ℕ) (pos : Pos) (state : ℕ)
      → s.id ≡ 0
      → Agree (λ id. one s id + k id) c
      → Agree {At = At}
          (λ id. one (record s { id = suc c.next_id; uid = uid }) id + k id)
          (record c {
            next_id = suc c.next_id;
            sent = add_player uid (suc c.next_id) pos state ∷ c.sent;
          })
  unfolding players
  fresh-Agree s k c uid pos state h a = record {
    agrees = λ id p. ground (arith, a.agrees id p, a.unused id);
    unused = λ id p. ground (arith, a.unused id);
  }

  pub spawn-Agree :
      (s : Skull) (k : ℕ → ℕ) (c : Cache At)
      → Agree (λ id. one s id + k id) c
      → Agree (λ id. one (spawn new_uuid s c).0 id + k id) (spawn new_uuid s c).1
  unfolding spawn
  spawn-Agree s k c a = elim (Bool-cases (s.id == 0)) [
    | inl h ↦ rw h (
        Agree-Quiet _ _ _ (fresh-Agree s k c _ s.pos s.state ((==_iff _ _).0 h) a)
          (dress-Quiet _ _))
    | inr h ↦ rw h a
  ]

  pub free-one : (s : Skull) (c : Cache At) (id : ℕ) → 0 < id → one (free new_uuid s c).0 id ≡ 0
  unfolding free
  free-one s c id p = ground arith

  pub free-skulls : (s : Skull) (c : Cache At) → (free new_uuid s c).1.skulls ≡ c.skulls
  unfolding free
  free-skulls s c = elim (Bool-cases (s.id == 0)) [ inl h ↦ rw h refl | inr h ↦ rw h refl ]
