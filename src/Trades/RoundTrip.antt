-- ===== src/Trades/RoundTrip.antt =====
-- The world's offers, read by parseTrades (internal/gw/trades.go).
use tachyne_gw_bedrock.Prelude.{
  ℕ, ◌^◌, ◌<◌, ◌≤◌, ◌≡◌, refl, ap, sym, Bool, true, false, not, ◌==◌, ==_iff, Bool-cases, inl, inr,
  List, [], ◌∷◌, ◌++◌, ◌||◌, if◌then◌else◌, lt_i32, length, length-append, arith,
}
use tachyne_gw_bedrock.Item.{ItemStack, no_item}
use tachyne_gw_bedrock.Nbt.Reader.{Read, done, put_big_endian}
use tachyne_gw_bedrock.Nbt.Exact.{read_number-put}
use tachyne_gw_bedrock.Trades.Offers.{
  Offer, TradeList, read_bool, read_cost, read_second, read_offer, read_offers, parse_trades,
}

abbrev put_bool : Bool → List ℕ
put_bool true = 1 ∷ []
put_bool false = 0 ∷ []

read_bool-put : (b : Bool) (rest : List ℕ) → read_bool (put_bool b ++ rest) ≡ done b rest
unfolding read_bool
read_bool-put true rest = refl
read_bool-put false rest = refl

more_left : (xs rest : List ℕ) → 0 < length rest → 0 < length (xs ++ rest)
more_left xs rest h = omega (arith, length-append xs rest)

bool_left : (b : Bool) (rest : List ℕ) → 0 < length (put_bool b ++ rest)
bool_left true rest = omega arith
bool_left false rest = omega arith

few_offers : (n : ℕ) → n ≤ 64 → (lt_i32 n 0 || lt_i32 64 n) ≡ false
few_offers n h = ground arith

-- A stack as an offer has it: an id and a count.
abbrev pub Plain : ItemStack → Type 0
Plain s = (s.id < 2 ^ 32) × (s.count < 2 ^ 32) × (s.components ≡ [])

-- What an offer sells is there, so that its slot is not the empty one.
abbrev pub Sold : ItemStack → Type 0
Sold s = (s.id < 2 ^ 32) × (0 < s.count) × (s.count < 2 ^ 31) × (s.components ≡ [])

abbrev pub OfferFits : Offer → Type 0
OfferFits o =
    Plain o.cost_a
    × Plain o.cost_b
    × (o.cost_b.count ≡ 0 → o.cost_b ≡ no_item)
    × Sold o.result
    × (o.uses < 256 ^ 4)
    × (o.max_uses < 256 ^ 4)
    × (o.xp < 256 ^ 4)
    × (o.special < 256 ^ 4)
    × (o.multiplier < 256 ^ 4)
    × (o.demand < 256 ^ 4)

abbrev pub AllOffersFit : List Offer → Type 0
AllOffersFit [] = Unit
AllOffersFit (o ∷ os) = OfferFits o × AllOffersFit os

-- What the shared library's VarInts and slots are relied on for: what is written is read back.
module _ (read_var_int : List ℕ → Read ℕ) (put_var_int : ℕ → List ℕ)
    (var_int_back : (v : ℕ) (rest : List ℕ)
      → v < 2 ^ 32
      → read_var_int (put_var_int v ++ rest) ≡ done v rest)
    (read_slot : List ℕ → Read (ℕ × ℕ)) (put_slot : ℕ → ℕ → List ℕ)
    (slot_back : (id count : ℕ) (rest : List ℕ)
      → id < 2 ^ 32
      → 0 < count
      → count < 2 ^ 31
      → read_slot (put_slot id count ++ rest) ≡ done (id, count) rest) where
  -- Each writes in front of what follows.
  put_cost : ItemStack → List ℕ → List ℕ
  put_cost s rest = put_var_int s.id ++ (put_var_int s.count ++ (put_var_int 0 ++ rest))

  put_second : Bool → ItemStack → List ℕ → List ℕ
  put_second has s rest = if has then put_cost s rest else rest

  put_numbers : Offer → List ℕ → List ℕ
  put_numbers o rest =
      put_big_endian 4 o.uses
      ++ (put_big_endian 4 o.max_uses
          ++ (put_big_endian 4 o.xp
              ++ (put_big_endian 4 o.special
                  ++ (put_big_endian 4 o.multiplier ++ (put_big_endian 4 o.demand ++ rest)))))

  -- The second price is written where there is one.
  abbrev has_second : Offer → Bool
  has_second o = not (o.cost_b.count == 0)

  unfoldable pub put_offer : Offer → List ℕ → List ℕ
  unfolding put_cost put_second put_numbers
  put_offer o rest = put_cost o.cost_a (
      put_slot o.result.id o.result.count
      ++ (put_bool (has_second o)
          ++ put_second (has_second o) o.cost_b (put_bool o.disabled ++ put_numbers o rest)))

  unfoldable pub put_offers : List Offer → List ℕ → List ℕ
  unfolding put_offer
  put_offers [] rest = rest
  put_offers (o ∷ os) rest = put_offer o (put_offers os rest)

  unfoldable pub put_trades : TradeList → List ℕ → List ℕ
  unfolding put_offers
  put_trades t rest =
      put_var_int t.window
      ++ (put_var_int (length t.offers)
          ++ put_offers t.offers (
              put_var_int t.level
              ++ (put_var_int t.xp ++ (put_bool t.progress ++ (put_bool t.restock ++ rest)))))

  read_cost-put :
      (s : ItemStack) (rest : List ℕ)
      → Plain s
      → read_cost read_var_int read_slot (put_cost s rest) ≡ done s rest
  unfolding read_cost put_cost
  read_cost-put s rest p =
      rw
        (
          var_int_back s.id (put_var_int s.count ++ (put_var_int 0 ++ rest)) p.0,
          var_int_back s.count (put_var_int 0 ++ rest) p.1,
          var_int_back 0 rest (omega arith),
        )
        (ap (λ cs. done (record { id = s.id; count = s.count; components = cs }) rest) (sym p.2))

  read_second-put :
      (s : ItemStack) (rest : List ℕ)
      → Plain s
      → (s.count ≡ 0 → s ≡ no_item)
      → read_second read_var_int read_slot
          (not (s.count == 0))
          (put_second (not (s.count == 0)) s rest)
        ≡ done s rest
  unfolding put_second
  read_second-put s rest p none_written = elim (Bool-cases (s.count == 0)) [
    | inl h ↦ rw h (ap (λ x. done x rest) (sym (none_written ((==_iff s.count 0).0 h))))
    | inr h ↦ rw h (read_cost-put s rest p)
  ]

  read_offer-put :
      (o : Offer) (rest : List ℕ)
      → OfferFits o
      → 0 < length rest
      → read_offer read_var_int read_slot (put_offer o rest) ≡ done o rest
  unfolding read_offer put_offer put_numbers
  read_offer-put o rest f h =
      let r6 = put_big_endian 4 o.demand ++ rest in
      let r5 = put_big_endian 4 o.multiplier ++ r6 in
      let r4 = put_big_endian 4 o.special ++ r5 in
      let r3 = put_big_endian 4 o.xp ++ r4 in
      let r2 = put_big_endian 4 o.max_uses ++ r3 in
      let r1 = put_big_endian 4 o.uses ++ r2 in
      let h6 = more_left (put_big_endian 4 o.demand) rest h in
      let h5 = more_left (put_big_endian 4 o.multiplier) r6 h6 in
      let h4 = more_left (put_big_endian 4 o.special) r5 h5 in
      let h3 = more_left (put_big_endian 4 o.xp) r4 h4 in
      let h2 = more_left (put_big_endian 4 o.max_uses) r3 h3 in
      let after_b = put_bool o.disabled ++ r1 in
      rw
        (
          read_cost-put o.cost_a
              (put_slot o.result.id o.result.count
                ++ (put_bool (has_second o) ++ put_second (has_second o) o.cost_b after_b))
              f.0,
          slot_back o.result.id o.result.count
              (put_bool (has_second o) ++ put_second (has_second o) o.cost_b after_b) f.3.0 f.3.1
              f.3.2,
          read_bool-put (has_second o) (put_second (has_second o) o.cost_b after_b),
          read_second-put o.cost_b after_b f.1 f.2,
          read_bool-put o.disabled r1,
          read_number-put 4 o.uses r2 f.4 h2,
          read_number-put 4 o.max_uses r3 f.5 h3,
          read_number-put 4 o.xp r4 f.6 h4,
          read_number-put 4 o.special r5 f.7 h5,
          read_number-put 4 o.multiplier r6 f.8 h6,
          read_number-put 4 o.demand rest f.9 h,
        )
        (ap
          (λ cs.
            done
              (record o {
                result = record { id = o.result.id; count = o.result.count; components = cs };
              })
              rest)
          (sym f.3.3))

  put_cost-left : (s : ItemStack) (rest : List ℕ) → 0 < length rest → 0 < length (put_cost s rest)
  unfolding put_cost
  put_cost-left s rest h =
      more_left (put_var_int s.id) _
        (more_left (put_var_int s.count) _ (more_left (put_var_int 0) rest h))

  put_second-left :
      (has : Bool) (s : ItemStack) (rest : List ℕ)
      → 0 < length rest
      → 0 < length (put_second has s rest)
  unfolding put_second
  put_second-left true s rest h = put_cost-left s rest h
  put_second-left false s rest h = h

  put_numbers-left : (o : Offer) (rest : List ℕ) → 0 < length rest → 0 < length (put_numbers o rest)
  unfolding put_numbers
  put_numbers-left o rest h =
      let h3 = more_left (put_big_endian 4 o.special) _ (
        more_left (put_big_endian 4 o.multiplier) _
          (more_left (put_big_endian 4 o.demand) rest h)) in
      more_left (put_big_endian 4 o.uses) _
        (more_left (put_big_endian 4 o.max_uses) _ (more_left (put_big_endian 4 o.xp) _ h3))

  put_offers-left :
      (os : List Offer) (rest : List ℕ) → 0 < length rest → 0 < length (put_offers os rest)
  unfolding put_offers put_offer
  put_offers-left [] rest h = h
  put_offers-left (o ∷ os) rest h =
      let h1 =
        more_left (put_bool o.disabled) _
          (put_numbers-left o (put_offers os rest) (put_offers-left os rest h)) in
      let h2 =
        more_left (put_bool (has_second o)) _ (put_second-left (has_second o) o.cost_b _ h1) in
      put_cost-left o.cost_a _ (more_left (put_slot o.result.id o.result.count) _ h2)

  read_offers-put :
      (os : List Offer) (rest : List ℕ)
      → AllOffersFit os
      → 0 < length rest
      → read_offers read_var_int read_slot (length os) (put_offers os rest) ≡ done os rest
  unfolding read_offers put_offers
  read_offers-put [] rest f h = refl
  read_offers-put (o ∷ os) rest f h =
      rw
        (
          read_offer-put o (put_offers os rest) f.0 (put_offers-left os rest h),
          read_offers-put os rest f.1 h,
        )
        refl

  -- The world's list of at most 64 offers is read back as it was written, with what follows it left, when its numbers
  -- fit an int32, its stacks are an id and a count alone, every offer sells something and a second price with the
  -- count 0 is the empty stack.
  pub parse_trades-put :
      (t : TradeList) (rest : List ℕ)
      → (t.window < 2 ^ 32)
        × (length t.offers ≤ 64)
        × AllOffersFit t.offers
        × (t.level < 2 ^ 32)
        × (t.xp < 2 ^ 32)
      → parse_trades read_var_int read_slot (put_trades t rest) ≡ done t rest
  unfolding parse_trades put_trades
  parse_trades-put t rest f =
      let r3 = put_bool t.progress ++ (put_bool t.restock ++ rest) in
      let r2 = put_var_int t.xp ++ r3 in
      let r1 = put_var_int t.level ++ r2 in
      rw
        (
          var_int_back t.window (put_var_int (length t.offers) ++ put_offers t.offers r1) f.0,
          var_int_back (length t.offers) (put_offers t.offers r1) (omega (arith, f.1)),
          few_offers (length t.offers) f.1,
          read_offers-put t.offers r1 f.2 (
              more_left (put_var_int t.level) r2 (
                more_left (put_var_int t.xp) r3
                  (bool_left t.progress (put_bool t.restock ++ rest)))),
          var_int_back t.level r2 f.3,
          var_int_back t.xp r3 f.4,
          read_bool-put t.progress (put_bool t.restock ++ rest),
          read_bool-put t.restock rest,
        )
        refl
