-- ===== src/Trades/Rows.antt =====
-- The trade screen that tradePacket shows and the craft requests that name its rows (internal/gw/trades.go and the
-- trade case of applyCraft in internal/gw/crafting.go).
use tachyne_gw_bedrock.Prelude.{
  ℕ, zero, suc, ◌+◌, ◌<◌, ◌≤◌, ◌^◌, ◌≡◌, ap, sym, ◌∙◌, true, false, List, [], ◌∷◌, Option, none,
  some, if◌then◌else◌, lt_i32, add_i32, get_elem?, arith,
}
use tachyne_gw_bedrock.Mirror.{Mirror}
use tachyne_gw_bedrock.Requests.Steps.{CraftStep, say, start}
use tachyne_gw_bedrock.Requests.Crafts.{Craft}
use Prim.Native.String.{String}
use tachyne_gw_bedrock.Trades.Offers.{Offer, Row, results, rows, adjusted_price}

clamped :
    (x : ℕ)
    → x < 2 ^ 32
    → let y = if lt_i32 x 1 then 1 else x in
      let z = if lt_i32 64 y then 64 else y in (1 ≤ z) × (z ≤ 64)
clamped x h = ground arith

price-bounds :
    (adjustment : ℕ → ℕ → ℕ → ℕ) (o : Offer)
    → (1 ≤ adjusted_price adjustment o) × (adjusted_price adjustment o ≤ 64)
unfolding adjusted_price
price-bounds adjustment o =
    let adjusted = adjustment o.cost_a.count o.demand o.multiplier in
    clamped (add_i32 (add_i32 o.cost_a.count (if lt_i32 adjusted 0 then 0 else adjusted)) o.special)
      (omega arith)

abbrev the_row : Row → Option Row → Row
the_row r none = r
the_row r (some s) = s

module _ (adjustment : ℕ → ℕ → ℕ → ℕ) (level : ℕ) where
  -- The row has this number, and shows what the offer i sells and a price of 1 to 64.
  abbrev pub Depicts : List Offer → ℕ → ℕ → Row → Type 0
  Depicts os number i r =
      (get_elem? (results os) i ≡ some r.sell)
      × (r.net_id ≡ number)
      × (1 ≤ r.price_a)
      × (r.price_a ≤ 64)

  row-Depicts :
      (os : List Offer) (k i : ℕ) (r : Row)
      → get_elem? (rows adjustment level k os) i ≡ some r
      → Depicts os (k + i + 1) i r
  unfolding rows results
  row-Depicts [] k i r h = cc
  row-Depicts (o ∷ os) k zero r h =
      let e = ap (the_row r) h in
      let price = price-bounds adjustment o in
      (
        ap (λ r. some r.sell) e,
        sym (ap (λ r. r.net_id) e) ∙ omega arith,
        rw (← ap (λ r. r.price_a) e) price.0,
        rw (← ap (λ r. r.price_a) e) price.1,
      )
  row-Depicts (o ∷ os) k (suc i) r h =
      let s = row-Depicts os (k + 1) i r h in (s.0, s.1 ∙ omega arith, s.2, s.3)

  -- Every row of the packet has a price of 1 to 64, whatever the demand, the multiplier and the reputation of its
  -- offer, shows the offer's result, and is numbered by the offer's index + 1.
  pub rows-Depicts :
      (os : List Offer) (i : ℕ) (r : Row)
      → get_elem? (rows adjustment level 0 os) i ≡ some r
      → Depicts os (suc i) i r
  rows-Depicts os i r h = let s = row-Depicts os 0 i r h in (s.0, s.1 ∙ omega arith, s.2, s.3)

  -- The work of a craft request once it has chosen the offer of a row.
  abbrev pub chosen : Mirror → ℕ → Row → Craft
  chosen m i r = record {
    work = say (start m.slots) (CraftStep.select_trade i);
    out = record { book_id = 0; result = r.sell };
    auto = false;
    named = true;
  }
