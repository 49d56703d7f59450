-- ===== src/Trades/Offers.antt =====
-- internal/gw/trades.go: parseTrades, results, adjustedPrice and the rows of tradePacket. The integers are int32 bit
-- patterns, and the price multiplier is a float32's.
use tachyne_gw_bedrock.Prelude.{
  ℕ, zero, suc, ◌+◌, Bool, not, List, [], ◌∷◌, ◌||◌, if◌then◌else◌, ◌==◌, lt_i32, add_i32, sub_i32,
}
use tachyne_gw_bedrock.Item.{ItemStack, no_item}
use tachyne_gw_bedrock.Nbt.Reader.{Read, done, fail, ◌>>=◌, read_byte}
use tachyne_gw_bedrock.Nbt.Read.{read_number}
use tachyne_gw_bedrock.Requests.Apply.{max_i32}

-- tradeOffer and tradeList.
pub record Offer : Type 0 where
  pub cost_a : ItemStack
  pub cost_b : ItemStack
  pub result : ItemStack
  pub disabled : Bool
  pub uses : ℕ
  pub max_uses : ℕ
  pub xp : ℕ
  pub special : ℕ
  pub multiplier : ℕ
  pub demand : ℕ

pub record TradeList : Type 0 where
  pub window : ℕ
  pub offers : List Offer
  pub level : ℕ
  pub xp : ℕ
  pub progress : Bool
  pub restock : Bool

abbrev pub stack : ℕ → ℕ → ItemStack
stack id count = record { id = id; count = count; components = [] }

-- The closures boolean and i32.
unfoldable pub read_bool : List ℕ → Read Bool
read_bool bs = do (b, rest) ← read_byte bs; done (not (b == 0)) rest

-- tproto.ReadVarInt and tproto.ReadSlot770 are the shared protocol library's; the second gives an item and its count.
module _ (read_var_int : List ℕ → Read ℕ) (read_slot : List ℕ → Read (ℕ × ℕ)) where
  -- The closure cost.
  unfoldable pub read_cost : List ℕ → Read ItemStack
  read_cost bs = do
    (item, rest) ← read_var_int bs
    (count, rest) ← read_var_int rest
    (comps, rest) ← read_var_int rest
    if comps == 0 then done (stack item count) rest else fail

  abbrev pub read_second : Bool → List ℕ → Read ItemStack
  read_second has rest = if has then read_cost rest else done no_item rest

  -- The body of the loop.
  unfoldable pub read_offer : List ℕ → Read Offer
  unfolding read_cost
  read_offer bs = do
    (cost_a, rest) ← read_cost bs
    (sold, rest) ← read_slot rest
    (has_b, rest) ← read_bool rest
    (cost_b, rest) ← read_second has_b rest
    (disabled, rest) ← read_bool rest
    (uses, rest) ← read_number 4 rest
    (max_uses, rest) ← read_number 4 rest
    (xp, rest) ← read_number 4 rest
    (special, rest) ← read_number 4 rest
    (multiplier, rest) ← read_number 4 rest
    (demand, rest) ← read_number 4 rest
    let offer : Offer = record {
      cost_a = cost_a;
      cost_b = cost_b;
      result = stack sold.0 sold.1;
      disabled = disabled;
      uses = uses;
      max_uses = max_uses;
      xp = xp;
      special = special;
      multiplier = multiplier;
      demand = demand;
    }
    done offer rest

  unfoldable pub read_offers : ℕ → List ℕ → Read (List Offer)
  read_offers zero bs = done [] bs
  read_offers (suc n) bs = do
    (offer, rest) ← read_offer bs
    (offers, rest) ← read_offers n rest
    done (offer ∷ offers) rest

  unfoldable pub parse_trades : List ℕ → Read TradeList
  unfolding read_offers
  parse_trades bs = do
    (window, rest) ← read_var_int bs
    (n, rest) ← read_var_int rest
    (offers, rest) ← (if lt_i32 n 0 || lt_i32 64 n then fail else read_offers n rest)
    (level, rest) ← read_var_int rest
    (xp, rest) ← read_var_int rest
    (progress, rest) ← read_bool rest
    (restock, rest) ← read_bool rest
    let trades : TradeList = record {
      window = window;
      offers = offers;
      level = level;
      xp = xp;
      progress = progress;
      restock = restock;
    }
    done trades rest

-- results
unfoldable pub results : List Offer → List ItemStack
results [] = []
results (o ∷ os) = o.result ∷ results os

-- adjustedPrice; `adjustment` is int32(float32(base) * float32(demand) * mult).
unfoldable pub adjusted_price : (ℕ → ℕ → ℕ → ℕ) → Offer → ℕ
adjusted_price adjustment o =
    let base = o.cost_a.count in
    let adjusted = adjustment base o.demand o.multiplier in
    let extra = if lt_i32 adjusted 0 then 0 else adjusted in
    let count = add_i32 (add_i32 base extra) o.special in
    let at_least = if lt_i32 count 1 then 1 else count in
    if lt_i32 64 at_least then 64 else at_least

-- A row of tradePacket's recipes: what of it depends on the offer. An item is a stack with the count that is shown
-- (tradeItem names it from a generated table).
pub record Row : Type 0 where
  pub net_id : ℕ
  pub max_uses : ℕ
  pub trader_exp : ℕ
  pub multiplier : ℕ
  pub demand : ℕ
  pub tier : ℕ
  pub uses : ℕ
  pub sell : ItemStack
  pub buy_a : ItemStack
  pub price_a : ℕ
  pub buy_b : ItemStack
  pub count_a : ℕ
  pub count_b : ℕ

-- The tier: level - 1, at least 0.
abbrev pub tier_of : ℕ → ℕ
tier_of level = let tier = sub_i32 level 1 in if lt_i32 tier 0 then 0 else tier

unfoldable pub rows : (ℕ → ℕ → ℕ → ℕ) → ℕ → ℕ → List Offer → List Row
unfolding adjusted_price max_i32
rows adjustment level i [] = []
rows adjustment level i (o ∷ os) =
    record {
      net_id = i + 1;
      max_uses = if o.disabled then 0 else o.max_uses;
      trader_exp = o.xp;
      multiplier = o.multiplier;
      demand = o.demand;
      tier = tier_of level;
      uses = o.uses;
      sell = o.result;
      buy_a = o.cost_a;
      price_a = adjusted_price adjustment o;
      buy_b = o.cost_b;
      count_a = max_i32 o.cost_a.count 0;
      count_b = max_i32 o.cost_b.count 0;
    }
    ∷ rows adjustment level (i + 1) os
