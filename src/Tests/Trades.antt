-- ===== src/Tests/Trades.antt =====
-- A villager with two offers: bread for an emerald, and a book for paper and an emerald.
use tachyne_gw_bedrock.Prelude.{
  ℕ, ◌-◌, get_elem?, ◌≡◌, ◌^◌, refl, true, false, List, [], ◌∷◌, none, some, arith,
}
use tachyne_gw_bedrock.Item.{no_item}
use tachyne_gw_bedrock.Mirror.{Mirror, new_window_mirror, set_trades}
use tachyne_gw_bedrock.Layouts.{trade_layout}
use tachyne_gw_bedrock.Protocol.{SlotInfo, Container}
use tachyne_gw_bedrock.Nbt.Reader.{Read, done, read_byte, ◌>>=◌}
use tachyne_gw_bedrock.Requests.Crafts.{Tables}
use tachyne_gw_bedrock.Trades.Offers.{
  adjusted_price, Offer, TradeList, Row, stack, results, rows, parse_trades,
}
use tachyne_gw_bedrock.Trades.RoundTrip.{OfferFits, put_trades, parse_trades-put}
use tachyne_gw_bedrock.Trades.Rows.{Depicts, rows-Depicts}

abbrev bread : Offer
bread = record {
  cost_a = stack 9 1;
  cost_b = no_item;
  result = stack 40 6;
  disabled = false;
  uses = 2;
  max_uses = 16;
  xp = 1;
  special = 0;
  multiplier = 0;
  demand = 0;
}

abbrev book : Offer
book = record bread {
  cost_a = stack 30 24;
  cost_b = stack 9 1;
  result = stack 31 1;
  special = 2 ^ 32 - 30;
}

abbrev villager : TradeList
villager = record {
  window = 3;
  offers = bread ∷ book ∷ [];
  level = 2;
  xp = 10;
  progress = true;
  restock = false;
}

-- A slot of an item and a count, each a byte.
abbrev byte_slot : List ℕ → Read (ℕ × ℕ)
byte_slot bs = do (id, rest) ← read_byte bs; (count, rest) ← read_byte rest; done (id, count) rest

bread_fits : OfferFits bread
bread_fits = (
  (omega arith, omega arith, refl),
  (omega arith, omega arith, refl),
  (λ e. refl),
  (omega arith, omega arith, omega arith, refl),
  omega arith,
  omega arith,
  omega arith,
  omega arith,
  omega arith,
  omega arith,
)

book_fits : OfferFits book
book_fits = (
  (omega arith, omega arith, refl),
  (omega arith, omega arith, refl),
  (λ e. cc),
  (omega arith, omega arith, omega arith, refl),
  omega arith,
  omega arith,
  omega arith,
  omega arith,
  omega arith,
  omega arith,
)

parse_trades-put_example :
    parse_trades read_byte byte_slot (
      put_trades read_byte
        (λ v. v ∷ [])
        (λ v rest h. refl)
        byte_slot
        (λ id count. id ∷ count ∷ [])
        (λ id count rest a b d. refl)
        villager
        (7 ∷ []))
    ≡ done villager (7 ∷ [])
parse_trades-put_example =
    parse_trades-put read_byte (λ v. v ∷ []) (λ v rest h. refl) byte_slot
      (λ id count. id ∷ count ∷ []) (λ id count rest a b d. refl) villager (7 ∷ [])
      (omega arith, omega arith, (bread_fits, (book_fits, tt)), omega arith, omega arith)

abbrev level_price : ℕ → ℕ → ℕ → ℕ
level_price base demand multiplier = 0

-- The book's row: the reputation takes its price to 1.
abbrev book_row : Row
book_row = record {
  net_id = 2;
  max_uses = 16;
  trader_exp = 1;
  multiplier = 0;
  demand = 0;
  tier = 1;
  uses = 2;
  sell = stack 31 1;
  buy_a = stack 30 24;
  price_a = 1;
  buy_b = stack 9 1;
  count_a = 24;
  count_b = 1;
}

book_is_second : get_elem? (rows level_price 2 0 villager.offers) 1 ≡ some book_row
unfolding rows adjusted_price
book_is_second = refl

rows-Depicts_example : Depicts level_price 2 villager.offers 2 1 book_row
rows-Depicts_example = rows-Depicts level_price 2 villager.offers 1 book_row book_is_second

abbrev no_tables : Tables
no_tables = record { cuts = []; transforms = []; loom_button = λ p i. none }

-- The villager's screen, as the world has it: a slot for each price and one for the result.
abbrev screen : Mirror
screen = set_trades (new_window_mirror 3 trade_layout) (results villager.offers)

abbrev spot : Container → ℕ → SlotInfo
spot c i = record { container = c; slot = i }

-- One book, to the cursor.
abbrev to_cursor : SlotInfo
to_cursor = spot Container.cursor 0
