-- ===== src/Trades.antt =====
-- internal/gw/trades.go: the offers of a merchant screen.
pub mod Offers
pub mod RoundTrip
pub mod Rows
