-- ===== src/Tests.antt =====
-- Runs at concrete windows and requests.
pub mod Windows
pub mod Requests
pub mod Sessions
pub mod Shows
pub mod Cracks
pub mod Maps
pub mod Nbt
pub mod Skulls
pub mod Scores
pub mod Trades
pub mod Books
