-- ===== src/Skulls.antt =====
-- internal/gw/skulls.go: the cache of player heads, each shown by a fake player.
pub mod Poses
pub mod Cache
pub mod Visible
pub mod Steps
pub mod Players
pub mod Culls
pub mod Heads
pub mod Kept
pub mod Reach
pub mod Chunks
pub mod Standing
pub mod Written
pub mod Ranks
pub mod Range
pub mod Nearest
