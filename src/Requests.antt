-- ===== src/Requests.antt =====
-- internal/gw/itemstack.go, crafting.go and creative.go: item-stack requests.
pub mod Steps
pub mod Transfers
pub mod Frame
pub mod Clicks
pub mod Crafts
pub mod Creative
pub mod Apply
