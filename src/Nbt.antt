-- ===== src/Nbt.antt =====
-- internal/gw/nbtjava.go: the reader of Java's network NBT.
pub mod Reader
pub mod Read
pub mod Ends
pub mod Within
pub mod Delimited
pub mod Written
pub mod Exact
pub mod RoundTrip
