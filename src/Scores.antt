-- ===== src/Scores.antt =====
-- internal/gw/scoreboard.go: the session's view of the Java scoreboard.
pub mod Board
pub mod Frames
pub mod Client
pub mod Redraw
pub mod Tables
pub mod Scored
pub mod Kept
pub mod Slots
pub mod Displayed
pub mod Reach
pub mod Lost
