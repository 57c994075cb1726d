-- ===== src/Command.antt =====
-- cmd/snmptune/main.go: the command line, and the run behind it.
pub mod Setting
pub mod Options
pub mod Prepare
pub mod Main
pub mod Complete
pub mod Rooted
pub mod Walkable
pub mod Ends
pub mod Exits
pub mod Checked
pub mod Tries
pub mod TryBounds
