-- ===== src/Tags.antt =====
-- The tag domain of DataManager: the tables and counts (Store), tag sets and their upgrade
-- (tag_set_q.go), aliases (alias.go) and parents (parent.go).
pub mod Error
pub mod Syntax
pub mod TextSets
pub mod Family
pub mod Store
pub mod Alias
pub mod Parent
mod Examples
