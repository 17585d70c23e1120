-- ===== src/Docs.antt =====
-- The scripts of the generated documentation, docs/js. A text of theirs is a list of code units.
pub mod Search
pub mod Loading
pub mod Page
pub mod Navigation
pub mod Tree
pub mod Session
pub mod Toc
pub mod Frame
pub mod Unfold
pub mod Summary
pub mod Resizer
pub mod Setup
pub mod Start
pub mod Reveal
pub mod Constants
