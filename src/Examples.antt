-- ===== src/Examples.antt =====
-- Runs of the modelled code on concrete data.
pub mod Data
pub mod Requests
pub mod Reports
pub mod Runs
pub mod Queue
pub mod Prunes
pub mod Slots
pub mod Reconciles
pub mod Deriveds
pub mod PathTexts
pub mod Attempts
pub mod Fasts
pub mod Passes
pub mod Watching
pub mod Activities
