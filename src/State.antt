-- ===== src/State.antt =====
-- internal/state/state.go: the tables of users, machines and grants, and their operations.
pub mod Model
pub mod Target
pub mod Roster
pub mod Grants
pub mod Join
pub mod Alloc
pub mod Saving
pub mod Entries
pub mod Step
pub mod Calls
