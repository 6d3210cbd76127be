-- ===== src/State.antt =====
-- src/state.rs: everything that the controller remembers. `Approved` and `Pending` are the two lists
-- of agents, `Key` is the identity file of either role, `Dir` the paths and the wrappers around them,
-- `Atomic` how a file is replaced while others read it, and `Status` the file that says so of `serve`.
pub mod Text
pub mod Approved
pub mod Pending
pub mod Key
pub mod Dir
pub mod Atomic
pub mod Status
