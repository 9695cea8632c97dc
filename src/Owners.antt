-- ===== src/Owners.antt =====
-- src/models/{owner,team,user,rights,krate,crate_owner_invitation}.rs and
-- src/controllers/krate/owners.rs: who owns a crate, who may change that, and how.
--
-- A table is a list of rows; of a row, the columns that this code reads or writes. Every query is
-- answered. A transaction that returns an error leaves the tables as they were, so an operation
-- returns its tables or the error. GitHub's answers, the case conversions, the clock and the
-- random token of an invitation are the fields of `Env`, parameters. The emails that are sent change
-- nothing here.
pub mod Tables
pub mod Teams
pub mod Invitations
pub mod Modify
pub mod Kept
pub mod Accepted
pub mod Rules
pub mod Modified
pub mod Others
pub mod Histories
mod Tests
