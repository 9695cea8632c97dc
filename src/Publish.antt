-- ===== src/Publish.antt =====
-- src/controllers/krate/publish.rs, and what it calls of src/models/{krate,version,action,dependency,
-- keyword,category,badge,email}.rs and of src/uploaders.rs: publishing a version.
--
-- A table is a list of rows; of a row, the columns that this code reads or writes. Triggers, and the
-- times and counts that they keep, are left out. Every query is answered. An operation that fails
-- returns its error and no tables, as its transaction is rolled back.
pub mod Tables
pub mod Crates
pub mod Versions
pub mod Dependencies
pub mod Badges
pub mod Linked
pub mod Tarballs
pub mod Routes
pub mod Created
mod Updated
pub mod Added
pub mod Allowed
pub mod Stored
pub mod Published
pub mod Verified
mod Sample
mod Tests
