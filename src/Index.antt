-- ===== src/Index.antt =====
-- src/git.rs and src/controllers/version/yank.rs: the index of crates, a git repository with a file
-- for each crate and in it a line for each version.
--
-- A file is a text; a repository is the state of its remote and of the checkout. What comes of
-- fetching, of the push and of the update of the row is a parameter of each job, and so is the JSON of
-- a line. The jobs return their new state with an error too, as nothing rolls back the files.
pub mod Files
pub mod Jobs
pub mod Yank
pub mod Lines
pub mod Entries
mod Yanked
mod Tests
