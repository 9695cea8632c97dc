-- ===== src/Auth.antt =====
-- src/controllers/util.rs, src/controllers/token.rs, src/models/token.rs and src/util/token.rs: who
-- makes a request, and the tokens that say so.
--
-- SHA-256, the random numbers and the clock are parameters; a connection to the database is at hand,
-- and answers every query, unless the database is read-only and the query writes.
pub mod Tokens
pub mod Users
pub mod Routes
pub mod Granted
pub mod Life
pub mod Revoked
mod Tests
