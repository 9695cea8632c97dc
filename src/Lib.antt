-- ===== src/Lib.antt =====
-- cargo-website, the server of crates.io: parts of its core logic, and what they guarantee.
--
-- A crate has owners, who may be users or GitHub teams, and only the users among them may change
-- that: they invite others, who accept or decline. A crate is published under a name and with
-- features and keywords that the rules of src/models/krate.rs and src/models/keyword.rs accept. How
-- often a user may publish a new crate is limited by the token bucket of src/publish_rate_limit.rs.
-- Lists of crates are shown page by page, as src/controllers/helpers/pagination.rs reads it from
-- the request. Downloads are counted in memory by src/downloads_counter.rs, which threads increment
-- while another writes its shards to the database. Request bodies and tarballs are read through
-- src/util/io_util.rs.
--
-- Requests pass src/middleware before they are routed. The one that publishes is authenticated by
-- src/controllers/util.rs and changes the tables in one transaction, src/controllers/krate/publish.rs,
-- which stores the tarball and leaves a job; the job adds a line to the index of crates, src/git.rs. A
-- request to yank leaves a job too, which marks the line.
--
-- Base holds what the parts share: results, lists measured by native numbers, texts as lists of code
-- points, machine words, integers, and the decimal numbers of `u32`.
--
-- Names models `Crate::valid_*` and `Keyword::valid_name`; the Unicode tables are a parameter, of which
-- only the ASCII part is known. Names/Rules and Names/Features describe the accepted texts.
--
-- Owners models who owns a crate: Owners/Tables the rows and queries, Owners/Teams the rights of a user
-- and GitHub teams (src/models/user.rs, src/models/team.rs, src/models/owner.rs), Owners/Invitations
-- src/models/crate_owner_invitation.rs, Owners/Modify `owner_add` and `owner_remove` of
-- src/models/krate.rs and `modify_owners` of src/controllers/krate/owners.rs. A transaction returns its
-- tables, or an error and changes nothing. GitHub, the clock, the case conversions and the random token
-- are the fields of a record of parameters, with no hypotheses. Owners/Rules is about rights,
-- Owners/Kept and Owners/Modified about changes of owners, Owners/Accepted about invitations,
-- Owners/Others and Owners/Histories about sequences of changes for any crates.
--
-- Auth models who makes a request: Auth/Tokens src/util/token.rs and src/models/token.rs, Auth/Users
-- src/controllers/util.rs, Auth/Routes the four routes of src/controllers/token.rs. The digest of a
-- token, the random indices and the clock are parameters. Auth/Granted is about who is authenticated,
-- Auth/Life about tokens that are created, Auth/Revoked about tokens that are revoked.
--
-- Publish models `publish` of src/controllers/krate/publish.rs as one transaction: Publish/Tables the
-- rows, Publish/Crates `NewCrate` (src/models/krate.rs), Publish/Versions `NewVersion`
-- (src/models/version.rs), Publish/Dependencies `add_dependencies`, Publish/Linked keywords and
-- categories (src/models/keyword.rs, src/models/category.rs), Publish/Badges src/models/badge.rs,
-- Publish/Tarballs src/uploaders.rs and `Maximums` (src/util.rs), Publish/Routes the handler. The
-- libraries that it calls are the fields of records of parameters. The body is read with a round of the
-- loop for each byte allowed and for the end. Publish/Updated and Publish/Created are about crates, Publish/Allowed about
-- rights, Publish/Added and Publish/Published about versions, Publish/Stored and Publish/Verified about
-- tarballs.
--
-- Index models src/git.rs: Index/Files the place of a crate's file and the states of the remote and of
-- the checkout, Index/Jobs the jobs `add_crate` and `yank`, Index/Yank the request of
-- src/controllers/version/yank.rs. The JSON of a line is a parameter. Index/Lines is about the text of
-- a file, Index/Entries about jobs that succeed, Index/Yanked about all that can come of a yank.
--
-- Versions models `TopVersions` of src/models/version.rs; semver and its order are parameters.
-- Versions/Highest is about the maxima.
--
-- Dump models the order of the tables of src/tasks/dump_db/configuration.rs. Its loop takes a round
-- for each table as fuel; Dump/Occurs counts names, Dump/Release is about the inner loop, Dump/Order
-- about the invariant and the fuel, Dump/Sorted about the result.
--
-- Responses models src/util/errors.rs, src/util/errors/json.rs, `C` of src/router.rs and two files of
-- src/middleware. Responses/Answered is about what a client gets.
--
-- Search models src/controllers/krate/search.rs. Search/Planned is about the queries that can be walked
-- by seek, Search/Walked about the walk, whose fuel is the number of crates and one more.
--
-- Metrics models src/metrics/log_encoder.rs; the outer loop has the number of items as fuel, since each
-- chunk takes one at least. Metrics/Histograms is about counts, Metrics/Chunked about chunks.
--
-- Updating models the job of src/tasks/update_downloads.rs. Updating/Totals says what the totals and
-- the counts are, Updating/Conserved compares them, Updating/Settled, Updating/Frozen and
-- Updating/Finished are about the rows after the job.
--
-- Accounts models src/models/user.rs, src/models/email.rs, src/email.rs, src/controllers/user/me.rs and
-- src/controllers/user/session.rs with the triggers on emails. Accounts/Belongs, Accounts/Kept,
-- Accounts/Written, Accounts/Sound and Accounts/Each show that tokens stay with their addresses,
-- Accounts/Confirmed is about sequences of the operations, Accounts/Saved and Accounts/LoggedIn about
-- logins.
--
-- Middleware models src/middleware/balance_capacity.rs (Middleware/Capacity),
-- src/middleware/block_traffic.rs and src/middleware/require_user_agent.rs (Middleware/Blocked), and
-- src/middleware/normalize_path.rs (Middleware/Paths). Middleware/InFlight is about requests that run
-- together, Middleware/Left and
-- Middleware/Normalized about paths.
--
-- Upload models the checks of src/views/krate_publish.rs on the fields of an upload, over the tests of
-- Names; the parsers of semver are parameters. Upload/Metadata puts the checks together, and
-- Upload/Keywords is about the list of keywords.
--
-- RateLimit models `PublishRateLimit`. A table is a function from the user's id; times are integers,
-- in microseconds, where the code's query divides doubles. RateLimit/Bounds is about one call of
-- `take_token`, RateLimit/Bursts about any sequence of calls.
--
-- Pagination models `PaginationOptions`, its builder and `Paginated`, with the wrap-around of `u32`.
-- Pagination/Gather is about the requests, Pagination/Walk about the links and the windows of rows.
--
-- Downloads models `DownloadsCounter`: `increment`, `persist_all_shards`, `persist_next_shard` and
-- `persist_shard`, with `PersistStats`. The assignment of versions to shards is a parameter, and so is
-- whether each query succeeds; `usize` and `i64` arithmetic wraps, and the cast of a count to `i32` is
-- written out. Downloads/Counts is about the map, Downloads/Writing, Downloads/Stored and
-- Downloads/Order about the rows, Downloads/Persist about what a call leaves behind, Downloads/EndToEnd
-- about increments and rows together, and Downloads/Interleaving about threads.
--
-- Io models `read_fill`, `read_le_u32` and `LimitErrorReader`. A reader is the sequence of what its
-- calls of `read` find. The loop of `read_fill` runs on fuel, the length of the buffer, as each round
-- fills a byte at least; `read_to_end` needs a round for each byte up to the limit and one for the end.
-- Io/Fill, Io/LittleEndian and Io/Limit are about these three.
--
-- Not modelled: SQL beyond the queries above and the triggers of the database, among it the views, the
-- network, credentials and the squashing of the index, the rendering of readmes, the scripts of a
-- dump of the database, what the pages show of a crate or a version, the transport of mails,
-- and the libraries that the code calls.
--
-- The modules called Tests hold runs on concrete data.
pub mod Base
pub mod Names
pub mod Owners
pub mod Updating
pub mod Upload
pub mod Downloads
pub mod RateLimit
pub mod Pagination
pub mod Io
pub mod Auth
pub mod Publish
pub mod Index
pub mod Middleware
pub mod Versions
pub mod Dump
pub mod Accounts
pub mod Search
pub mod Metrics
pub mod Responses
