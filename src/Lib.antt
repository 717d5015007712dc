-- ===== src/Lib.antt =====
-- A verification library for myr, a terminal client for MySQL and MariaDB. It models the program's
-- core crate, which has the logic between the screen and the server (what may be sent, what is
-- built to be sent, how rows come back, what the screen offers), and of the tui crate the logic of
-- the application behind the screen: the connection wizard, the query editor, the pages of a
-- preview, and the session with its query worker and its connection worker.
--
-- How the parts interact. The screen gives the actions engine a context and asks it to rank the
-- actions or to invoke one. An invocation may be a statement, which the SQL generator has built
-- from the selected names, or which the user has typed. Before a statement goes out the safe-mode
-- guard assesses it and may ask for a confirmation, by a token. The query runner starts it on the
-- connection that the connection manager holds and streams its rows into the results buffer. The
-- schema cache answers what databases, tables, columns and related tables there are. The session
-- of the application holds these together: a profile comes from the wizard or from the saved
-- profiles, a connection worker answers with a connection or an error, a statement that the
-- user or an action gives passes the read-only mark of the profile and the guard before the query
-- worker gets it, and a failure is retried, answered with a new connection, or shown.
--
-- The files:
--   Prelude        what all parts share: tests, lists, machine words, association lists, sorting,
--                  and text as a list of Unicode scalar values with the methods of `str` that the
--                  program calls (Prelude/Text), each by its documented behaviour.
--   SafeMode       crates/core/src/safe_mode.rs. Scan: `split_statements`; the five flags, the
--                  current text and the statements are the fields of `Scanner`, one round of the
--                  loop is `step`, and `chars.peek()` is the head of the rest. Scan/Grammar says
--                  what SQL text looks like without reference to the scanner. Assess:
--                  `assess_sql_safety` and the keyword lists. Guard: `SafeModeGuard` with
--                  `evaluate`, `confirm`, `set_enabled`; Guard/Trace has sequences of calls.
--   SqlGenerator   crates/core/src/sql_generator.rs, one function for each of its functions.
--                  Numeric: which texts Rust's `parse` takes for numbers. Quoting: how a server
--                  reads quotes.
--   ResultsBuffer  crates/core/src/results_buffer.rs.
--   Actions        crates/core/src/actions_engine, a module for each of its files: Catalog,
--                  Invocation, Suggestions, Snippets (with context.rs), Enablement, Ranking, Engine.
--   QueryRunner    crates/core/src/query_runner.rs, `execute_streaming`. The token of a cancellation
--                  is what `is_cancelled` answers each time.
--   SchemaCache    crates/core/src/schema_cache: the service, and Relationships.
--   NamedStore     what profiles.rs and bookmarks.rs write out alike for their own records: lookup,
--                  saving, deletion, and what loading does to the document's records.
--   Profiles       crates/core/src/profiles.rs: the profile and the store `FileProfilesStore`
--                  as its list of profiles, with the marks of the default profile and of the one to
--                  reconnect to.
--   Bookmarks      crates/core/src/bookmarks.rs: the store as its list of bookmarks.
--   ConnectionManager  crates/core/src/connection_manager.rs.
--   AuditTrail     crates/core/src/audit_trail.rs: `append` with its rotation, on the trail and its
--                  archives as numbered files.
--   Tui/Wizard     crates/tui/src/state/wizard.rs, the form's edits in app_logic/input.rs,
--                  `wizard_profile` and what connecting saves in app_logic/runtime/connect.rs,
--                  `wizard_form_from_profile` in app_logic/default.rs.
--   Tui/Editor     crates/tui/src/app_logic/input.rs: the text, the cursor as an offset in bytes,
--                  and the history, with the helpers of lib_helpers.rs. The code slices texts at
--                  byte offsets; a slice that is not at a character is a panic.
--   Tui/Pagination crates/tui/src/app_logic/query_actions/pagination.rs and state/pagination.rs.
--   Tui/Session    crates/tui/src/app_logic: query_actions/query_execution.rs and the part of
--                  `TuiApp` it works on. Polls: `poll_query_result` of runtime/query.rs.
--                  Connections: `poll_connect_result` of runtime/connect.rs and `on_tick` of
--                  runtime/handle.rs. Input: what the user sets off (connecting, statements, pages,
--                  confirmations, cancelling, the error panel). Cancel: what cancelling leaves.
--                  Dispatch: what `apply_invocation` has sent to a query worker. Starts: which
--                  workers the ticks start on their own.
-- The modules named Examples apply the theorems at concrete inputs.
--
-- Parameters. The hash of Rust's standard library is a function of which nothing is assumed. The
-- row stream, the connection backend and the schema backend are records of functions or functions
-- that may answer anything; the cancellation flag is what each reading of it finds, the clock what
-- each reading gives. State is passed explicitly; errors are values. A map is an association list,
-- and a `panic` is `none`. What a worker of the session sends is an argument of the poll, and so is
-- the selection that the explorer makes on a new connection; what the session sets off (workers,
-- audit records, cancellations) is a list of effects, the last one first. A receiver is the mark
-- that its worker is awaited. Which calls on files are refused is a function of the call. A server
-- that answers pages by offset is a parameter of the theorem on pages, with this answer as its
-- hypothesis.
--
-- Numbers are natural numbers. `usize` has 64 bits. The counters of the results buffer and of the
-- streamed rows wrap at 2^64, those of the guard and of the recent use saturate, as in the source.
-- The only loop on fuel is that of the query runner, since a server may send rows without end: as
-- many turns as the stream has rows and one more are enough. The theorem on pages by offset turns
-- as many pages as the table has rows, which is enough since each page but the last is full and a
-- page has a row at least. The theorem on failures has eight rounds: each one lowers a measure of
-- the attempts that are left, at most five for a query and three for a connection.
-- `sort_by` is an insertion sort; where the source sorts with `sort_unstable_by`, relationships
-- that compare equal keep their order in the model, which the source leaves open.
--
-- Not modelled: files and TOML documents (reading and persisting the two stores, the migration of
-- old documents, the default paths, the JSON text of an audit record), the MySQL driver and its adapter,
-- exports, the rendering of the screen with its status line, the navigation of the explorer, of
-- the results and of the manager, the health diagnostics, the question on leaving, the command line
-- and the benchmark.
pub mod Prelude
pub mod SafeMode
pub mod SqlGenerator
pub mod Tui
pub mod ResultsBuffer
pub mod Actions
pub mod QueryRunner
pub mod SchemaCache
pub mod Profiles
pub mod ConnectionManager
pub mod Bookmarks
pub mod NamedStore
pub mod AuditTrail
