-- ===== src/Lib.antt =====
-- Verification of the Shimpz privilege drivers.
--
-- The Team driver runs Assistants, whose Powers have side effects. A Brain suspends at a batch
-- of Power calls; the driver records each call in a journal before it starts it, and feeds the
-- results back. While a turn waits for a person it is held in memory as a challenge; approvals
-- that are asked for once are kept as grants, and OAuth consents as pending challenges. A
-- deployed App reaches the internet through a proxy alone.
--
-- Prelude passes on the names that the modules share: Boolean tests, lists and results over the
-- native numbers, finite maps (Prelude/Dict), actions on a state that may raise
-- (Prelude/Actions), whole numbers (Prelude/Int), and texts with the identifiers that the code
-- matches by regular expressions (Prelude/Text). Value is a Python object, as a function that
-- takes `object` gets it.
--
-- Challenge models team/challenge_store.py, `ChallengeStore`. State and Store hold the state and its
-- methods, under the same names (`claim_after`, `_available` as `available`, `_expire` as `expire`).
-- A method runs under the lock of the store, so it is one function on the state. The clock is given
-- with each call, in nanoseconds, where the source adds floating-point seconds; the identifiers that
-- `secrets.token_hex` draws are given as a list, and `create` has no result when the list ends before
-- a fresh one. `commit` gives the exception that the callback raises, named by a text, or none.
-- Linked and Valid are the invariant, History the sequences of calls, and Lifecycle, OneUse and Window the properties.
--
-- Sql models the SQLite connection with `isolation_level=None` by what its documentation says: a
-- transaction works on a copy of the tables, which COMMIT makes durable and ROLLBACK drops. Which
-- statements fail is an input, and so is whether SQLite keeps the transaction open or ends it by itself
-- where COMMIT fails. Sql/Durable is a logic for what a block of statements does,
-- Sql/Transaction for how a transaction ends.
--
-- Journal models team/power_journal.py, `PowerJournal`. State and Json hold its values and their
-- checks, Tables its two tables and its SQL statements, Loading and Store the methods, by name. JSON
-- and SHA-256 are the operations of a `Codec`, a parameter. Blocks, Steps and Batches say what the
-- transactions do, Effects what the methods make durable; History is the sequences of calls, and
-- Rows, Kept, Once, Atomic, Delivery, Capacity, Wedged, Shape, Walk and Bounds are the properties.
--
-- Chat models team/chat_orchestrator.py. The Brain client and the callbacks of the strategy act on a
-- world of any type and may raise. State holds the values and the monad, with a log of the calls of
-- `prepare_batch`, `invoke_power`, `resume` and `batch_delivered` that the source does not keep, for
-- the theorems; Requests holds the checks, Drive the functions. `rounds` recurses on the number of
-- rounds that are left, which is that of the `range` of the source; `continue_after_pause` is
-- `drive`. Ends is a logic for the log, and Batch, Distinct, Turn and Rounds are the properties.
--
-- Limits models `_FixedWindowRateLimiter` of team/runtime_state.py over whole nanoseconds. Limiter
-- holds the state and `consume`, Window the invariant, Admission what a call does, Retry the
-- properties.
--
-- Turns models the maps of the active chat turns of team/runtime_state.py, and the blocks under
-- `_active_chat_guard` of team/assistant_human/hosted_chat_api.py and
-- team/assistant_human/hosted_assistants.py that change them. State holds the blocks, each one
-- function; leave_turn also releases the lock of the Team, which the source does right after the
-- block. Steps is the interleavings of turns, Stops and destroys, as a step relation, where a token is
-- one that was not drawn before, and a destroy (team/container_policy/hosted_lifecycle.py) clears the
-- maps of its Team while it has the Team's chat lock; Invariant and Reach hold in every world that it reaches.
--
-- Power models team/power_execution.py. Frames reads Docker's frames from a socket and a clock,
-- which are parameters; the loop of `_read_exact` takes as fuel the bytes that it is asked for,
-- each turn reads one at least, and `read_rpc_frames` takes fuel for one frame a turn, and needs
-- one more than the frames that are sent. Stream and RoundTrip say what a socket that delivers
-- is, and what is read from it; ReadBounds is about any socket. Secrets is the scan and the
-- projection of results, Scan an independent description of it. Generations is the fingerprint
-- of a request and the private state it is bound to, Usable what that state is, Batch is
-- `PowerBatch` over Journal with a log of the executed requests that the source does not keep,
-- Quiet and Once its proofs, and Exchange is `rpc_exchange` over the API of Docker.
--
-- Pkce models team/oauth_pkce_challenges.py, `OAuthPKCEChallengeStore`: Bindings the checks and the
-- map of bindings, Store the methods, Valid the invariant, Expiry what leaves the store, Calls the sequences of calls and Once the one use. SHA-256,
-- the catalogue of team/oauth_providers.py, the clock and the drawn tokens are arguments.
--
-- Grants models team/assistant_human/approval_grants.py, `ApprovalGrantStore`, a second client of Sql.
-- Grant holds the checks of `_identity`, where the characters that Python takes for white space are a
-- parameter, Canonical the arguments, Rows the statements, Store the methods by name; Effects and
-- Revoking say what they make durable.
--
-- Proxy models app-egress/app.py. Slots holds the connection slots, Counts what changes them,
-- Admission the service as a step relation on arrivals and ends of requests; Decide is the way
-- from the headers of a request to its status or its address, over texts as code points, with
-- Python's functions on text and the DNS as parameters, and Permission is what stands behind a
-- connection.
--
-- But for these loops and the draws of identifiers, the functions recurse on their data and need no
-- fuel.
--
-- Not modelled: the files, their permissions and the schema checks with which the journal and
-- the grants open; the type tests that a value of the model's types always passes; the HTTP
-- handlers around the turns; and the rest of the repository, which is mostly HTTP, Docker and
-- Postgres around these parts.
pub mod Prelude
pub mod Value
pub mod Challenge
pub mod Sql
pub mod Journal
pub mod Chat
pub mod Limits
pub mod Turns
pub mod Power
pub mod Pkce
pub mod Grants
pub mod Proxy
