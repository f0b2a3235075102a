-- ===== src/Challenge.antt =====
-- team/challenge_store.py: the bounded, Team-bound, one-use store of challenges with a time limit,
-- which keeps the paused chat turns of the Controllers. Times are nanoseconds of the monotonic clock;
-- `secrets.token_hex(16)` is the list of its draws.
pub mod State
mod Store
pub mod Linked
pub mod Valid
pub mod History
pub mod Lifecycle
pub mod OneUse
pub mod Window
mod Examples
