-- ===== src/Journal.antt =====
-- team/power_journal.py: the durable journal that makes each side effect of a Power happen at most
-- once. `json`, `hashlib` and SQLite are outside the repository: the first two are the operations of a
-- `Codec`, and the connection is that of `Sql`.
pub mod Json
pub mod State
pub mod Tables
pub mod Loading
pub mod Store
mod Blocks
mod Steps
mod Batches
mod Effects
mod Rows
pub mod History
mod Kept
pub mod Once
mod Atomic
mod Delivery
mod Capacity
mod Wedged
mod Shape
mod Walk
mod Bounds
mod Examples
