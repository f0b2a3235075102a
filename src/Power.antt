-- ===== src/Power.antt =====
-- team/power_execution.py: one Power, from its fingerprint to its answer.
mod Frames
mod Stream
mod RoundTrip
mod ReadBounds
mod Secrets
mod Scan
mod Generations
mod Usable
mod Batch
mod Quiet
mod Once
mod Exchange
mod Examples
mod Witnesses
