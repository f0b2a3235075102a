-- ===== src/Chat.antt =====
-- team/chat_orchestrator.py: the loop between the suspensions of a Brain and the Powers of the
-- Assistants. The Brain runtime and the callbacks of the strategy are outside of this file: they are
-- functions on a world `W`, which may raise. The log records which of them the loop called, the
-- newest first.
pub mod State
mod Requests
mod Drive
mod Ends
mod Batch
mod Distinct
mod Turn
mod Rounds
mod Examples
