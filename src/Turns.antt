-- ===== src/Turns.antt =====
-- The active chat turns of the hosted Controller: the maps of team/runtime_state.py under
-- `_active_chat_guard`, and the places of team/assistant_human/hosted_chat_api.py and
-- team/assistant_human/hosted_assistants.py that change them. Each block under the guard is one step.
mod State
mod Steps
mod Invariant
mod Reach
mod Examples
