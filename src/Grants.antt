-- ===== src/Grants.antt =====
-- team/assistant_human/approval_grants.py: the durable grants of approvals that are asked for once.
mod Grant
mod Rows
mod Canonical
mod Store
mod Effects
mod Revoking
mod Examples
