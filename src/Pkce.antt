-- ===== src/Pkce.antt =====
-- team/oauth_pkce_challenges.py: the pending OAuth consents of the hosted Controller, each used once.
mod Bindings
mod Store
mod Valid
mod Expiry
mod Calls
mod Once
mod Examples
