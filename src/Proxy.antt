-- ===== src/Proxy.antt =====
-- app-egress/app.py: the proxy that is the only way of a deployed App to the internet.
mod Slots
mod Decide
mod Counts
mod Admission
mod Permission
mod Examples
