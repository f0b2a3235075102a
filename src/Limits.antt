-- ===== src/Limits.antt =====
-- `_FixedWindowRateLimiter` of team/runtime_state.py. Times are nanoseconds of the monotonic clock.
mod Limiter
mod Window
mod Admission
mod Retry
mod Examples
