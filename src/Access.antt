-- ===== src/Access.antt =====
-- Who may use the HTTP API, and how often: the rate limit of app/routes.py, the keys of app/admin.py,
-- and the request that starts a call.
pub mod RateLimit
pub mod Keys
pub mod Requests
pub mod Calls
