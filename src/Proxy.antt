-- ===== src/Proxy.antt =====
-- The directory proxy, less target-policy.ts.
pub mod Headers
pub mod Service
pub mod Controller
