-- ===== src/Session.antt =====
-- unigateway-session: stored prefixes of conversations, and the assembly of delta requests.
pub mod Lifetime
pub mod Keys
pub mod Limits
pub mod Store
pub mod Middleware
