-- ===== src/Serve.antt =====
-- internal/handlers/sub, internal/service/sublinks and internal/token: what a subscription link serves.
pub mod Token
pub mod Mihomo
pub mod Handler
pub mod Owner
pub mod Resolves
pub mod Saved
pub mod Links
pub mod Offered
pub mod Titles
