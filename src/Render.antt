-- ===== src/Render.antt =====
-- internal/mihomo/render: one subscriber's proxies and the operator's config as a mihomo document.
pub mod Value
pub mod Resolver
pub mod Groups
pub mod Rules
pub mod Proxies
pub mod Providers
pub mod Document
pub mod Among
pub mod Consistent
