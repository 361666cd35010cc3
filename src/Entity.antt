-- ===== src/Entity.antt =====
-- internal/entity: the domain types that the parts share.
pub mod Node
pub mod Panel
pub mod User
pub mod Fleet
