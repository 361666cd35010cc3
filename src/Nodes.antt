-- ===== src/Nodes.antt =====
-- internal/service/nodes and internal/handlers/node_save: nodes are validated and stored.
pub mod Text
pub mod Names
pub mod Validate
pub mod Accepts
pub mod Service
pub mod Kept
pub mod Answers
pub mod Label
