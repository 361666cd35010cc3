-- ===== src/Mihomo.antt =====
-- internal/mihomo: the model of an operator's routing config, its validation and its decoding.
pub mod Errors
pub mod RuleType
pub mod PolicyRef
pub mod ProxyGroup
pub mod Draft
pub mod Cycle
pub mod Shape
pub mod RoutingRule
pub mod Decode
pub mod Groups
pub mod Validate
