-- ===== src/Mihomo/RoutingRule.antt =====
-- internal/mihomo/routing_rule.go: the stored routing rule, with references by id.
use subgen.Prelude.Int.{ℤ}
use subgen.Prelude.{String, Bool, Option}
use subgen.Mihomo.RuleType.{RuleType}
use subgen.Mihomo.PolicyRef.{PolicyRef}

-- The fields of a RoutingRule but for its children.
pub record RoutingFields : Type 0 where
  pub id : ℤ
  pub position : ℤ
  pub type : RuleType
  pub value : Option String
  pub provider_id : Option ℤ
  pub no_resolve : Option Bool
  pub target : Option PolicyRef

mutual
  pub data RoutingRule : Type 0 where
    rule : RoutingFields → RoutingRules → RoutingRule

  -- []RoutingRule
  pub data RoutingRules : Type 0 where
    nil : RoutingRules
    cons : RoutingRule → RoutingRules → RoutingRules
