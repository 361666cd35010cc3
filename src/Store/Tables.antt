-- ===== src/Store/Tables.antt =====
-- migrations/*.sql: the tables of the mihomo configs, as the code's queries read and write them. A
-- table is a list of rows in insertion order. A nullable column is an Option, and a column with the
-- value of a Go string type keeps that type.
use subgen.Prelude.Int.{ℤ, int_eq}
use subgen.Prelude.{
  ℕ, String, Bool, true, false, List, [], ◌∷◌, Option, none, some, ◌==◌, string_eq, if◌then◌else◌,
  leb, ltb,
}
use subgen.Mihomo.RuleType.{RuleType}
use subgen.Mihomo.PolicyRef.{PolicyKind}
use subgen.Mihomo.ProxyGroup.{ProxyGroupType, Profile}

-- mihomo_proxy_groups
pub record GroupRow : Type 0 where
  pub id : ℕ
  pub config_id : ℤ
  pub position : ℕ
  pub name : String
  pub type : ProxyGroupType
  pub url : String
  pub interval : Option ℤ
  pub tolerance : Option ℤ
  pub lazy : Option ℕ

-- mihomo_proxy_group_members
pub record MemberRow : Type 0 where
  pub group_id : ℕ
  pub position : ℕ
  pub kind : PolicyKind
  pub inbound_id : Option ℤ
  pub ref_group_id : Option ℕ

-- mihomo_rule_providers
pub record ProviderRow : Type 0 where
  pub id : ℕ
  pub config_id : ℤ
  pub name : String
  pub behavior : String
  pub format : String
  pub mirror : ℕ
  pub url : String
  pub interval : ℤ
  pub mirror_interval : ℤ

-- mihomo_routing_rules
pub record RuleRow : Type 0 where
  pub id : ℕ
  pub config_id : ℤ
  pub parent_id : Option ℕ
  pub position : ℕ
  pub type : RuleType
  pub value : Option String
  pub provider_id : Option ℕ
  pub no_resolve : ℕ
  pub target_kind : Option PolicyKind
  pub inbound_id : Option ℤ
  pub target_group_id : Option ℕ

-- The tables; `inbounds` are the ids of node_inbounds, to which the foreign keys refer.
pub record Db : Type 0 where
  pub groups : List GroupRow
  pub members : List MemberRow
  pub providers : List ProviderRow
  pub rules : List RuleRow
  pub settings : List (ℤ × List (String × String))
  pub profiles : List (ℤ × Profile)
  pub inbounds : List ℤ

-- A failed statement: a violated constraint, or a reference that the code refuses.
pub data StoreError : Type 0 where
  rule_provider_name_taken constraint_failed ref_without_inbound ref_out_of_range : StoreError

-- SELECT … WHERE test
unfoldable pub select {ℓ} : {A : Type ℓ} → (A → Bool) → List A → List A
select test [] = []
select test (r ∷ rs) = let rest = select test rs in if test r then r ∷ rest else rest

-- The row in its place: after those that it does not precede.
unfoldable pub place {ℓ} : {A : Type ℓ} → (A → A → Bool) → A → List A → List A
place le r [] = r ∷ []
place le r (x ∷ xs) = if le r x then r ∷ x ∷ xs else x ∷ place le r xs

-- ORDER BY, where `le a b` tells that a may stand before b.
unfoldable pub order_by {ℓ} : {A : Type ℓ} → (A → A → Bool) → List A → List A
unfolding place
order_by le [] = []
order_by le (r ∷ rs) = place le r (order_by le rs)

-- NULL stands first.
abbrev pub null_le : Option ℕ → Option ℕ → Bool
null_le none b = true
null_le (some a) none = false
null_le (some a) (some b) = leb a b

abbrev pub null_lt : Option ℕ → Option ℕ → Bool
null_lt none none = false
null_lt none (some b) = true
null_lt (some a) none = false
null_lt (some a) (some b) = ltb a b

-- Some name stands twice.
unfoldable pub contains_name : List String → String → Bool
contains_name [] name = false
contains_name (n ∷ ns) name = if n == name then true else contains_name ns name

unfoldable pub has_repeats : List String → Bool
unfolding contains_name
has_repeats [] = false
has_repeats (n ∷ ns) = if contains_name ns n then true else has_repeats ns
