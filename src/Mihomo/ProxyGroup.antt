-- ===== src/Mihomo/ProxyGroup.antt =====
-- internal/mihomo/proxy_group.go, routing.go and profile.go: proxy-groups, rule-providers, profile.
use subgen.Prelude.Int.{ℤ}
use subgen.Prelude.Enum.{of_name, name-of_name}
use subgen.Prelude.{String, ◌≡◌, refl, Bool, true, false, List, [], ◌∷◌, Option}
use subgen.Mihomo.PolicyRef.{PolicyRef}

pub data ProxyGroupType : Type 0 where
  select url_test fallback load_balance relay : ProxyGroupType
  unknown : String → ProxyGroupType

-- ProxyGroupType.String()
unfoldable pub to_string : ProxyGroupType → String
to_string select = "select"
to_string url_test = "url-test"
to_string fallback = "fallback"
to_string load_balance = "load-balance"
to_string relay = "relay"
to_string (unknown s) = s

abbrev pub proxy_group_types : List ProxyGroupType
proxy_group_types = select ∷ url_test ∷ fallback ∷ load_balance ∷ relay ∷ []

-- ProxyGroupType(s)
unfoldable pub of_string : String → ProxyGroupType
unfolding to_string of_name
of_string = of_name to_string unknown proxy_group_types

-- The conversion of a string to a group type and back returns the string.
pub to_string-of_string : (s : String) → to_string (of_string s) ≡ s
unfolding of_string
to_string-of_string = name-of_name to_string unknown (λ s. refl) proxy_group_types

pub record ProxyGroupTypeOptions : Type 0 where
  pub health_check : Bool
  pub tolerance : Bool

-- The registry `proxyGroupTypes`: a type that it lacks has the zero options.
unfoldable pub options : ProxyGroupType → ProxyGroupTypeOptions
options url_test = record { health_check = true; tolerance = true }
options fallback = record { health_check = true; tolerance = false }
options load_balance = record { health_check = true; tolerance = false }
options _ = record { health_check = false; tolerance = false }

-- ProxyGroupType.Valid()
unfoldable pub valid : ProxyGroupType → Bool
valid (unknown s) = false
valid _ = true

unfoldable pub uses_health_check : ProxyGroupType → Bool
unfolding options
uses_health_check t = (options t).health_check

unfoldable pub uses_tolerance : ProxyGroupType → Bool
unfolding options
uses_tolerance t = (options t).tolerance

pub record ProxyGroup : Type 0 where
  pub id : ℤ
  pub position : ℤ
  pub name : String
  pub type : ProxyGroupType
  pub url : String
  pub interval : Option ℤ
  pub tolerance : Option ℤ
  pub lazy : Option Bool
  pub members : List PolicyRef

pub record RuleProvider : Type 0 where
  pub id : ℤ
  pub name : String
  pub behavior : String
  pub format : String
  pub mirror : Bool
  pub url : String
  pub interval : ℤ
  pub mirror_interval : ℤ

unfoldable pub rule_provider_behaviors : List String
rule_provider_behaviors = "domain" ∷ "ipcidr" ∷ "classical" ∷ []

unfoldable pub rule_provider_formats : List String
rule_provider_formats = "mrs" ∷ "yaml" ∷ "text" ∷ []

unfoldable pub generated_keys : List String
generated_keys = "proxies" ∷ "proxy-groups" ∷ "rules" ∷ "rule-providers" ∷ "sub-rules" ∷ []

pub record Profile : Type 0 where
  pub title : String
  pub filename : String
  pub update_interval : ℤ
