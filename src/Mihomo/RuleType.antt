-- ===== src/Mihomo/RuleType.antt =====
-- internal/mihomo/routing_rule.go: the rule types and their registry. A Go `RuleType` is a string;
-- here it is a known type or `unknown` with its text, and `of_string` is Go's conversion.
use subgen.Prelude.Enum.{of_name, name-of_name}
use subgen.Prelude.{String, ◌≡◌, refl, Bool, true, false, List, [], ◌∷◌, string_eq}

pub data RuleType : Type 0 where
  domain domain_suffix domain_keyword domain_regex domain_wildcard geosite : RuleType
  ip_cidr ip_cidr6 ip_suffix ip_asn geoip src_geoip src_ip_cidr : RuleType
  src_port dst_port in_port in_type in_name in_user : RuleType
  src_ip_asn src_ip_suffix : RuleType
  process_name process_name_wild process_path process_path_wild process_name_regex : RuleType
  network dscp uid : RuleType
  rule_set match_all : RuleType
  and or not : RuleType
  unknown : String → RuleType

-- String(): the wire value.
unfoldable pub to_string : RuleType → String
to_string domain = "DOMAIN"
to_string domain_suffix = "DOMAIN-SUFFIX"
to_string domain_keyword = "DOMAIN-KEYWORD"
to_string domain_regex = "DOMAIN-REGEX"
to_string domain_wildcard = "DOMAIN-WILDCARD"
to_string geosite = "GEOSITE"
to_string ip_cidr = "IP-CIDR"
to_string ip_cidr6 = "IP-CIDR6"
to_string ip_suffix = "IP-SUFFIX"
to_string ip_asn = "IP-ASN"
to_string geoip = "GEOIP"
to_string src_geoip = "SRC-GEOIP"
to_string src_ip_cidr = "SRC-IP-CIDR"
to_string src_port = "SRC-PORT"
to_string dst_port = "DST-PORT"
to_string in_port = "IN-PORT"
to_string in_type = "IN-TYPE"
to_string in_name = "IN-NAME"
to_string in_user = "IN-USER"
to_string src_ip_asn = "SRC-IP-ASN"
to_string src_ip_suffix = "SRC-IP-SUFFIX"
to_string process_name = "PROCESS-NAME"
to_string process_name_wild = "PROCESS-NAME-WILDCARD"
to_string process_path = "PROCESS-PATH"
to_string process_path_wild = "PROCESS-PATH-WILDCARD"
to_string process_name_regex = "PROCESS-NAME-REGEX"
to_string network = "NETWORK"
to_string dscp = "DSCP"
to_string uid = "UID"
to_string rule_set = "RULE-SET"
to_string match_all = "MATCH"
to_string and = "AND"
to_string or = "OR"
to_string not = "NOT"
to_string (unknown s) = s

pub record RuleTypeOptions : Type 0 where
  pub takes_provider : Bool
  pub supports_no_resolve : Bool
  pub logical : Bool

abbrev plain : RuleTypeOptions
plain = record { takes_provider = false; supports_no_resolve = false; logical = false }

abbrev with_no_resolve : RuleTypeOptions
with_no_resolve = record plain { supports_no_resolve = true }

-- The keys of the registry `ruleTypes`.
abbrev pub rule_types : List RuleType
rule_types =
    domain ∷ domain_suffix ∷ domain_keyword ∷ domain_regex ∷ domain_wildcard ∷ geosite ∷ ip_cidr
    ∷ ip_cidr6 ∷ ip_suffix ∷ ip_asn ∷ geoip ∷ src_geoip ∷ src_ip_cidr ∷ src_ip_asn ∷ src_ip_suffix
    ∷ src_port ∷ dst_port ∷ in_port ∷ in_type ∷ in_name ∷ in_user ∷ process_name ∷ process_name_wild
    ∷ process_path ∷ process_path_wild ∷ process_name_regex ∷ network ∷ dscp ∷ uid ∷ rule_set
    ∷ match_all ∷ and ∷ or ∷ not ∷ []

-- The registry `ruleTypes`: a type that it lacks has the zero options, as in a Go map.
unfoldable pub options : RuleType → RuleTypeOptions
options ip_cidr = with_no_resolve
options ip_cidr6 = with_no_resolve
options ip_suffix = with_no_resolve
options ip_asn = with_no_resolve
options geoip = with_no_resolve
options rule_set = record { takes_provider = true; supports_no_resolve = true; logical = false }
options and = record plain { logical = true }
options or = record plain { logical = true }
options not = record plain { logical = true }
options _ = plain

-- Valid(): the registry has the type.
unfoldable pub valid : RuleType → Bool
valid (unknown s) = false
valid _ = true

unfoldable pub is_match : RuleType → Bool
is_match match_all = true
is_match _ = false

unfoldable pub is_not : RuleType → Bool
is_not not = true
is_not _ = false

unfoldable pub is_logical : RuleType → Bool
unfolding options
is_logical t = (options t).logical

unfoldable pub takes_provider : RuleType → Bool
unfolding options
takes_provider t = (options t).takes_provider

unfoldable pub supports_no_resolve : RuleType → Bool
unfolding options
supports_no_resolve t = (options t).supports_no_resolve

-- RuleType(s)
unfoldable pub of_string : String → RuleType
unfolding to_string of_name
of_string = of_name to_string unknown rule_types

-- The conversion of a string to a rule type and back returns the string.
pub to_string-of_string : (s : String) → to_string (of_string s) ≡ s
unfolding of_string
to_string-of_string = name-of_name to_string unknown (λ s. refl) rule_types

of_string-to_string : (t : RuleType) → valid t ≡ true → of_string (to_string t) ≡ t
unfolding of_string valid
of_string-to_string (unknown s) h = cc
of_string-to_string domain h = refl
of_string-to_string _ h = refl
