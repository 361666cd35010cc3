-- ===== src/Ruleset/Check.antt =====
-- internal/service/ruleset/check.go and internal/entity/ruleset_check.go: the probe of a URL.
use Prim.Native.Char.{code}
use Prim.Native.String.{[] as empty, ◌∷◌ as rune}
use subgen.Prelude.Int.{ℤ, pos, int_eq}
use subgen.Prelude.Lists.{length}
use subgen.Prelude.Text.{trim_space, lower_is, split_on, starts_with}
use subgen.Prelude.{
  ℕ, String, Bool, false, ◌&&◌, ◌||◌, not, List, [], ◌∷◌, Option, none, some, ◌==◌, string_eq,
  if◌then◌else◌, nat_eqb,
}
use subgen.Ruleset.Mirror.{Bytes, limited}

-- RulesetCheckOutcome
pub data Outcome : Type 0 where
  fine unreachable http_error no_content format_mismatch : Outcome

-- RulesetCheckResult
pub record CheckResult : Type 0 where
  pub outcome : Outcome
  pub status : ℤ
  pub size : ℕ
  pub detail : String

-- What a GET of the URL comes to: the text of the error that makes no request of it, that of the client,
-- a status with a body, or a status with a body whose first 32 MiB cannot be read, and the text of that error.
pub data Probe : Type 0 where
  no_request no_response : String → Probe
  answered : ℤ → Bytes → Probe
  cut : ℤ → String → Probe

-- The text after the space, if one comes first.
abbrev after_space : String → Option String
after_space empty = none
after_space (rune c s) = if nat_eqb (code c) 0x20 then some s else none

abbrev or_else : Option String → Option String → Option String
or_else none b = b
or_else (some a) b = some a

-- The text after the last ": ".
unfoldable pub after_last : String → Option String
after_last empty = none
after_last (rune c s) =
    or_else (after_last s) (if nat_eqb (code c) 0x3a then after_space s else none)

abbrev or_whole : String → Option String → String
or_whole msg none = msg
or_whole msg (some t) = if t == "" then msg else t

-- netDetail
unfoldable pub net_detail : String → String
unfolding after_last
net_detail msg = or_whole msg (after_last msg)

-- isZstd
unfoldable pub is_zstd : Bytes → Bool
is_zstd (a ∷ b ∷ c ∷ d ∷ rest) =
    nat_eqb a 0x28 && nat_eqb b 0xb5 && nat_eqb c 0x2f && nat_eqb d 0xfd
is_zstd _ = false

-- The condition of the loop of isRuleText.
abbrev pub is_rule_line : String → Bool
is_rule_line line = not (trim_space line == "") && not (starts_with 0x23 (trim_space line))

unfoldable pub any_rule_line : List String → Bool
unfolding trim_space starts_with
any_rule_line [] = false
any_rule_line (l ∷ ls) = is_rule_line l || any_rule_line ls

abbrev text_ok : Option String → Bool
text_ok none = false
text_ok (some s) =
    if (trim_space s == "") || starts_with 0x3c (trim_space s)
    then false
    else any_rule_line (split_on 0x0a (trim_space s))

-- isRuleText; `text_of` is the text of bytes that are valid UTF-8.
unfoldable pub is_rule_text : (Bytes → Option String) → Bytes → Bool
unfolding trim_space starts_with any_rule_line split_on
is_rule_text text_of b = text_ok (text_of b)

abbrev payload_ok : Option (Option Bool) → Bool
payload_ok none = false
payload_ok (some none) = false
payload_ok (some (some is_list)) = is_list

-- isRuleProviderYAML; `payload_of` is what yaml.Unmarshal finds: none for an error, then whether the key
-- payload is there, and whether its value is a list.
unfoldable pub is_rule_provider_yaml : (Bytes → Option (Option Bool)) → Bytes → Bool
is_rule_provider_yaml payload_of b = payload_ok (payload_of b)

-- 32<<20
abbrev pub probe_limit : ℕ
probe_limit = 33554432

abbrev result : Outcome → ℤ → ℕ → String → CheckResult
result outcome status size detail = record {
  outcome = outcome;
  status = status;
  size = size;
  detail = detail;
}

module _ (text_of : Bytes → Option String) (payload_of : Bytes → Option (Option Bool)) where
  -- matchesFormat
  unfoldable pub matches_format : Bytes → String → Bool
  unfolding lower_is is_zstd is_rule_text is_rule_provider_yaml
  matches_format b format =
      if lower_is format "mrs"
      then is_zstd b
      else if lower_is format "yaml"
      then is_rule_provider_yaml payload_of b
      else is_rule_text text_of b

  -- What is found in the bytes that were read.
  abbrev pub check_bytes : ℤ → Bytes → String → CheckResult
  check_bytes status [] format = result no_content (pos 0) 0 ""
  check_bytes status (b ∷ bs) format =
      if matches_format (b ∷ bs) format
      then result fine status (length (b ∷ bs)) ""
      else result format_mismatch (pos 0) (length (b ∷ bs)) ""

  -- Checker.Check
  unfoldable pub check : Probe → String → CheckResult
  unfolding net_detail limited matches_format
  check (no_request e) format = result unreachable (pos 0) 0 e
  check (no_response e) format = result unreachable (pos 0) 0 (net_detail e)
  check (answered status body) format =
      if status == pos 200
      then check_bytes status (limited probe_limit body) format
      else result http_error status 0 ""
  check (cut status e) format =
      if status == pos 200 then result unreachable (pos 0) 0 e else result http_error status 0 ""
