-- ===== src/Mihomo/Errors.antt =====
-- internal/mihomo/errors.go: the sentinel errors of decoding and validation.
use subgen.Prelude.{Result}

pub data MihomoError : Type 0 where
  group_name_empty group_name_taken group_unknown_type group_no_members : MihomoError
  group_cycle group_field_not_allowed : MihomoError
  bad_ref group_ref_range : MihomoError
  unknown_rule_type match_not_last rule_value_required rule_payload_not_allowed : MihomoError
  no_resolve_unsupported provider_ref_range : MihomoError
  children_not_allowed not_arity logical_arity match_child : MihomoError
  target_required child_target : MihomoError
  provider_name_empty provider_bad_behavior provider_bad_format provider_url_empty : MihomoError
  base_yaml_invalid generated_key_present : MihomoError
  profile_title_empty profile_filename_empty : MihomoError
  profile_filename_invalid profile_update_interval_invalid : MihomoError

-- A function that returns only an `error`.
abbrev pub Check : Type 0
Check = Result MihomoError (Unit {0})
