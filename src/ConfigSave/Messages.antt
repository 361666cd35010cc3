-- ===== src/ConfigSave/Messages.antt =====
-- internal/handlers/config_save/handler.go: the texts for the operator.
use subgen.Prelude.{String, Option, some, none}
use subgen.Mihomo.Errors.{MihomoError}
use subgen.Configs.{ConfigsError}
use subgen.Store.Tables.{StoreError}

-- What can fail: encoding and decoding the request, validation, and the two repositories.
pub data SaveError (E : Type 0) : Type 0 where
  codec : E → SaveError E
  mihomo : MihomoError → SaveError E
  configs : ConfigsError → SaveError E
  store : StoreError → SaveError E

-- The constants Msg* of the validation errors.
unfoldable pub text_of : MihomoError → String
text_of MihomoError.group_name_empty = "Enter a proxy-group name"
text_of MihomoError.group_name_taken = "A proxy-group with this name already exists"
text_of MihomoError.group_unknown_type = "Unknown proxy-group type"
text_of MihomoError.group_no_members = "Empty proxy-group"
text_of MihomoError.group_cycle = "Proxy-groups form a cyclic reference"
text_of MihomoError.group_field_not_allowed = "This field does not apply to this proxy-group type"
text_of MihomoError.bad_ref = "Invalid rule/group-member target"
text_of MihomoError.group_ref_range = "Reference to a non-existent group"
text_of MihomoError.unknown_rule_type = "Unknown rule type"
text_of MihomoError.match_not_last = "The MATCH rule must be last"
text_of MihomoError.rule_value_required = "The rule has no value"
text_of MihomoError.rule_payload_not_allowed = "This rule type does not accept a value"
text_of MihomoError.no_resolve_unsupported = "no-resolve does not apply to this rule type"
text_of MihomoError.children_not_allowed =
    "Nested rules are allowed only for logical rules (AND/OR/NOT)"
text_of MihomoError.not_arity = "NOT must contain exactly one nested rule"
text_of MihomoError.logical_arity = "AND/OR must contain at least two nested rules"
text_of MihomoError.match_child = "MATCH cannot be used as a nested rule"
text_of MihomoError.target_required = "The rule has no target"
text_of MihomoError.child_target = "A nested rule must not have a target"
text_of MihomoError.base_yaml_invalid = "Invalid YAML — check the syntax"
text_of MihomoError.generated_key_present = "Remove the generated sections from the YAML"
text_of MihomoError.provider_name_empty = "Enter a rule-provider name"
text_of MihomoError.provider_bad_behavior = "Unknown rule-provider behavior"
text_of MihomoError.provider_bad_format = "Unknown rule-provider format"
text_of MihomoError.provider_url_empty = "Enter the rule-provider URL"
text_of MihomoError.provider_ref_range = "RULE-SET references a non-existent rule-provider"
text_of MihomoError.profile_title_empty = "Enter the profile title (Profile title)"
text_of MihomoError.profile_filename_empty = "Enter the subscription filename"
text_of MihomoError.profile_filename_invalid =
    "The filename must not contain / \\ or control characters"
text_of MihomoError.profile_update_interval_invalid =
    "Update interval must be a positive number of hours"

-- validationMessage
unfoldable pub validation_message : {E : Type 0} → SaveError E → Option String
unfolding text_of
validation_message (mihomo e) = some (text_of e)
validation_message _ = none
