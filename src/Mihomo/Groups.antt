-- ===== src/Mihomo/Groups.antt =====
-- internal/mihomo/validate.go: `ValidateProxyGroups` and `ValidateBaseYAML`.
pub mod Accepts
use subgen.Prelude.Lists
use subgen.Prelude.{
  ℕ, String, Bool, List, [], ◌∷◌, ok, ◌>>◌, reject_if, Option, none, some, err, true, false, ◌||◌,
}
use subgen.Mihomo.Errors.{MihomoError, Check}
use subgen.Mihomo.Draft.{RefDraft, GroupDraft, valid_group}
use subgen.Mihomo.Validate.{validate_ref, slice_set}
use subgen.Mihomo.Cycle.{cyclic_groups}
use subgen.Mihomo.ProxyGroup.{generated_keys}

-- The loop over the members of a group.
unfoldable pub validate_members : List RefDraft → ℕ → Check
validate_members [] num_groups = ok tt
validate_members (m ∷ ms) num_groups =
    let rest = validate_members ms num_groups in validate_ref m num_groups >> rest

-- The loop over the groups; `seen` holds the names of the groups before.
unfoldable pub validate_groups : List String → List GroupDraft → ℕ → Check
unfolding slice_set validate_members
validate_groups seen [] num_groups = ok tt
validate_groups seen (g ∷ gs) num_groups =
    let rest = validate_groups (g.name ∷ seen) gs num_groups in
    valid_group g
    >> (reject_if (slice_set seen g.name) MihomoError.group_name_taken
        >> (validate_members g.members num_groups >> rest))

-- ValidateProxyGroups
unfoldable pub validate_proxy_groups : List GroupDraft → Check
unfolding validate_groups
validate_proxy_groups groups =
    validate_groups [] groups (Lists.length groups)
    >> reject_if (cyclic_groups groups) MihomoError.group_cycle

-- Some generated key is among the keys of the base YAML.
unfoldable pub has_generated : List String → List String → Bool
unfolding slice_set
has_generated keys [] = false
has_generated keys (k ∷ ks) = slice_set keys k || has_generated keys ks

-- ValidateBaseYAML, for `top_keys`, the top-level keys that yaml.Unmarshal finds in a text that it parses.
unfoldable pub validate_base_yaml : (String → Option (List String)) → String → Check
unfolding has_generated generated_keys
validate_base_yaml top_keys base = elim (top_keys base) [
  | none ↦ err MihomoError.base_yaml_invalid
  | some keys ↦ reject_if (has_generated keys generated_keys) MihomoError.generated_key_present
]
