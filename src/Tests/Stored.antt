-- ===== src/Tests/Stored.antt =====
-- A config that is saved beside another one, and loaded.
use subgen.Prelude.Int.{pos}
use subgen.Prelude.{
  ℕ, ◌+◌, ◌≡◌, ◌≢◌, refl, arith, String, Bool, true, [], ◌∷◌, none, some, Result, ok, err,
}
use subgen.Mihomo.RuleType.{RuleType}
use subgen.Mihomo.PolicyRef.{PolicyKind}
use subgen.Mihomo.ProxyGroup.{ProxyGroupType, RuleProvider}
use subgen.Mihomo.Draft.{ConfigDraft}
use subgen.Store.Tables.{GroupRow, MemberRow, RuleRow, Db, StoreError, ref_out_of_range}
use subgen.Store.Save.{save_mihomo_config, drop_config, max_rule_id}
use subgen.Store.Load.{proxy_groups, rules, rule_providers, profile, setting}
use subgen.Store.Forest.{stored}
use subgen.Store.Members.{ids_from, Increasing}
use subgen.Store.Groups.{stored_groups}
use subgen.Store.Providers.{stored_providers, by_name}
use subgen.Store.Roundtrip.{save-load}
use subgen.Store.Frame.{save-frame}
use subgen.Tests.Drafts.{chain, rules as rule_drafts}

abbrev provider : RuleProvider
provider = record {
  id = pos 0;
  name = "ads";
  behavior = "domain";
  format = "text";
  mirror = true;
  url = "https://a.example/ads.txt";
  interval = pos 3600;
  mirror_interval = pos 600;
}

abbrev draft : ConfigDraft
draft = record {
  groups = chain;
  rules = rule_drafts;
  providers = provider ∷ [];
  base_yaml = "mode: rule";
  profile = record { title = "home"; filename = "home.yaml"; update_interval = pos 24 };
}

abbrev pub base_group : GroupRow
base_group = record {
  id = 3;
  config_id = pos 1;
  position = 0;
  name = "Base";
  type = ProxyGroupType.select;
  url = "";
  interval = none;
  tolerance = none;
  lazy = some 1;
}

abbrev pub base_member : MemberRow
base_member = record {
  group_id = 3;
  position = 0;
  kind = PolicyKind.direct;
  inbound_id = none;
  ref_group_id = none;
}

abbrev pub base_rule : RuleRow
base_rule = record {
  id = 5;
  config_id = pos 1;
  parent_id = none;
  position = 0;
  type = RuleType.match_all;
  value = none;
  provider_id = none;
  no_resolve = 0;
  target_kind = some PolicyKind.group;
  inbound_id = none;
  target_group_id = some 3;
}

abbrev pub before : Db
before = record {
  groups = base_group ∷ [];
  members = base_member ∷ [];
  providers = [];
  rules = base_rule ∷ [];
  settings = [];
  profiles = [];
  inbounds = pos 7 ∷ [];
}

abbrev pub group_id : ℕ → ℕ
group_id i = i + 10

abbrev pub provider_id : ℕ → ℕ
provider_id i = i + 1

abbrev or_before : Result StoreError Db → Db
or_before (ok db) = db
or_before (err e) = before

abbrev pub saved : Db
saved = or_before (save_mihomo_config group_id provider_id (pos 2) draft before)

save_runs : save_mihomo_config group_id provider_id (pos 2) draft before ≡ ok saved
unfolding save_mihomo_config
save_runs = refl

load_runs :
    (rules saved (pos 2) ≡ stored (10 ∷ 11 ∷ 12 ∷ []) (1 ∷ []) rule_drafts 0 5)
    × (proxy_groups saved (pos 2) ≡ stored_groups (10 ∷ 11 ∷ 12 ∷ []) group_id 0 chain)
    × (setting saved (pos 2) "base_yaml" ≡ "mode: rule")
unfolding rules proxy_groups setting saved save_mihomo_config stored stored_groups
load_runs = (refl, refl, refl)

-- A reference to a group that the draft does not have.
refused_runs :
    save_mihomo_config group_id provider_id (pos 2) (record draft { groups = [] }) before
    ≡ err ref_out_of_range
unfolding save_mihomo_config
refused_runs = refl

two_is_not_one : pos 2 ≢ pos 1
two_is_not_one e = cc

pub group_id-Increasing : Increasing group_id
unfolding Increasing
group_id-Increasing i j h = omega arith

pub provider_id-Increasing : Increasing provider_id
unfolding Increasing
provider_id-Increasing i j h = omega arith

save-load_example :
    let groups = ids_from group_id 0 3 in
    let providers = ids_from provider_id 0 1 in
    (proxy_groups saved (pos 2) ≡ stored_groups groups group_id 0 draft.groups)
    × (rules saved (pos 2)
        ≡ stored groups providers draft.rules 0 (max_rule_id (drop_config (pos 2) before).rules))
    × (profile saved (pos 2) ≡ draft.profile)
    × (setting saved (pos 2) "base_yaml" ≡ draft.base_yaml)
    × ((name_le : String → String → Bool)
        → rule_providers name_le saved (pos 2)
          ≡ by_name name_le (stored_providers provider_id 0 draft.providers))
save-load_example =
    save-load group_id provider_id (pos 2) draft before saved group_id-Increasing
      provider_id-Increasing (omega arith, tt) save_runs

abbrev pub le : String → String → Bool
le a b = true

save-frame_example :
    (proxy_groups saved (pos 1) ≡ proxy_groups before (pos 1))
    × (rules saved (pos 1) ≡ rules before (pos 1))
    × (rule_providers le saved (pos 1) ≡ rule_providers le before (pos 1))
    × (profile saved (pos 1) ≡ profile before (pos 1))
    × ((key : String) → setting saved (pos 1) key ≡ setting before (pos 1) key)
save-frame_example =
    save-frame le group_id provider_id (pos 2) (pos 1) draft before saved two_is_not_one
      group_id-Increasing provider_id-Increasing (omega arith, tt) (((λ e. refl), tt), tt) save_runs
