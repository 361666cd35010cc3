-- ===== src/Tests/Customs.antt =====
-- A custom config that is made of the base config, and deleted.
use subgen.Prelude.Int.{ℤ, pos}
use subgen.Prelude.{
  ℕ, ◌+◌, ◌≡◌, ◌≢◌, ◌↔◌, refl, arith, [], ◌∷◌, none, some, Result, ok, err, inl, inr,
}
use subgen.Store.Tables.{Db, select, order_by}
use subgen.Store.Load.{rules, proxy_groups, setting}
use subgen.Store.Forest.{stored}
use subgen.Store.Groups.{stored_groups}
use subgen.Store.Save.{save_mihomo_config}
use subgen.Store.Clone.{CloneError, clone_config, Ids}
use subgen.Store.Uncopied.{Fresh}
use subgen.Configs.{mihomo, user_config_id}
use subgen.ConfigSave.{Tables}
use subgen.Customs.{message, bad_request, custom_create, custom_delete}
use subgen.Customs.Undone.{Given, custom_delete-custom_create}
use subgen.Customs.Refused.{custom_create-refused_iff}
use subgen.Tests.Drafts.{chain, rules as rule_drafts}
use subgen.Tests.Stored.{before, saved}
use subgen.Prelude.Maps.{lookup}
use subgen.Store.Carried.{by_id, IsBefore}
use subgen.Store.Copies.{groups_of, rules_of, ids_of_groups, ids_of_providers, providers_of}
use subgen.Store.Order.{Sorted}
use subgen.Store.Members.{Increasing}
use subgen.Prelude.Lists.{All, Distinct}
use subgen.Store.Copy.{IsCopy, clone_config-IsCopy}

-- The ids of the rows of the copy.
abbrev new_group : ℕ → ℕ
new_group i = i + 20

abbrev new_provider : ℕ → ℕ
new_provider i = i + 5

abbrev or_saved : Result CloneError Db → Db
or_saved (ok db) = db
or_saved (err e) = saved

abbrev cloned : Db
cloned = or_saved (clone_config new_group new_provider (pos 2) (pos 3) saved)

-- The copy of a saved config has its groups and rules under new ids.
clone_runs :
    (clone_config new_group new_provider (pos 2) (pos 3) saved ≡ ok cloned)
    × (rules cloned (pos 3) ≡ stored (20 ∷ 21 ∷ 22 ∷ []) (5 ∷ []) rule_drafts 0 11)
    × (proxy_groups cloned (pos 3) ≡ stored_groups (20 ∷ 21 ∷ 22 ∷ []) new_group 0 chain)
    × (setting cloned (pos 3) "base_yaml" ≡ "mode: rule")
unfolding clone_config rules proxy_groups setting save_mihomo_config stored stored_groups
clone_runs = (refl, refl, refl, refl)

abbrev tables : Tables
tables = record {
  configs = record { id = pos 1; user_id = none; kind = "mihomo"; created_at = pos 0 } ∷ [];
  content = before;
}

abbrev with_custom : Tables
with_custom = (custom_create new_group new_provider (pos 2) (pos 9) (pos 5 ∷ []) (pos 5) tables).1

create_runs :
    custom_create new_group new_provider (pos 2) (pos 9) (pos 5 ∷ []) (pos 5) tables
    ≡ (message "Custom config created", with_custom)
unfolding custom_create
create_runs = refl

fresh : Fresh new_group (pos 2) before
unfolding lookup
fresh = record {
  groups = (refl, tt);
  members = ((λ k e. omega arith), tt);
  providers = tt;
  rules = (refl, tt);
  settings = refl;
  profiles = refl;
}

custom_delete-custom_create_example :
    Given (pos 5) (pos 2) tables.configs with_custom.configs
    × (custom_delete (pos 5) with_custom ≡ (message "Custom config deleted", tables))
custom_delete-custom_create_example =
    custom_delete-custom_create new_group new_provider (pos 2) (pos 9) (pos 5 ∷ []) (pos 5) tables
      with_custom fresh create_runs

five : pos 5 ≢ pos 0
five e = cc

custom_create-refused_iff_example :
    (custom_create new_group new_provider (pos 3) (pos 9) (pos 5 ∷ []) (pos 5) with_custom
      ≡ (bad_request "The user already has a custom config", with_custom))
    ↔ ((c : ℤ) × (user_config_id (pos 5) mihomo with_custom.configs ≡ some c))
custom_create-refused_iff_example =
    custom_create-refused_iff new_group new_provider (pos 3) (pos 9) (pos 5 ∷ []) (pos 5)
      with_custom five

two_three : pos 2 ≢ pos 3
two_three e = cc

saved-Fresh : Fresh new_group (pos 3) saved
unfolding save_mihomo_config lookup
saved-Fresh = record {
  groups = (refl, (refl, (refl, (refl, tt))));
  members = (
    (λ k e. omega arith),
    (
      (λ k e. omega arith),
      (
        (λ k e. omega arith),
        ((λ k e. omega arith), ((λ k e. omega arith), ((λ k e. omega arith), tt))),
      ),
    ),
  );
  providers = (refl, tt);
  rules = (refl, (refl, (refl, (refl, (refl, (refl, (refl, tt)))))));
  settings = refl;
  profiles = refl;
}

new_provider-Increasing : Increasing new_provider
unfolding Increasing
new_provider-Increasing i j h = omega arith

Distinct-groups : Distinct (ids_of_groups (groups_of (pos 2) saved))
unfolding save_mihomo_config select order_by
Distinct-groups = (
  (λ i. elim i [ inl e ↦ omega arith | inr (inl e) ↦ omega arith | inr (inr j) ↦ absurd j ]),
  ((λ i. elim i [ inl e ↦ omega arith | inr j ↦ absurd j ]), ((λ i. absurd i), tt)),
)

rules-Sorted : Sorted by_id (rules_of (pos 2) saved)
unfolding save_mihomo_config select order_by Sorted
rules-Sorted = (
  (refl, (refl, (refl, (refl, (refl, tt))))),
  (
    (refl, (refl, (refl, (refl, tt)))),
    ((refl, (refl, (refl, tt))), ((refl, (refl, tt)), ((refl, tt), (tt, tt)))),
  ),
)

parents_first : All (λ r. IsBefore r.parent_id r.id) (rules_of (pos 2) saved)
unfolding save_mihomo_config select order_by
parents_first = (tt, (tt, (omega arith, (omega arith, (omega arith, (tt, tt))))))

Distinct-providers : Distinct (ids_of_providers (providers_of (pos 2) saved))
unfolding save_mihomo_config select order_by
Distinct-providers = ((λ i. absurd i), tt)

cloned_ok : clone_config new_group new_provider (pos 2) (pos 3) saved ≡ ok cloned
cloned_ok = clone_runs.0

clone_config-IsCopy_example : (gm : Ids) × (pm : Ids) × IsCopy (pos 2) (pos 3) saved cloned gm pm
clone_config-IsCopy_example =
    clone_config-IsCopy new_group new_provider (pos 2) (pos 3) saved cloned two_three saved-Fresh
      new_provider-Increasing Distinct-groups Distinct-providers rules-Sorted parents_first
      cloned_ok
