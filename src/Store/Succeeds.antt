-- ===== src/Store/Succeeds.antt =====
-- internal/repository/routing/save_mihomo_config.go: a draft that validation accepts is saved.
use subgen.Prelude.Int.{ℤ}
use subgen.Prelude.Lists.{All, Distinct, length}
use subgen.Prelude.{ℕ, zero, suc, ◌≡◌, refl, arith, String, List, [], ◌∷◌, map, ok, none}
use subgen.Mihomo.Draft.{GroupDraft, ConfigDraft}
use subgen.Mihomo.Shape.{IsRef, RulesShape}
use subgen.Mihomo.Groups.Accepts.{GroupsShape}
use subgen.Store.Tables.{Db}
use subgen.Store.Save.{
  of_config, provider_of, drop_config, max_rule_id, insert_groups, insert_providers, insert_members,
  insert_rules, save_mihomo_config,
}
use subgen.Store.Members.{ids_from, Increasing, group_ids-group_rows}
use subgen.Store.Saved.{provider_ids-provider_rows, tables_then}
use subgen.Store.Roundtrip.{kept}
use subgen.Store.Fits.{Known, KnownTargets, RulesShape-Shapes, all_member_rows-fit, build-fit}
use subgen.Store.Names.{names-Distinct, group_names_fit, provider_names_fit}

-- What validation accepts of the groups and rules of a draft, without the search for cycles.
abbrev pub WellFormed : ConfigDraft → Type 0
WellFormed draft =
    GroupsShape [] draft.groups (length draft.groups)
    × RulesShape draft.rules (length draft.groups) (length draft.providers)

-- What the tables ask of a draft beyond that: providers with different names, and known inbounds.
abbrev pub Storable : ConfigDraft → List ℤ → Type 0
Storable draft inbounds =
    Distinct (map (λ p. p.name) draft.providers)
    × All (λ g. All (λ m. Known m.inbound_id inbounds) g.members) draft.groups
    × KnownTargets draft.rules inbounds

pub length-ids_from : (new_id : ℕ → ℕ) (i n : ℕ) → length (ids_from new_id i n) ≡ n
unfolding ids_from
length-ids_from new_id i zero = refl
length-ids_from new_id i (suc n) = let h = length-ids_from new_id (suc i) n in omega arith

pub members-IsRef :
    (seen : List String) (gs : List GroupDraft) (n : ℕ)
    → GroupsShape seen gs n
    → All (λ g. All (λ m. IsRef m n) g.members) gs
members-IsRef seen [] n h = tt
members-IsRef seen (g ∷ gs) n h = (h.0.4, members-IsRef (g.name ∷ seen) gs n h.1)

module _ (new_group new_provider : ℕ → ℕ) (up : Increasing new_provider) (c : ℤ)
    (draft : ConfigDraft) (db : Db) where
  -- When the ids that the rule-providers are assigned increase, a draft with well-formed groups and rules,
  -- with rule-providers of different names, and with inbounds that the table has, is saved without an
  -- error.
  pub save_mihomo_config-ok :
      WellFormed draft
      → Storable draft db.inbounds
      → (db' : Db) × (save_mihomo_config new_group new_provider c draft db ≡ ok db')
  unfolding save_mihomo_config insert_groups insert_providers insert_members insert_rules
      drop_config
  save_mihomo_config-ok (gs, rs) (names, known, targets) =
      let base = drop_config c db in
      let groups = ids_from new_group 0 (length draft.groups) in
      let providers = ids_from new_provider 0 (length draft.providers) in
      let g = length-ids_from new_group 0 (length draft.groups) in
      let p = length-ids_from new_provider 0 (length draft.providers) in
      let ids =
        group_ids-group_rows c new_group base.groups draft.groups (kept (of_config c) db.groups) in
      let ids' =
        provider_ids-provider_rows c new_provider up base.providers draft.providers
          (kept (provider_of c) db.providers) in
      let group_names =
        group_names_fit c new_group base.groups draft.groups (kept (of_config c) db.groups)
          (names-Distinct [] draft.groups (length draft.groups) gs) in
      let provider_names =
        provider_names_fit c new_provider base.providers draft.providers
          (kept (provider_of c) db.providers) names in
      let (members, made, fit) =
        all_member_rows-fit db.inbounds groups 0 draft.groups
          (rw g (members-IsRef [] draft.groups (length draft.groups) gs)) known in
      let (rules, built, fit') =
        build-fit c db.inbounds groups providers draft.rules none 0 (max_rule_id base.rules)
          (rw (g, p)
            (RulesShape-Shapes draft.rules (length draft.groups) (length draft.providers) rs))
          targets in
      (
        tables_then new_group new_provider c draft db members rules.0,
        rw (group_names, provider_names, ids, made, fit, ids, ids', built, fit') refl,
      )
