-- ===== src/Store/Saved.antt =====
-- internal/repository/routing/save_mihomo_config.go: what a save leaves in the tables.
use subgen.Prelude.Int.{ℤ, int_eq, int_eqb_iff}
use subgen.Prelude.Lists.{All, All-mono, length}
use subgen.Prelude.{
  ℕ, suc, ◌≤◌, false, not, List, [], ◌∷◌, ◌++◌, map, none, ok, ◌≡◌, refl, sym, ap, ◌∙◌, subst,
  arith, >>=-eq-ok, reject-eq-ok, string_eq,
}
use subgen.Mihomo.ProxyGroup.{RuleProvider}
use subgen.Mihomo.Draft.{RuleDrafts, GroupDraft, ConfigDraft}
use subgen.Store.Tables.{
  GroupRow, MemberRow, ProviderRow, RuleRow, Db, rule_provider_name_taken, constraint_failed,
  select, has_repeats,
}
use subgen.Store.Save.{
  of_config, provider_of, provider_by_id, drop_config, group_rows, provider_rows, group_ids,
  provider_ids, all_member_rows, members_fit, build, rules_fit, max_rule_id, insert_groups,
  insert_providers, insert_members, insert_rules, put_settings, save_mihomo_config,
}
use subgen.Store.Order.{select-append, select_no, select-All, Sorted, order_by-Sorted}
use subgen.Store.Members.{ids_from, Increasing}

module _ (c : ℤ) (new_id : ℕ → ℕ) (up : Increasing new_id) where
  pub provider_rows-All :
      (i : ℕ) (ps : List RuleProvider)
      → All (λ r. (r.config_id ≡ c) × (new_id i ≤ r.id)) (provider_rows c new_id i ps)
  unfolding provider_rows Increasing
  provider_rows-All i [] = tt
  provider_rows-All i (p ∷ ps) =
      let later = up i (suc i) (omega arith) in
      (
        (refl, omega arith),
        All-mono (provider_rows c new_id (suc i) ps) (λ r h. (h.0, omega arith))
            (provider_rows-All (suc i) ps),
      )

  provider_rows-Sorted :
      (i : ℕ) (ps : List RuleProvider) → Sorted provider_by_id (provider_rows c new_id i ps)
  unfolding provider_rows Sorted Increasing
  provider_rows-Sorted i [] = tt
  provider_rows-Sorted i (p ∷ ps) =
      let later = up i (suc i) (omega arith) in
      (
        All-mono (provider_rows c new_id (suc i) ps) (λ r h. let p = h.1 in ground arith)
            (provider_rows-All (suc i) ps),
        provider_rows-Sorted (suc i) ps,
      )

  ids-provider_rows :
      (i : ℕ) (ps : List RuleProvider)
      → map (λ p. p.id) (provider_rows c new_id i ps) ≡ ids_from new_id i (length ps)
  unfolding provider_rows ids_from
  ids-provider_rows i [] = refl
  ids-provider_rows i (p ∷ ps) = ap (λ xs. new_id i ∷ xs) (ids-provider_rows (suc i) ps)

  pub provider_ids-provider_rows :
      (old : List ProviderRow) (ps : List RuleProvider)
      → All (λ r. provider_of c r ≡ false) old
      → provider_ids c (old ++ provider_rows c new_id 0 ps) ≡ ids_from new_id 0 (length ps)
  unfolding provider_ids
  provider_ids-provider_rows old ps h =
      rw
        (
          select-append (provider_of c) old (provider_rows c new_id 0 ps),
          select_no (provider_of c) old h,
          select-All (provider_of c) (provider_rows c new_id 0 ps) (
              All-mono (provider_rows c new_id 0 ps) (λ r s. (int_eqb_iff r.config_id c).1 s.0)
                (provider_rows-All 0 ps)),
          order_by-Sorted provider_by_id (provider_rows c new_id 0 ps) (provider_rows-Sorted 0 ps),
        )
        (ids-provider_rows 0 ps)

insert_groups_lem :
    (c : ℤ) (new_id : ℕ → ℕ) (gs : List GroupDraft) (d d' : Db)
    → insert_groups c new_id gs d ≡ ok d'
    → (record d { groups = d.groups ++ group_rows c new_id 0 gs }) ≡ d'
unfolding insert_groups
insert_groups_lem c new_id gs d d' h =
    let rows = d.groups ++ group_rows c new_id 0 gs in
    let fit =
      reject-eq-ok (has_repeats (map (λ g. g.name) (select (of_config c) rows))) constraint_failed
        (ok (record d { groups = rows })) d' h in
    cc (fit.1)

insert_providers_lem :
    (c : ℤ) (new_id : ℕ → ℕ) (ps : List RuleProvider) (d d' : Db)
    → insert_providers c new_id ps d ≡ ok d'
    → (record d { providers = d.providers ++ provider_rows c new_id 0 ps }) ≡ d'
unfolding insert_providers
insert_providers_lem c new_id ps d d' h =
    let rows = d.providers ++ provider_rows c new_id 0 ps in
    let fit =
      reject-eq-ok (has_repeats (map (λ p. p.name) (select (provider_of c) rows)))
        rule_provider_name_taken (ok (record d { providers = rows })) d' h in
    cc (fit.1)

insert_members_lem :
    (c : ℤ) (gs : List GroupDraft) (d d' : Db)
    → insert_members c gs d ≡ ok d'
    → (rows : List MemberRow) × (all_member_rows (group_ids c d.groups) 0 gs ≡ ok rows)
      × ((record d { members = d.members ++ rows }) ≡ d')
unfolding insert_members
insert_members_lem c gs d d' h =
    let made = >>=-eq-ok (all_member_rows (group_ids c d.groups) 0 gs) _ d' h in
    let fit =
      reject-eq-ok (not (members_fit d.inbounds made.0)) constraint_failed
        (ok (record d { members = d.members ++ made.0 })) d' made.2 in
    (made.0, made.1, cc (fit.1))

insert_rules_lem :
    (c : ℤ) (rules : RuleDrafts) (groups providers : List ℕ) (d d' : Db)
    → insert_rules c rules groups providers d ≡ ok d'
    → (rows : List RuleRow × ℕ) × (build c groups providers rules none 0 (max_rule_id d.rules)
        ≡ ok rows)
      × ((record d { rules = d.rules ++ rows.0 }) ≡ d')
unfolding insert_rules
insert_rules_lem c rules groups providers d d' h =
    let made = >>=-eq-ok (build c groups providers rules none 0 (max_rule_id d.rules)) _ d' h in
    let fit =
      reject-eq-ok (not (rules_fit d.inbounds made.0.0)) constraint_failed
        (ok (record d { rules = d.rules ++ made.0.0 })) d' made.2 in
    (made.0, made.1, cc (fit.1))

module _ (new_group new_provider : ℕ → ℕ) (c : ℤ) (draft : ConfigDraft) (db : Db) where
  -- The tables of groups and providers after the inserts.
  abbrev pub groups_then : List GroupRow
  groups_then = (drop_config c db).groups ++ group_rows c new_group 0 draft.groups

  abbrev pub providers_then : List ProviderRow
  providers_then = (drop_config c db).providers ++ provider_rows c new_provider 0 draft.providers

  abbrev pub tables_then : List MemberRow → List RuleRow → Db
  tables_then members rules =
      put_settings c draft.base_yaml draft.profile (record (drop_config c db) {
        groups = groups_then;
        providers = providers_then;
        members = (drop_config c db).members ++ members;
        rules = (drop_config c db).rules ++ rules;
      })

  -- A save that succeeds has made the rows of the members and of the rules, and appended them.
  abbrev pub Saved : Db → Type 0
  Saved db' =
      (members : List MemberRow) × (rules : List RuleRow × ℕ) × (all_member_rows
          (group_ids c groups_then) 0 draft.groups
        ≡ ok members)
      × (build c (group_ids c groups_then) (provider_ids c providers_then) draft.rules none 0
            (max_rule_id (drop_config c db).rules)
          ≡ ok rules)
      × (tables_then members rules.0 ≡ db')

  pub save-Saved :
      (db' : Db) → save_mihomo_config new_group new_provider c draft db ≡ ok db' → Saved db'
  unfolding save_mihomo_config
  save-Saved db' h =
      let base = drop_config c db in
      let g = >>=-eq-ok (insert_groups c new_group draft.groups base) _ db' h in
      let p = >>=-eq-ok (insert_providers c new_provider draft.providers g.0) _ db' g.2 in
      let m = >>=-eq-ok (insert_members c draft.groups p.0) _ db' p.2 in
      let r =
        >>=-eq-ok
          (insert_rules c draft.rules (group_ids c m.0.groups) (provider_ids c m.0.providers) m.0) _
          db' m.2 in
      let at = insert_groups_lem c new_group draft.groups base g.0 g.1 in
      let at' = insert_providers_lem c new_provider draft.providers g.0 p.0 p.1 in
      let d1 : Db = record base { groups = groups_then } in
      let d2 : Db = record d1 { providers = providers_then } in
      let grown : Db → Db = λ d. record d {
        providers = d.providers ++ provider_rows c new_provider 0 draft.providers;
      } in
      let to2 : p.0 ≡ d2 = sym at' ∙ ap grown (sym at) in
      let members =
        insert_members_lem c draft.groups d2 m.0
          (subst (λ d. insert_members c draft.groups d ≡ ok m.0) to2 m.1) in
      let d3 : Db = record d2 { members = d2.members ++ members.0 } in
      let rules =
        insert_rules_lem c draft.rules (group_ids c groups_then) (provider_ids c providers_then) d3
          r.0
          (subst
            (λ d.
              insert_rules c draft.rules (group_ids c d.groups) (provider_ids c d.providers) d
              ≡ ok r.0)
            (sym members.2) r.1) in
      (
        members.0,
        rules.0,
        members.1,
        rules.1,
        ap (put_settings c draft.base_yaml draft.profile) rules.2 ∙ cc (r.2),
      )
