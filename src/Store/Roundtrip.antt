-- ===== src/Store/Roundtrip.antt =====
-- internal/repository/routing: a config that was saved is the one that is loaded.
use subgen.Prelude.Int.{ℤ, pos, int_eq, int_eqb_iff}
use subgen.Prelude.Lists.{All, All-mono, All-of, length}
use subgen.Prelude.Maps.{lookup, insert, lookup-insert}
use subgen.Prelude.{
  ℕ, zero, suc, ◌≤◌, ◌<◌, String, Bool, true, false, not, List, ◌++◌, map, ok, ◌≡◌, refl, sym, ap,
  ◌∙◌, subst, arith, string_eq,
}
use subgen.Mihomo.Draft.{GroupDraft, ConfigDraft}
use subgen.Store.Tables.{MemberRow, Db, select, order_by}
use subgen.Store.Save.{
  of_config, rule_of, drop_config, group_rows, all_member_rows, max_rule_id, put_settings,
  save_mihomo_config, or_empty, provider_of, one_of,
}
use subgen.Store.Load.{
  proxy_groups, rules, rule_providers, profile, setting, by_group, group_of_row,
}
use subgen.Store.Order.{select-append, select_no, All-selected, All-select, select-order_by}
use subgen.Store.Forest.{stored}
use subgen.Store.Members.{ids_from, Increasing, order_by-group_rows, group_ids-group_rows}
use subgen.Store.Groups.{stored_groups, of_group, attach_all-map, groups_lem}
use subgen.Store.Rules.{rules-build}
use subgen.Store.Providers.{stored_providers, by_name, rule_providers-provider_rows}
use subgen.Store.Saved.{
  groups_then, providers_then, tables_then, save-Saved, provider_ids-provider_rows,
}

pub by_group_total : (a b : MemberRow) → by_group a b ≡ false → by_group b a ≡ true
by_group_total a b h = ground arith

pub by_group_trans :
    (a b d : MemberRow) → by_group a b ≡ true → by_group b d ≡ true → by_group a d ≡ true
by_group_trans a b d h g = ground arith

-- What a DELETE leaves does not match its condition.
pub kept :
    {A : Type 0} (test : A → Bool) (xs : List A)
    → All (λ x. test x ≡ false) (select (λ x. not (test x)) xs)
kept test xs =
    All-mono (select (λ x. not (test x)) xs) (λ x h. let e = h.0 in ground arith)
      (All-selected (λ x. Unit) (λ x. not (test x)) xs (All-of (λ x. Unit) xs (λ x i. tt)))

module _ (new_id : ℕ → ℕ) (up : Increasing new_id) where
  -- The ids of a batch are not below the first one.
  pub least : (k : ℕ) → new_id 0 ≤ new_id k
  unfolding Increasing
  least zero = omega arith
  least (suc k) = let h = up 0 (suc k) (omega arith) in omega arith

  -- The rows of the members of a new group, when the table had rows of older groups only.
  new_members :
      (k : ℕ) (old made : List MemberRow)
      → All (λ m. m.group_id < new_id 0) old
      → select (of_group (pos (new_id k))) (order_by by_group (old ++ made))
        ≡ order_by by_group (select (of_group (pos (new_id k))) made)
  new_members k old made fresh =
      let l = least k in
      select-order_by by_group by_group_total by_group_trans (of_group (pos (new_id k)))
        (old ++ made)
      ∙ ap (order_by by_group) (
          select-append (of_group (pos (new_id k))) old made
          ∙ rw
              (select_no (of_group (pos (new_id k))) old (All-mono old (λ m h. ground arith) fresh))
              refl)

  pub proxy_groups-group_rows :
      (c : ℤ) (gs : List GroupDraft) (old : List MemberRow) (made : List MemberRow) (db db' : Db)
      → All (λ m. m.group_id < new_id 0) old
      → All (λ r. of_config c r ≡ false) db.groups
      → all_member_rows (ids_from new_id 0 (length gs)) 0 gs ≡ ok made
      → db'.groups ≡ db.groups ++ group_rows c new_id 0 gs
      → db'.members ≡ old ++ made
      → proxy_groups db' c ≡ stored_groups (ids_from new_id 0 (length gs)) new_id 0 gs
  unfolding proxy_groups
  proxy_groups-group_rows c gs old made db db' fresh none_yet h g m =
      rw
        (
          g,
          m,
          order_by-group_rows c new_id db.groups gs none_yet,
          attach_all-map (order_by by_group (old ++ made))
              (map group_of_row (group_rows c new_id 0 gs)),
        )
        (groups_lem new_id up c (order_by by_group (old ++ made)) (length gs) 0 gs made
          (omega arith) h (λ k l. new_members k old made fresh))

profile-put_settings :
    (c : ℤ) (draft : ConfigDraft) (db : Db)
    → (profile (put_settings c draft.base_yaml draft.profile db) c ≡ draft.profile)
      × (setting (put_settings c draft.base_yaml draft.profile db) c "base_yaml" ≡ draft.base_yaml)
unfolding profile setting put_settings
profile-put_settings c draft db =
    let here = (int_eqb_iff c c).1 refl in
    let m = or_empty (lookup c db.settings) in
    let e = lookup-insert c c draft.profile db.profiles in
    let e' = lookup-insert c c (insert "base_yaml" draft.base_yaml m) db.settings in
    let e'' = lookup-insert "base_yaml" "base_yaml" draft.base_yaml m in
    (rw (e, here) refl, rw (e', here, e'') refl)

-- When the ids that a batch of rows is assigned increase, those of groups are above the group ids of all
-- member rows before, and a save of a draft succeeds, then the config is loaded with the groups, rules,
-- profile, base text and rule-providers of the draft: every index is replaced by the id that the row at
-- the index was given, positions count the rows of a list, the rules are the same tree, numbered in the
-- order of a walk from the largest rule id of the other configs on, and the rule-providers have the ids of
-- their rows and stand in the order of their names.
pub save-load :
    (new_group new_provider : ℕ → ℕ) (c : ℤ) (draft : ConfigDraft) (db db' : Db)
    → Increasing new_group
    → Increasing new_provider
    → All (λ m. m.group_id < new_group 0) db.members
    → save_mihomo_config new_group new_provider c draft db ≡ ok db'
    → let groups = ids_from new_group 0 (length draft.groups) in
      let providers = ids_from new_provider 0 (length draft.providers) in
      (proxy_groups db' c ≡ stored_groups groups new_group 0 draft.groups)
      × (rules db' c ≡ stored groups providers draft.rules 0 (max_rule_id (drop_config c db).rules))
      × (profile db' c ≡ draft.profile)
      × (setting db' c "base_yaml" ≡ draft.base_yaml)
      × ((name_le : String → String → Bool)
          → rule_providers name_le db' c
            ≡ by_name name_le (stored_providers new_provider 0 draft.providers))
unfolding drop_config put_settings
save-load new_group new_provider c draft db db' up up' fresh h =
    let s = save-Saved new_group new_provider c draft db db' h in
    let base = drop_config c db in
    let ids =
      group_ids-group_rows c new_group base.groups draft.groups (kept (of_config c) db.groups) in
    let ids' =
      provider_ids-provider_rows c new_provider up' base.providers draft.providers
        (kept (provider_of c) db.providers) in
    let groups = ids_from new_group 0 (length draft.groups) in
    let providers = ids_from new_provider 0 (length draft.providers) in
    let read = profile-put_settings c draft (record base {
      groups = groups_then new_group new_provider c draft db;
      providers = providers_then new_group new_provider c draft db;
      members = base.members ++ s.0;
      rules = base.rules ++ s.1.0;
    }) in
    subst
      (λ d.
        (proxy_groups d c
          ≡ stored_groups (ids_from new_group 0 (length draft.groups)) new_group 0 draft.groups)
        × (rules d c
            ≡ stored (ids_from new_group 0 (length draft.groups))
                (ids_from new_provider 0 (length draft.providers)) draft.rules 0
                (max_rule_id base.rules))
        × (profile d c ≡ draft.profile)
        × (setting d c "base_yaml" ≡ draft.base_yaml)
        × ((name_le : String → String → Bool)
            → rule_providers name_le d c
              ≡ by_name name_le (stored_providers new_provider 0 draft.providers)))
      s.4
      (
        proxy_groups-group_rows new_group up c draft.groups base.members s.0 base
            (tables_then new_group new_provider c draft db s.0 s.1.0)
            (All-select (λ m. m.group_id < new_group 0)
              (λ m. not (one_of (map (λ g. g.id) (select (of_config c) db.groups)) m.group_id))
              db.members fresh)
            (kept (of_config c) db.groups) (rw (sym ids) (s.2)) refl refl,
        rules-build c draft.rules groups providers (max_rule_id base.rules) base.rules s.1
            (tables_then new_group new_provider c draft db s.0 s.1.0) (kept (rule_of c) db.rules)
            (rw (sym ids, sym ids') (s.3)) refl,
        read.0,
        read.1,
        λ name_le.
            rule_providers-provider_rows name_le c new_provider base.providers draft.providers
              (tables_then new_group new_provider c draft db s.0 s.1.0)
              (kept (provider_of c) db.providers) refl,
      )
