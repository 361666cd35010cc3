-- ===== src/Store/Frame.antt =====
-- internal/repository/routing: what a save of one config leaves of the others.
use subgen.Prelude.Int.{ℤ, pos, int_eq, int_eqb_iff}
use subgen.Prelude.Lists.{All, All-mono, length, append_nil, All-both}
use subgen.Prelude.Maps.{lookup, insert, lookup-insert}
use subgen.Prelude.{
  ℕ, ◌<◌, ◌≢◌, String, Bool, false, not, List, [], ◌∷◌, ◌++◌, map, none, ok, ◌≡◌, refl, sym, ◌∙◌,
  subst, arith, Bool-cases, inl, inr, ◌==◌, nat_eq, string_eq, nat_eqb, nat_eqb_iff,
}
use subgen.Mihomo.Draft.{ConfigDraft}
use subgen.Store.Tables.{GroupRow, MemberRow, Db, select, order_by}
use subgen.Store.Save.{
  of_config, rule_of, provider_of, by_position, one_of, drop_config, group_rows, provider_rows,
  put_settings, save_mihomo_config, or_empty, group_ids, provider_ids, max_rule_id,
}
use subgen.Store.Load.{
  proxy_groups, rules, rule_providers, profile, setting, by_group, group_of_row,
}
use subgen.Store.Order.{
  select-append, select_no, select-select, select-order_by, All-selected, All-order_by,
}
use subgen.Store.Members.{Increasing, group_rows-All, group_ids-group_rows}
use subgen.Store.Groups.{of_group, with_members, attach_all-map, Later, All-Later}
use subgen.Store.Roundtrip.{by_group_total, by_group_trans, least, kept}
use subgen.Store.Rows.{build-Rows, Rows-Stands}
use subgen.Store.Saved.{tables_then, save-Saved, provider_rows-All}

differs : (x c : ℤ) → x ≢ c → (x == c) ≡ false
differs x c ne = elim (Bool-cases (x == c)) [
  | inl same ↦ absurd (ne ((int_eqb_iff x c).0 same))
  | inr other ↦ other
]

-- The rows of one config, in a table from which those of another were deleted, and which got new ones.
others :
    {A : Type 0} (config : A → ℤ) (c c' : ℤ) (old made : List A)
    → c ≢ c'
    → All (λ r. config r ≡ c) made
    → select (λ r. config r == c') (select (λ r. not (config r == c)) old ++ made)
      ≡ select (λ r. config r == c') old
others config c c' old made ne new =
    let passed : select (λ r. config r == c') made ≡ [] =
      select_no (λ r. config r == c') made
        (All-mono made (λ r e. differs (config r) c' (λ f. ne (sym e ∙ f))) new) in
    select-append (λ r. config r == c') (select (λ r. not (config r == c)) old) made
    ∙ rw passed (
        append_nil (select (λ r. config r == c') (select (λ r. not (config r == c)) old))
        ∙ select-select (λ r. not (config r == c)) (λ r. config r == c') old
            (λ r h.
              let f = differs (config r) c (λ e. ne (sym e ∙ (int_eqb_iff (config r) c').0 h)) in
              ground arith))

-- A group's id is that of one row, so rows with the same id are of the same config.
abbrev pub OneConfig : List GroupRow → Type 0
OneConfig rows = All (λ g. All (λ h. g.id ≡ h.id → g.config_id ≡ h.config_id) rows) rows

nat_differs : (i j : ℕ) → i ≢ j → nat_eqb i j ≡ false
nat_differs i j ne = ground arith

pub one_of-no : (ids : List ℕ) (id : ℕ) → All (λ i. i ≢ id) ids → one_of ids id ≡ false
unfolding one_of
one_of-no [] id h = refl
one_of-no (i ∷ is) id h = let ne = h.0 in rw (nat_differs i id ne) (one_of-no is id h.1)

map-All : {A B : Type 0} (f g : A → B) (xs : List A) → All (λ x. f x ≡ g x) xs → map f xs ≡ map g xs
map-All f g [] h = refl
map-All f g (x ∷ xs) h = rw (h.0, map-All f g xs h.1) refl

-- The ids of the groups of one config, as those of another config see them.
foreign_ids :
    (c : ℤ) (r : GroupRow) (rows : List GroupRow)
    → r.config_id ≢ c
    → All (λ h. r.id ≡ h.id → r.config_id ≡ h.config_id) rows
    → All (λ i. i ≢ r.id) (map (λ g. g.id) (select (of_config c) rows))
unfolding select
foreign_ids c r [] ne h = tt
foreign_ids c r (x ∷ rows) ne h = elim (Bool-cases (x.config_id == c)) [
  | inl own ↦
      rw own
        ((λ e. ne (h.0 (sym e) ∙ (int_eqb_iff x.config_id c).0 own)), foreign_ids c r rows ne h.1)
  | inr other ↦ rw other (foreign_ids c r rows ne h.1)
]

module _ (new_id : ℕ → ℕ) (up : Increasing new_id) (c : ℤ) (db : Db) (made : List MemberRow) where
  -- The member rows of a group of another config.
  members_of :
      (r : GroupRow)
      → r.config_id ≢ c
      → r.id < new_id 0
      → All (λ h. r.id ≡ h.id → r.config_id ≡ h.config_id) db.groups
      → All (Later new_id up 0) made
      → select (of_group (pos r.id)) ((drop_config c db).members ++ made)
        ≡ select (of_group (pos r.id)) db.members
  unfolding drop_config
  members_of r ne older one later =
      let ids = map (λ g. g.id) (select (of_config c) db.groups) in
      let foreign = one_of-no ids r.id (foreign_ids c r db.groups ne one) in
      let passed : select (of_group (pos r.id)) made ≡ [] = select_no (of_group (pos r.id)) made (
        All-mono made
          (λ m h.
            let l = least new_id up h.0 in
            let e = h.1 in nat_differs m.group_id r.id (λ f. omega arith))
          later) in
      select-append (of_group (pos r.id)) (drop_config c db).members made
      ∙ rw passed (
          append_nil (select (of_group (pos r.id)) (drop_config c db).members)
          ∙ select-select (λ m. not (one_of ids m.group_id)) (of_group (pos r.id)) db.members
              (λ m h. let e = (nat_eqb_iff m.group_id r.id).0 h in rw (e, foreign) refl))

rules_same :
    (c : ℤ) (d db : Db)
    → select (rule_of c) d.rules ≡ select (rule_of c) db.rules
    → rules d c ≡ rules db c
unfolding rules
rules_same c d db e = rw e refl

providers_same :
    (name_le : String → String → Bool) (c : ℤ) (d db : Db)
    → select (provider_of c) d.providers ≡ select (provider_of c) db.providers
    → rule_providers name_le d c ≡ rule_providers name_le db c
unfolding rule_providers
providers_same name_le c d db e = rw e refl

settings_same :
    (c c' : ℤ) (draft : ConfigDraft) (db : Db)
    → c ≢ c'
    → (profile (put_settings c draft.base_yaml draft.profile db) c' ≡ profile db c')
      × ((key : String)
          → setting (put_settings c draft.base_yaml draft.profile db) c' key ≡ setting db c' key)
unfolding profile setting put_settings
settings_same c c' draft db ne =
    let other = differs c c' ne in
    let m = insert "base_yaml" draft.base_yaml (or_empty (lookup c db.settings)) in
    let e = lookup-insert c c' draft.profile db.profiles in
    let e' = lookup-insert c c' m db.settings in (rw (e, other) refl, (λ key. rw (e', other) refl))

sorted_of :
    (id : ℤ) (ms : List MemberRow)
    → select (of_group id) (order_by by_group ms) ≡ order_by by_group (select (of_group id) ms)
sorted_of id ms = select-order_by by_group by_group_total by_group_trans (of_group id) ms

map_rows :
    (rows : List GroupRow) (ms ms' : List MemberRow)
    → All (λ r. select (of_group (pos r.id)) ms ≡ select (of_group (pos r.id)) ms') rows
    → map (with_members (order_by by_group ms)) (map group_of_row rows)
      ≡ map (with_members (order_by by_group ms')) (map group_of_row rows)
map_rows [] ms ms' h = refl
map_rows (r ∷ rows) ms ms' h =
    rw (sorted_of (pos r.id) ms, sorted_of (pos r.id) ms', h.0, map_rows rows ms ms' h.1) refl

-- Equal group rows with equal member rows are equal groups.
groups_same :
    (c : ℤ) (d db : Db)
    → select (of_config c) d.groups ≡ select (of_config c) db.groups
    → All
        (λ r. select (of_group (pos r.id)) d.members ≡ select (of_group (pos r.id)) db.members)
        (select (of_config c) db.groups)
    → proxy_groups d c ≡ proxy_groups db c
unfolding proxy_groups
groups_same c d db e h =
    let found = select (of_config c) db.groups in
    let sorted = order_by by_position found in
    let same =
      All-order_by by_position
        (λ r. select (of_group (pos r.id)) d.members ≡ select (of_group (pos r.id)) db.members)
        found h in
    rw
      (
        e,
        attach_all-map (order_by by_group d.members) (map group_of_row sorted),
        attach_all-map (order_by by_group db.members) (map group_of_row sorted),
      )
      (map_rows sorted d.members db.members same)

-- When the ids that a batch of rows is assigned increase, those of groups are above all group ids before,
-- and no two group rows of different configs have the same id, then a save of the config c that succeeds
-- leaves the groups, rules, rule-providers, profile and settings that are loaded of any other config as
-- they were.
pub save-frame :
    (name_le : String → String → Bool) (new_group new_provider : ℕ → ℕ) (c c' : ℤ)
    (draft : ConfigDraft) (db db' : Db)
    → c ≢ c'
    → Increasing new_group
    → Increasing new_provider
    → All (λ g. g.id < new_group 0) db.groups
    → OneConfig db.groups
    → save_mihomo_config new_group new_provider c draft db ≡ ok db'
    → (proxy_groups db' c' ≡ proxy_groups db c')
      × (rules db' c' ≡ rules db c')
      × (rule_providers name_le db' c' ≡ rule_providers name_le db c')
      × (profile db' c' ≡ profile db c')
      × ((key : String) → setting db' c' key ≡ setting db c' key)
unfolding drop_config put_settings profile setting
save-frame name_le new_group new_provider c c' draft db db' ne up up' older one h =
    let s = save-Saved new_group new_provider c draft db db' h in
    let after = tables_then new_group new_provider c draft db s.0 s.1.0 in
    let groups = group_ids c after.groups in
    let providers = provider_ids c after.providers in
    let forest =
      build-Rows c groups providers draft.rules none 0 (max_rule_id (drop_config c db).rules) s.1
        s.3 in
    let settings =
      settings_same c c' draft
        (record (drop_config c db) {
          groups = after.groups;
          providers = after.providers;
          members = after.members;
          rules = after.rules;
        })
        ne in
    let ids =
      group_ids-group_rows c new_group (drop_config c db).groups draft.groups
        (kept (of_config c) db.groups) in
    let later =
      All-Later new_group up (length draft.groups) 0 draft.groups s.0 (omega arith)
        (rw (sym ids) (s.2)) in
    subst
      (λ d.
        (proxy_groups d c' ≡ proxy_groups db c')
        × (rules d c' ≡ rules db c')
        × (rule_providers name_le d c' ≡ rule_providers name_le db c')
        × (profile d c' ≡ profile db c')
        × ((key : String) → setting d c' key ≡ setting db c' key))
      s.4
      (
        groups_same c' after db
            (others (λ r. r.config_id) c c' db.groups (group_rows c new_group 0 draft.groups) ne
              (All-mono (group_rows c new_group 0 draft.groups) (λ r h. h.0)
                (group_rows-All c new_group 0 draft.groups)))
            (All-mono (select (of_config c') db.groups)
              (λ r h.
                members_of new_group up c db s.0 r
                  (λ e. ne (sym e ∙ (int_eqb_iff r.config_id c').0 h.0)) h.1.0 h.1.1 later)
              (All-selected
                (λ r.
                  (r.id < new_group 0)
                  × All (λ h. r.id ≡ h.id → r.config_id ≡ h.config_id) db.groups)
                (of_config c') db.groups
                (All-both (λ g. g.id < new_group 0)
                  (λ g. All (λ h. g.id ≡ h.id → g.config_id ≡ h.config_id) db.groups) db.groups
                  older one))),
        rules_same c' after db (
            others (λ r. r.config_id) c c' db.rules s.1.0 ne
              (All-mono s.1.0 (λ r h. h.0) (Rows-Stands c groups providers forest))),
        providers_same name_le c' after db (
            others (λ r. r.config_id) c c' db.providers
              (provider_rows c new_provider 0 draft.providers) ne
              (All-mono (provider_rows c new_provider 0 draft.providers) (λ r h. h.0)
                (provider_rows-All c new_provider up' 0 draft.providers))),
        settings.0,
        settings.1,
      )
