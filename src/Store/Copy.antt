-- ===== src/Store/Copy.antt =====
-- internal/repository/routing/clone_config.go: CloneConfig as a whole.
use subgen.Prelude.Int.{ℤ, int_eq, int_eqb_iff}
use subgen.Prelude.Lists.{All, All-mono, Distinct, append_nil}
use subgen.Prelude.{
  ℕ, ◌≢◌, String, List, [], ◌++◌, map, ok, ◌≡◌, refl, sym, ◌∙◌, subst, >>=-eq-ok, ◌==◌, string_eq,
  Bool-cases, inl, inr, ◌>>=◌,
}
use subgen.Store.Tables.{GroupRow, Db, select, ProviderRow, RuleRow}
use subgen.Store.Save.{of_config, by_position, one_of, max_rule_id}
use subgen.Store.Load.{by_group, profile, setting}
use subgen.Store.Order.{Sorted, select-append, select_no, All-order_by}
use subgen.Store.Members.{Increasing}
use subgen.Store.Clone.{
  Ids, copy_groups, copy_providers, clone_groups, clone_members, clone_providers, clone_rules,
  clone_settings, clone_profile, clone_config,
}
use subgen.Store.Copied.{All-map, copy_groups-All, clone_settings-made, clone_profile-made}
use subgen.Store.Uncopied.{Fresh}
use subgen.Store.Carried.{
  plain_group, plain_provider, plain-copy_groups, plain-copy_providers, carried, rule_ids, by_id,
  IsBefore,
}
use subgen.Store.Copies.{
  groups_of, providers_of, rules_of, members_of, ids_of_groups, ids_of_providers, Carries,
  clone_groups-copies, clone_providers-copies, clone_rules-copies,
}
use subgen.Store.Cloned.{
  Keyed, Carries-Keyed, All-order_by_back, All-unmap, select-Keyed, carry_member,
  clone_members-copies, profile-clone_profile, setting-clone_settings,
}

-- The config dst of d is the config src of db, with the ids of groups and providers carried by two maps.
abbrev pub IsCopy : ℤ → ℤ → Db → Db → Ids → Ids → Type 0
IsCopy src dst db d gm pm =
    let last = max_rule_id db.rules in
    (map plain_group (groups_of dst d) ≡ map plain_group (groups_of src db))
    × Carries gm (ids_of_groups (groups_of src db)) (ids_of_groups (groups_of dst d))
    × (map plain_provider (providers_of dst d) ≡ map plain_provider (providers_of src db))
    × Carries pm (ids_of_providers (providers_of src db)) (ids_of_providers (providers_of dst d))
    × (d.members ≡ db.members ++ map (carry_member gm) (members_of src db))
    × (rules_of dst d
        ≡ carried dst gm pm (rule_ids [] last (rules_of src db)) last (rules_of src db))
    × (profile d dst ≡ profile db src)
    × ((key : String) → setting d dst key ≡ setting db src key)

-- The rows of the source are not among those of the copy.
source_kept :
    (src dst : ℤ) (old made : List GroupRow)
    → src ≢ dst
    → All (λ g. g.config_id ≡ dst) made
    → select (of_config src) (old ++ made) ≡ select (of_config src) old
source_kept src dst old made ne h =
    select-append (of_config src) old made
    ∙ rw
        (select_no (of_config src) made (
          All-mono made
            (λ g e. elim (Bool-cases (g.config_id == src)) [
              | inl same ↦ absurd (ne (sym ((int_eqb_iff g.config_id src).0 same) ∙ e))
              | inr other ↦ other
            ])
            h))
        (append_nil (select (of_config src) old))

-- Under the new ids the members of the config are those of groups that are carried.
members_Keyed :
    (src : ℤ) (db : Db) (gm : Ids) (new : List ℕ)
    → Carries gm (ids_of_groups (groups_of src db)) new
    → All (λ m. Keyed gm m.group_id) (members_of src db)
members_Keyed src db gm new h =
    let own = select (of_config src) db.groups in
    let keyed =
      All-unmap (λ g. g.id) (Keyed gm) (groups_of src db)
        (Carries-Keyed gm (ids_of_groups (groups_of src db)) new h) in
    let all =
      All-map (λ g. g.id) (Keyed gm) own
        (All-order_by_back (λ g. Keyed gm g.id) by_position own keyed) in
    All-order_by by_group (λ m. Keyed gm m.group_id)
      (select (λ m. one_of (map (λ g. g.id) own) m.group_id) db.members)
      (select-Keyed gm (map (λ g. g.id) own) db.members all)

module _ (new_group new_provider : ℕ → ℕ) (src dst : ℤ) (db : Db) where
  abbrev new_groups : List GroupRow
  new_groups = copy_groups dst new_group 0 (groups_of src db)

  abbrev new_providers : List ProviderRow
  new_providers = copy_providers dst new_provider 0 (providers_of src db)

  abbrev new_rules : Ids → Ids → List RuleRow
  new_rules gm pm =
      let last = max_rule_id db.rules in
      carried dst gm pm (rule_ids [] last (rules_of src db)) last (rules_of src db)

  -- The tables after each of the first four steps.
  abbrev with_groups : Db
  with_groups = record db { groups = db.groups ++ new_groups }

  abbrev with_members : Ids → Db
  with_members gm = record with_groups {
    members = db.members ++ map (carry_member gm) (members_of src db);
  }

  abbrev with_providers : Ids → Db
  with_providers gm = record (with_members gm) { providers = db.providers ++ new_providers }

  abbrev with_rules : Ids → Ids → Db
  with_rules gm pm = record (with_providers gm) { rules = db.rules ++ new_rules gm pm }

  -- The rows are copied, and then the settings and the profile.
  abbrev RowsCopied : Db → Ids → Ids → Type 0
  RowsCopied d gm pm =
      (groups_of dst with_groups ≡ new_groups)
      × Carries gm (ids_of_groups (groups_of src db)) (ids_of_groups new_groups)
      × (providers_of dst (with_providers gm) ≡ new_providers)
      × Carries pm (ids_of_providers (providers_of src db)) (ids_of_providers new_providers)
      × (rules_of dst (with_rules gm pm) ≡ new_rules gm pm)
      × ((clone_settings src dst (with_rules gm pm) >>= λ x. clone_profile src dst x) ≡ ok d)

  members_step :
      (gm : Ids) (d : Db)
      → src ≢ dst
      → Carries gm (ids_of_groups (groups_of src db)) (ids_of_groups new_groups)
      → clone_members src gm with_groups ≡ ok d
      → with_members gm ≡ d
  members_step gm d ne cg h =
      let kept : select (of_config src) (db.groups ++ new_groups)
          ≡ select (of_config src) db.groups =
        source_kept src dst db.groups new_groups ne
          (All-mono new_groups (λ g e. e.0) (copy_groups-All dst new_group 0 (groups_of src db))) in
      let same : members_of src with_groups ≡ members_of src db = rw kept refl in
      let keyed : All (λ m. Keyed gm m.group_id) (members_of src with_groups) =
        subst (All (λ m. Keyed gm m.group_id)) (sym same)
          (members_Keyed src db gm (ids_of_groups new_groups) cg) in
      subst (λ l. record with_groups { members = db.members ++ map (carry_member gm) l } ≡ d) same
        (clone_members-copies src gm with_groups d keyed h)

  rows_copied :
      (d : Db)
      → src ≢ dst
      → Fresh new_group dst db
      → Increasing new_provider
      → Distinct (ids_of_groups (groups_of src db))
      → Distinct (ids_of_providers (providers_of src db))
      → Sorted by_id (rules_of src db)
      → All (λ r. IsBefore r.parent_id r.id) (rules_of src db)
      → clone_config new_group new_provider src dst db ≡ ok d
      → (gm : Ids) × (pm : Ids) × RowsCopied d gm pm
  unfolding clone_config
  rows_copied d ne fresh up dg dp inc parents h =
      let ((gm, d1), h1, k1) = >>=-eq-ok (clone_groups new_group src dst db) _ d h in
      let (e1, own, cg) = clone_groups-copies src dst new_group db d1 gm fresh.groups dg h1 in
      let (d2, h2, k2) = >>=-eq-ok (clone_members src gm d1) _ d k1 in
      let e2 = members_step gm d2 ne cg (subst (λ x. clone_members src gm x ≡ ok d2) (sym e1) h2) in
      let ((pm, d3), h3, k3) = >>=-eq-ok (clone_providers new_provider src dst d2) _ d k2 in
      let (e3, pown, cp) =
        clone_providers-copies src dst new_provider (with_members gm) d3 pm up fresh.providers dp
          (subst (λ x. clone_providers new_provider src dst x ≡ ok (pm, d3)) (sym e2) h3) in
      let (d4, h4, k4) = >>=-eq-ok (clone_rules src dst gm pm d3) _ d k3 in
      let (e4, rown) =
        clone_rules-copies src dst gm pm (with_providers gm) d4 fresh.rules inc parents
          (subst (λ x. clone_rules src dst gm pm x ≡ ok d4) (sym e3) h4) in
      (
        gm,
        pm,
        (
          own,
          cg,
          pown,
          cp,
          rown,
          subst (λ x. (clone_settings src dst x >>= λ y. clone_profile src dst y) ≡ ok d) (sym e4)
              k4,
        ),
      )

  -- What the last two steps have copied, from tables that have the settings and profiles of these.
  texts_copied :
      (gm pm : Ids) (d : Db)
      → Fresh new_group dst db
      → RowsCopied d gm pm
      → IsCopy src dst db d gm pm
  unfolding profile setting
  texts_copied gm pm d fresh (own, cg, pown, cp, rown, k) =
      let c4 = with_rules gm pm in
      let (d5, h5, h6) = >>=-eq-ok (clone_settings src dst c4) _ d k in
      let (settings, e5, es) = clone_settings-made src dst c4 d5 fresh.settings h5 in
      let c5 : Db = record c4 { settings = settings } in
      let h6' : clone_profile src dst c5 ≡ ok d =
        subst (λ x. clone_profile src dst x ≡ ok d) (sym e5) h6 in
      let (profiles, e6, ep) = clone_profile-made src dst c5 d fresh.profiles h6' in
      let read : (key : String) → setting c5 dst key ≡ setting db src key =
        subst (λ x. (key : String) → setting x dst key ≡ setting db src key) (sym e5)
          (setting-clone_settings src dst c4 d5 fresh.settings h5) in
      let shown : profile (record c5 { profiles = profiles }) dst ≡ profile db src =
        subst (λ x. profile x dst ≡ profile db src) (sym e6)
          (profile-clone_profile src dst c5 d fresh.profiles h6') in
      subst (λ x. IsCopy src dst db x gm pm) e6
        (
          rw own (plain-copy_groups dst new_group 0 (groups_of src db)).0,
          rw own cg,
          rw pown (plain-copy_providers dst new_provider 0 (providers_of src db)).0,
          rw pown cp,
          refl,
          rown,
          shown,
          read,
        )

-- When CloneConfig succeeds on a new config, the ids of the groups and of the providers of the source are
-- distinct, the ids that new providers are given increase, and every rule of the source stands after its
-- parent: the copy has the groups and providers of the source in the same order, and two maps carry each
-- of their ids to that of its copy; every member of the source and every rule is copied with its ids
-- carried along, and the profile and the settings are those of the source.
pub clone_config-IsCopy :
    (new_group new_provider : ℕ → ℕ) (src dst : ℤ) (db d : Db)
    → src ≢ dst
    → Fresh new_group dst db
    → Increasing new_provider
    → Distinct (ids_of_groups (groups_of src db))
    → Distinct (ids_of_providers (providers_of src db))
    → Sorted by_id (rules_of src db)
    → All (λ r. IsBefore r.parent_id r.id) (rules_of src db)
    → clone_config new_group new_provider src dst db ≡ ok d
    → (gm : Ids) × (pm : Ids) × IsCopy src dst db d gm pm
clone_config-IsCopy new_group new_provider src dst db d ne fresh up dg dp inc parents h =
    let (gm, pm, rows) =
      rows_copied new_group new_provider src dst db d ne fresh up dg dp inc parents h in
    (gm, pm, texts_copied new_group new_provider src dst db gm pm d fresh rows)
