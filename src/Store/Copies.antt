-- ===== src/Store/Copies.antt =====
-- internal/repository/routing/clone_config.go: what each step of the copy has made.
use subgen.Prelude.Int.{ℤ, int_eq, int_eqb_iff}
use subgen.Prelude.Lists.{All, All-mono, Distinct}
use subgen.Prelude.Maps.{lookup, insert}
use subgen.Prelude.{
  ℕ, suc, ◌<◌, true, false, ◌&&◌, not, List, [], ◌∷◌, ◌++◌, map, some, ok, ◌≡◌, subst, arith,
  >>=-eq-ok, reject-eq-ok, nat_eq, string_eq,
}
use subgen.Store.Tables.{
  GroupRow, MemberRow, ProviderRow, RuleRow, Db, select, order_by, has_repeats,
}
use subgen.Store.Save.{
  of_config, provider_of, rule_of, by_position, provider_by_id, group_ids, provider_ids, one_of,
  rules_fit, max_rule_id,
}
use subgen.Store.Load.{by_group}
use subgen.Store.Order.{sorted, Sorted}
use subgen.Store.Members.{Increasing}
use subgen.Store.Clone.{
  Ids, pair_up, copy_groups, copy_providers, copy_rules, rule_by_id, clone_groups, clone_providers,
  clone_rules, violated, parents_exist,
}
use subgen.Store.Copied.{copy_groups-All, copy_providers-All, copy_rules-All}
use subgen.Store.Carried.{
  new_rows, pair_up-lookup, copy_groups-Sorted, copy_providers-Sorted, plain-copy_groups,
  plain-copy_providers, copy_rules-carried, carried, rule_ids, by_id, IsBefore,
}

by_position_total : (a b : GroupRow) → by_position a b ≡ false → by_position b a ≡ true
by_position_total a b h = ground arith

by_position_trans :
    (a b d : GroupRow) → by_position a b ≡ true → by_position b d ≡ true → by_position a d ≡ true
by_position_trans a b d h g = ground arith

-- The rows of a config in the order of the queries.
abbrev pub groups_of : ℤ → Db → List GroupRow
groups_of c db = order_by by_position (select (of_config c) db.groups)

abbrev pub providers_of : ℤ → Db → List ProviderRow
providers_of c db = order_by provider_by_id (select (provider_of c) db.providers)

abbrev pub rules_of : ℤ → Db → List RuleRow
rules_of c db = order_by rule_by_id (select (rule_of c) db.rules)

abbrev pub members_of : ℤ → Db → List MemberRow
members_of c db =
    order_by by_group (
      select (λ m. one_of (map (λ g. g.id) (select (of_config c) db.groups)) m.group_id) db.members)

abbrev pub ids_of_groups : List GroupRow → List ℕ
ids_of_groups gs = map (λ g. g.id) gs

abbrev pub ids_of_providers : List ProviderRow → List ℕ
ids_of_providers ps = map (λ p. p.id) ps

-- The map carries the i-th id to the i-th new id.
abbrev pub Carries : Ids → List ℕ → List ℕ → Type 0
Carries ids old new = map (λ o. lookup o ids) old ≡ map some new

module _ (src dst : ℤ) (new_id : ℕ → ℕ) where
  pub clone_groups-copies :
      (db d : Db) (ids : Ids)
      → All (λ g. of_config dst g ≡ false) db.groups
      → Distinct (ids_of_groups (groups_of src db))
      → clone_groups new_id src dst db ≡ ok (ids, d)
      → let made = copy_groups dst new_id 0 (groups_of src db) in
        let d' = record db { groups = db.groups ++ made } in
        (d' ≡ d)
        × (groups_of dst d' ≡ made)
        × Carries ids (ids_of_groups (groups_of src db)) (ids_of_groups made)
  unfolding clone_groups group_ids
  clone_groups-copies db d ids fresh distinct h =
      let gs = groups_of src db in
      let made = copy_groups dst new_id 0 gs in
      let rows = db.groups ++ made in
      let own : order_by by_position (select (of_config dst) rows) ≡ made =
        new_rows (of_config dst) by_position db.groups made fresh
          (All-mono made (λ g e. (int_eqb_iff g.config_id dst).1 e.0)
            (copy_groups-All dst new_id 0 gs))
          (copy_groups-Sorted dst new_id 0 gs (
            sorted by_position by_position_total by_position_trans
              (select (of_config src) db.groups))) in
      let (free, h') =
        reject-eq-ok (has_repeats (map (λ g. g.name) (select (of_config dst) rows))) violated _
          (ids, d) h in
      let (found, paired, e) =
        >>=-eq-ok (pair_up (ids_of_groups gs) (group_ids dst rows) []) _ (ids, d) h' in
      let same : found ≡ ids = cc in
      (
        cc,
        own,
        subst (λ m. Carries m (ids_of_groups gs) (ids_of_groups made)) same
            (pair_up-lookup (ids_of_groups gs) (ids_of_groups made) [] found distinct
              (plain-copy_groups dst new_id 0 gs).1 (rw own at paired)),
      )

  pub clone_providers-copies :
      (db d : Db) (ids : Ids)
      → Increasing new_id
      → All (λ p. provider_of dst p ≡ false) db.providers
      → Distinct (ids_of_providers (providers_of src db))
      → clone_providers new_id src dst db ≡ ok (ids, d)
      → let made = copy_providers dst new_id 0 (providers_of src db) in
        let d' = record db { providers = db.providers ++ made } in
        (d' ≡ d)
        × (providers_of dst d' ≡ made)
        × Carries ids (ids_of_providers (providers_of src db)) (ids_of_providers made)
  unfolding clone_providers provider_ids
  clone_providers-copies db d ids up fresh distinct h =
      let ps = providers_of src db in
      let made = copy_providers dst new_id 0 ps in
      let rows = db.providers ++ made in
      let own : order_by provider_by_id (select (provider_of dst) rows) ≡ made =
        new_rows (provider_of dst) provider_by_id db.providers made fresh
          (All-mono made (λ p e. (int_eqb_iff p.config_id dst).1 e)
            (copy_providers-All dst new_id 0 ps))
          (copy_providers-Sorted dst new_id up 0 ps) in
      let (free, h') =
        reject-eq-ok (has_repeats (map (λ p. p.name) (select (provider_of dst) rows))) violated _
          (ids, d) h in
      let (found, paired, e) =
        >>=-eq-ok (pair_up (ids_of_providers ps) (provider_ids dst rows) []) _ (ids, d) h' in
      let same : found ≡ ids = cc in
      (
        cc,
        own,
        subst (λ m. Carries m (ids_of_providers ps) (ids_of_providers made)) same
            (pair_up-lookup (ids_of_providers ps) (ids_of_providers made) [] found distinct
              (plain-copy_providers dst new_id 0 ps).1 (rw own at paired)),
      )

copied_rules-above :
    (dst : ℤ) (gm pm ids : Ids) (last : ℕ) (rs : List RuleRow)
    → All (λ r. last < r.id) (copy_rules dst gm pm ids last rs)
unfolding copy_rules
copied_rules-above dst gm pm ids last [] = tt
copied_rules-above dst gm pm ids last (r ∷ rs) = (
  omega arith,
  All-mono (copy_rules dst gm pm (insert r.id (suc last) ids) (suc last) rs) (λ x l. omega arith)
      (copied_rules-above dst gm pm (insert r.id (suc last) ids) (suc last) rs),
)

copied_rules-Sorted :
    (dst : ℤ) (gm pm ids : Ids) (last : ℕ) (rs : List RuleRow)
    → Sorted rule_by_id (copy_rules dst gm pm ids last rs)
unfolding copy_rules Sorted
copied_rules-Sorted dst gm pm ids last [] = tt
copied_rules-Sorted dst gm pm ids last (r ∷ rs) = (
  All-mono (copy_rules dst gm pm (insert r.id (suc last) ids) (suc last) rs) (λ x l. ground arith)
      (copied_rules-above dst gm pm (insert r.id (suc last) ids) (suc last) rs),
  copied_rules-Sorted dst gm pm (insert r.id (suc last) ids) (suc last) rs,
)

pub clone_rules-copies :
    (src dst : ℤ) (gm pm : Ids) (db d : Db)
    → All (λ r. rule_of dst r ≡ false) db.rules
    → Sorted by_id (rules_of src db)
    → All (λ r. IsBefore r.parent_id r.id) (rules_of src db)
    → clone_rules src dst gm pm db ≡ ok d
    → let last = max_rule_id db.rules in
      let made = carried dst gm pm (rule_ids [] last (rules_of src db)) last (rules_of src db) in
      let d' = record db { rules = db.rules ++ made } in (d' ≡ d) × (rules_of dst d' ≡ made)
unfolding clone_rules
clone_rules-copies src dst gm pm db d fresh inc parents h =
    let rs = rules_of src db in
    let last = max_rule_id db.rules in
    let rows = copy_rules dst gm pm [] last rs in
    let (fit, e) =
      reject-eq-ok
        (not
          (rules_fit db.inbounds rows && parents_exist (map (λ r. r.id) (db.rules ++ rows)) rows))
        violated _ d h in
    let own : order_by rule_by_id (select (rule_of dst) (db.rules ++ rows)) ≡ rows =
      new_rows (rule_of dst) rule_by_id db.rules rows fresh
        (All-mono rows (λ r e. (int_eqb_iff r.config_id dst).1 e)
          (copy_rules-All dst gm pm [] last rs))
        (copied_rules-Sorted dst gm pm [] last rs) in
    subst
      (λ made.
        let d' = record db { rules = db.rules ++ made } in (d' ≡ d) × (rules_of dst d' ≡ made))
      (copy_rules-carried dst gm pm [] last rs inc parents) (cc, own)
