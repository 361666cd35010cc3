-- ===== src/Store/Clone.antt =====
-- internal/repository/routing/clone_config.go: the rows of a config are copied under the id of another. An
-- error rolls back, so the tables that an error leaves are those before.
use subgen.Prelude.Int.{ℤ, int_eq}
use subgen.Prelude.Maps.{lookup, insert}
use subgen.Prelude.{
  ℕ, suc, String, Bool, true, ◌&&◌, not, List, [], ◌∷◌, ◌++◌, map, Option, none, some, Result, ok,
  err, ◌>>=◌, ◌>>◌, reject_if, nat_eq, string_eq, leb,
}
use subgen.Mihomo.ProxyGroup.{Profile}
use subgen.Store.Tables.{
  GroupRow, MemberRow, ProviderRow, RuleRow, Db, select, order_by, has_repeats,
}
use subgen.Store.Load.{by_group}
use subgen.Store.Save.{
  of_config, provider_of, rule_of, by_position, provider_by_id, group_ids, provider_ids, one_of,
  members_fit, rules_fit, max_rule_id, id_or_zero,
}

-- A statement violates a constraint, or fewer ids are read back than rows were inserted: newIDs[i] panics.
pub data CloneError : Type 0 where
  violated index_panics : CloneError

-- The new id of each old one.
abbrev pub Ids : Type 0
Ids = List (ℕ × ℕ)

-- idMap[old[i]] = newIDs[i], for the rest of the list
unfoldable pub pair_up : List ℕ → List ℕ → Ids → Result CloneError Ids
unfolding insert
pair_up [] new ids = ok ids
pair_up (o ∷ os) [] ids = err index_panics
pair_up (o ∷ os) (n ∷ ns) ids = pair_up os ns (insert o n ids)

-- The rows of one batch, numbered from i on; `new_id` gives the id that each is assigned.
unfoldable pub copy_groups : ℤ → (ℕ → ℕ) → ℕ → List GroupRow → List GroupRow
copy_groups dst new_id i [] = []
copy_groups dst new_id i (g ∷ gs) =
    record g { id = new_id i; config_id = dst } ∷ copy_groups dst new_id (suc i) gs

-- cloneGroups
unfoldable pub clone_groups : (ℕ → ℕ) → ℤ → ℤ → Db → Result CloneError (Ids × Db)
unfolding select order_by copy_groups has_repeats group_ids pair_up
clone_groups new_id src dst db = do
  let groups = order_by by_position (select (of_config src) db.groups)
  let rows = db.groups ++ copy_groups dst new_id 0 groups
  reject_if (has_repeats (map (λ g. g.name) (select (of_config dst) rows))) violated
  ids ← pair_up (map (λ g. g.id) groups) (group_ids dst rows) []
  ok (ids, record db { groups = rows })

-- A nullable id through the map; an id that is not there becomes NULL.
abbrev pub mapped : Ids → Option ℕ → Option ℕ
mapped ids none = none
mapped ids (some id) = lookup id ids

-- The row of a member, unless its group is not in the map.
abbrev pub copy_member : Ids → MemberRow → Option ℕ → List MemberRow → List MemberRow
copy_member ids m none rest = rest
copy_member ids m (some group) rest =
    record m { group_id = group; ref_group_id = mapped ids m.ref_group_id } ∷ rest

unfoldable pub copy_members : Ids → List MemberRow → List MemberRow
unfolding lookup
copy_members ids [] = []
copy_members ids (m ∷ ms) = copy_member ids m (lookup m.group_id ids) (copy_members ids ms)

-- cloneMembers
unfoldable pub clone_members : ℤ → Ids → Db → Result CloneError Db
unfolding select order_by one_of copy_members members_fit
clone_members src [] db = ok db
clone_members src (entry ∷ ids) db = do
  let groups = map (λ g. g.id) (select (of_config src) db.groups)
  let members = order_by by_group (select (λ m. one_of groups m.group_id) db.members)
  let rows = copy_members (entry ∷ ids) members
  reject_if (not (members_fit db.inbounds rows)) violated
  ok (record db { members = db.members ++ rows })

unfoldable pub copy_providers : ℤ → (ℕ → ℕ) → ℕ → List ProviderRow → List ProviderRow
copy_providers dst new_id i [] = []
copy_providers dst new_id i (p ∷ ps) =
    record p { id = new_id i; config_id = dst } ∷ copy_providers dst new_id (suc i) ps

-- cloneProviders
unfoldable pub clone_providers : (ℕ → ℕ) → ℤ → ℤ → Db → Result CloneError (Ids × Db)
unfolding select order_by copy_providers has_repeats provider_ids pair_up
clone_providers new_id src dst db = do
  let provs = order_by provider_by_id (select (provider_of src) db.providers)
  let rows = db.providers ++ copy_providers dst new_id 0 provs
  reject_if (has_repeats (map (λ p. p.name) (select (provider_of dst) rows))) violated
  ids ← pair_up (map (λ p. p.id) provs) (provider_ids dst rows) []
  ok (ids, record db { providers = rows })

-- ORDER BY id
abbrev pub rule_by_id : RuleRow → RuleRow → Bool
rule_by_id a b = leb a.id b.id

-- idMap[ru.parentID.V], which is 0 for an id that is not there
abbrev pub parent_in : Ids → Option ℕ → Option ℕ
parent_in ids none = none
parent_in ids (some id) = some (id_or_zero (lookup id ids))

-- The loop over the rules, after the new id `last`; `ids` are those of the rules before.
module _ (dst : ℤ) (group_map prov_map : Ids) where
  abbrev pub copy_rule : Ids → ℕ → RuleRow → RuleRow
  copy_rule ids new r = record r {
    id = new;
    config_id = dst;
    parent_id = parent_in ids r.parent_id;
    provider_id = mapped prov_map r.provider_id;
    target_group_id = mapped group_map r.target_group_id;
  }

  unfoldable pub copy_rules : Ids → ℕ → List RuleRow → List RuleRow
  unfolding insert lookup
  copy_rules ids last [] = []
  copy_rules ids last (r ∷ rs) =
      let ids' = insert r.id (suc last) ids in
      copy_rule ids' (suc last) r ∷ copy_rules ids' (suc last) rs

-- The foreign key of parent_id.
abbrev pub parent_exists : List ℕ → Option ℕ → Bool
parent_exists ids none = true
parent_exists ids (some id) = one_of ids id

unfoldable pub parents_exist : List ℕ → List RuleRow → Bool
unfolding one_of
parents_exist ids [] = true
parents_exist ids (r ∷ rs) = parent_exists ids r.parent_id && parents_exist ids rs

-- cloneRules
unfoldable pub clone_rules : ℤ → ℤ → Ids → Ids → Db → Result CloneError Db
unfolding select order_by copy_rules max_rule_id rules_fit parents_exist
clone_rules src dst group_map prov_map db = do
  let rules = order_by rule_by_id (select (rule_of src) db.rules)
  let rows = copy_rules dst group_map prov_map [] (max_rule_id db.rules) rules
  let all = db.rules ++ rows
  reject_if (not (rules_fit db.inbounds rows && parents_exist (map (λ r. r.id) all) rows)) violated
  ok (record db { rules = all })

-- INSERT INTO mihomo_settings … SELECT: the pairs of a config, beside those that are there.
abbrev put_pairs :
    ℤ
    → List (String × String)
    → List (ℤ × List (String × String))
    → Option (List (String × String))
    → Result CloneError (List (ℤ × List (String × String)))
put_pairs dst pairs settings none = ok (insert dst pairs settings)
put_pairs dst pairs settings (some old) = do
  reject_if (has_repeats (map (λ p. p.0) (old ++ pairs))) violated
  ok (insert dst (old ++ pairs) settings)

abbrev copy_settings :
    ℤ
    → List (ℤ × List (String × String))
    → Option (List (String × String))
    → Result CloneError (List (ℤ × List (String × String)))
copy_settings dst settings none = ok settings
copy_settings dst settings (some pairs) = put_pairs dst pairs settings (lookup dst settings)

-- cloneSettings
unfoldable pub clone_settings : ℤ → ℤ → Db → Result CloneError Db
unfolding lookup insert has_repeats
clone_settings src dst db = do
  settings ← copy_settings dst db.settings (lookup src db.settings)
  ok (record db { settings = settings })

abbrev put_profile :
    ℤ → Profile → List (ℤ × Profile) → Option Profile → Result CloneError (List (ℤ × Profile))
put_profile dst p profiles none = ok (insert dst p profiles)
put_profile dst p profiles (some old) = err violated

abbrev copy_profile :
    ℤ → List (ℤ × Profile) → Option Profile → Result CloneError (List (ℤ × Profile))
copy_profile dst profiles none = ok profiles
copy_profile dst profiles (some p) = put_profile dst p profiles (lookup dst profiles)

-- cloneProfile
unfoldable pub clone_profile : ℤ → ℤ → Db → Result CloneError Db
unfolding lookup insert
clone_profile src dst db = do
  profiles ← copy_profile dst db.profiles (lookup src db.profiles)
  ok (record db { profiles = profiles })

-- CloneConfig. The functions give the ids that the rows of the two batched INSERTs are assigned.
unfoldable pub clone_config : (ℕ → ℕ) → (ℕ → ℕ) → ℤ → ℤ → Db → Result CloneError Db
unfolding clone_groups clone_members clone_providers clone_rules clone_settings clone_profile
clone_config new_group new_provider src dst db = do
  (group_map, db) ← clone_groups new_group src dst db
  db ← clone_members src group_map db
  (prov_map, db) ← clone_providers new_provider src dst db
  db ← clone_rules src dst group_map prov_map db
  db ← clone_settings src dst db
  clone_profile src dst db
