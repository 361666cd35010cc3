-- ===== src/Store/Save.antt =====
-- internal/repository/routing/save_mihomo_config.go: a config is replaced in one transaction. An error
-- rolls back, so the tables that an error leaves are those before.
use subgen.Prelude.Int.{ℤ, pos, negsuc, int_eq}
use subgen.Prelude.Lists.{get_elem?}
use subgen.Prelude.Maps.{lookup, insert}
use subgen.Prelude.{
  ℕ, suc, String, Bool, true, false, ◌&&◌, not, List, [], ◌∷◌, ◌++◌, map, Option, none, some,
  Result, ok, err, ◌>>=◌, ◌>>◌, reject_if, ◌==◌, nat_eq, string_eq, if◌then◌else◌, leb,
}
use subgen.Mihomo.RuleType
use subgen.Mihomo.PolicyRef.{PolicyKind, is_set, differ, is_inbound, is_group}
use subgen.Mihomo.ProxyGroup.{RuleProvider, Profile}
use subgen.Mihomo.Draft.{
  RefDraft, RuleFields, RuleDraft, rule, RuleDrafts, nil, cons, GroupDraft, ConfigDraft, is_true,
}
use subgen.Store.Tables.{
  GroupRow, MemberRow, ProviderRow, RuleRow, Db, StoreError, rule_provider_name_taken,
  constraint_failed, ref_without_inbound, ref_out_of_range, select, order_by, has_repeats,
}

-- boolInt, boolIntPtr
abbrev pub bool_int : Bool → ℕ
bool_int true = 1
bool_int false = 0

abbrev pub bool_int_ptr : Option Bool → Option ℕ
bool_int_ptr none = none
bool_int_ptr (some b) = some (bool_int b)

-- WHERE config_id = ?
abbrev pub of_config : ℤ → GroupRow → Bool
of_config c r = r.config_id == c

abbrev pub provider_of : ℤ → ProviderRow → Bool
provider_of c r = r.config_id == c

abbrev pub rule_of : ℤ → RuleRow → Bool
rule_of c r = r.config_id == c

-- group_id IN (ids)
unfoldable pub one_of : List ℕ → ℕ → Bool
one_of [] id = false
one_of (i ∷ is) id = if i == id then true else one_of is id

-- The four DELETE statements.
unfoldable pub drop_config : ℤ → Db → Db
unfolding select one_of
drop_config c db = record db {
  rules = select (λ r. not (rule_of c r)) db.rules;
  members =
      select (λ m. not (one_of (map (λ g. g.id) (select (of_config c) db.groups)) m.group_id))
        db.members;
  groups = select (λ g. not (of_config c g)) db.groups;
  providers = select (λ p. not (provider_of c p)) db.providers;
}

-- groupRows from index i on; `new_id` gives the id that each row of the INSERT is assigned.
unfoldable pub group_rows : ℤ → (ℕ → ℕ) → ℕ → List GroupDraft → List GroupRow
group_rows c new_id i [] = []
group_rows c new_id i (g ∷ gs) =
    record {
      id = new_id i;
      config_id = c;
      position = i;
      name = g.name;
      type = g.type;
      url = g.url;
      interval = g.interval;
      tolerance = g.tolerance;
      lazy = bool_int_ptr g.lazy;
    }
    ∷ group_rows c new_id (suc i) gs

-- providerRows, likewise.
unfoldable pub provider_rows : ℤ → (ℕ → ℕ) → ℕ → List RuleProvider → List ProviderRow
provider_rows c new_id i [] = []
provider_rows c new_id i (p ∷ ps) =
    record {
      id = new_id i;
      config_id = c;
      name = p.name;
      behavior = p.behavior;
      format = p.format;
      mirror = bool_int p.mirror;
      url = p.url;
      interval = p.interval;
      mirror_interval = p.mirror_interval;
    }
    ∷ provider_rows c new_id (suc i) ps

abbrev pub by_position : GroupRow → GroupRow → Bool
by_position a b = leb a.position b.position

-- SELECT id … ORDER BY position, and ORDER BY id
unfoldable pub group_ids : ℤ → List GroupRow → List ℕ
unfolding select order_by
group_ids c rows = map (λ g. g.id) (order_by by_position (select (of_config c) rows))

abbrev pub provider_by_id : ProviderRow → ProviderRow → Bool
provider_by_id a b = leb a.id b.id

unfoldable pub provider_ids : ℤ → List ProviderRow → List ℕ
unfolding select order_by
provider_ids c rows = map (λ p. p.id) (order_by provider_by_id (select (provider_of c) rows))

-- ids[*idx], with the range check
abbrev pub found_id : Option ℕ → Result StoreError (Option ℕ)
found_id none = err ref_out_of_range
found_id (some id) = ok (some id)

abbrev pub id_at : List ℕ → ℤ → Result StoreError (Option ℕ)
id_at ids (pos i) = found_id (get_elem? ids i)
id_at ids (negsuc i) = err ref_out_of_range

-- The columns inbound_id and ref_group_id (or target_group_id).
abbrev pub Columns : Type 0
Columns = Option ℤ × Option ℕ

abbrev pub inbound_column : Option ℤ → Result StoreError Columns
inbound_column none = err ref_without_inbound
inbound_column (some id) = ok (some id, none)

abbrev pub group_column : Option ℤ → List ℕ → Result StoreError Columns
group_column none ids = err ref_out_of_range
group_column (some idx) ids = id_at ids idx >>= λ id. ok (none, id)

-- refColumns
unfoldable pub ref_columns : PolicyKind → RefDraft → List ℕ → Result StoreError Columns
ref_columns PolicyKind.inbound ref ids = inbound_column ref.inbound_id
ref_columns PolicyKind.group ref ids = group_column ref.group_idx ids
ref_columns _ ref ids = ok (none, none)

-- providerColumn
unfoldable pub provider_column : Option ℤ → List ℕ → Result StoreError (Option ℕ)
provider_column none ids = ok none
provider_column (some idx) ids = id_at ids idx

-- The foreign key to node_inbounds.
unfoldable pub contains_id : List ℤ → ℤ → Bool
contains_id [] id = false
contains_id (i ∷ is) id = if i == id then true else contains_id is id

abbrev pub inbound_exists : List ℤ → Option ℤ → Bool
inbound_exists inbounds none = true
inbound_exists inbounds (some id) = contains_id inbounds id

-- memberRows of one group, from index j on.
unfoldable pub member_rows : List ℕ → ℕ → ℕ → List RefDraft → Result StoreError (List MemberRow)
unfolding ref_columns
member_rows ids group_id j [] = ok []
member_rows ids group_id j (m ∷ ms) =
    let rest = member_rows ids group_id (suc j) ms in
    do
      columns ← ref_columns m.kind m ids
      rows ← rest
      ok (
          record {
            group_id = group_id;
            position = j;
            kind = m.kind;
            inbound_id = columns.0;
            ref_group_id = columns.1;
          }
          ∷ rows)

-- groupID[i]
abbrev pub id_or_zero : Option ℕ → ℕ
id_or_zero none = 0
id_or_zero (some id) = id

-- memberRows of all groups, from index i on.
unfoldable pub all_member_rows : List ℕ → ℕ → List GroupDraft → Result StoreError (List MemberRow)
unfolding member_rows
all_member_rows ids i [] = ok []
all_member_rows ids i (g ∷ gs) =
    let rest = all_member_rows ids (suc i) gs in
    do
      rows ← member_rows ids (id_or_zero (get_elem? ids i)) 0 g.members
      more ← rest
      ok (rows ++ more)

-- The constraints of a member row that the INSERT may violate.
unfoldable pub members_fit : List ℤ → List MemberRow → Bool
unfolding contains_id
members_fit inbounds [] = true
members_fit inbounds (m ∷ ms) =
    inbound_exists inbounds m.inbound_id
    && not (differ (is_inbound m.kind) (is_set m.inbound_id))
    && not (differ (is_group m.kind) (is_set m.ref_group_id))
    && members_fit inbounds ms

abbrev pub target_columns : Option RefDraft → List ℕ → Result StoreError Columns
target_columns none ids = ok (none, none)
target_columns (some ref) ids = ref_columns ref.kind ref ids

abbrev pub kind_of : Option RefDraft → Option PolicyKind
kind_of none = none
kind_of (some ref) = some ref.kind

-- The row of one rule.
abbrev pub rule_row : ℤ → Option ℕ → ℕ → ℕ → RuleFields → Columns → Option ℕ → RuleRow
rule_row c parent position id f columns provider = record {
  id = id;
  config_id = c;
  parent_id = parent;
  position = position;
  type = f.type;
  value = f.value;
  provider_id = provider;
  no_resolve = bool_int (is_true f.no_resolve);
  target_kind = kind_of f.target;
  inbound_id = columns.0;
  target_group_id = columns.1;
}

-- What `build` returns: the rows in the order of their ids, and the last id given.
abbrev pub Built : Type 0
Built = Result StoreError (List RuleRow × ℕ)

-- The row, the rows of the children, and those of the rules after it.
abbrev pub with_row : RuleRow → Built → (ℕ → Built) → Built
with_row row below after = do
  (rows, next) ← below
  (more, last) ← after next
  ok (row ∷ rows ++ more, last)

abbrev pub if_logical : Bool → ℕ → Built → Built
if_logical true id below = below
if_logical false id below = ok ([], id)

-- `build`; `position` counts the rules of the list, and `next` is the last id given.
module _ (c : ℤ) (group_id provider_id : List ℕ) where
  unfoldable mutual
    unfolding ref_columns provider_column RuleType.is_logical

    pub build : RuleDrafts → Option ℕ → ℕ → ℕ → Built
    build nil parent position next = ok ([], next)
    build (cons r rs) parent position next =
        build_rule r parent position next (build rs parent (suc position))

    pub build_rule : RuleDraft → Option ℕ → ℕ → ℕ → (ℕ → Built) → Built
    build_rule (rule f cs) parent position next after =
        let below = build cs (some (suc next)) 0 (suc next) in
        do
          columns ← target_columns f.target group_id
          provider ← provider_column f.provider_idx provider_id
          with_row (rule_row c parent position (suc next) f columns provider)
              (if_logical (RuleType.is_logical f.type) (suc next) below) after

abbrev max : ℕ → ℕ → ℕ
max a b = if leb a b then b else a

-- maxRuleID
unfoldable pub max_rule_id : List RuleRow → ℕ
max_rule_id [] = 0
max_rule_id (r ∷ rs) = max r.id (max_rule_id rs)

-- The constraints of a rule row that the INSERT may violate.
unfoldable pub rules_fit : List ℤ → List RuleRow → Bool
unfolding contains_id
rules_fit inbounds [] = true
rules_fit inbounds (r ∷ rs) =
    inbound_exists inbounds r.inbound_id
    && differ (is_set r.parent_id) (is_set r.target_kind)
    && rules_fit inbounds rs

-- insertRules
unfoldable pub insert_rules : ℤ → RuleDrafts → List ℕ → List ℕ → Db → Result StoreError Db
unfolding build max_rule_id rules_fit
insert_rules c rules group_id provider_id db = do
  (rows, last) ← build c group_id provider_id rules none 0 (max_rule_id db.rules)
  reject_if (not (rules_fit db.inbounds rows)) constraint_failed
  ok (record db { rules = db.rules ++ rows })

abbrev pub or_empty : Option (List (String × String)) → List (String × String)
or_empty none = []
or_empty (some m) = m

-- The two upserts.
unfoldable pub put_settings : ℤ → String → Profile → Db → Db
unfolding lookup insert
put_settings c base_yaml profile db = record db {
  settings = insert c (insert "base_yaml" base_yaml (or_empty (lookup c db.settings))) db.settings;
  profiles = insert c profile db.profiles;
}

unfoldable pub insert_groups : ℤ → (ℕ → ℕ) → List GroupDraft → Db → Result StoreError Db
unfolding group_rows has_repeats select
insert_groups c new_id groups db = do
  let rows = db.groups ++ group_rows c new_id 0 groups
  reject_if (has_repeats (map (λ g. g.name) (select (of_config c) rows))) constraint_failed
  ok (record db { groups = rows })

unfoldable pub insert_providers : ℤ → (ℕ → ℕ) → List RuleProvider → Db → Result StoreError Db
unfolding provider_rows has_repeats select
insert_providers c new_id providers db = do
  let rows = db.providers ++ provider_rows c new_id 0 providers
  reject_if (has_repeats (map (λ p. p.name) (select (provider_of c) rows))) rule_provider_name_taken
  ok (record db { providers = rows })

unfoldable pub insert_members : ℤ → List GroupDraft → Db → Result StoreError Db
unfolding group_ids all_member_rows members_fit
insert_members c groups db = do
  rows ← all_member_rows (group_ids c db.groups) 0 groups
  reject_if (not (members_fit db.inbounds rows)) constraint_failed
  ok (record db { members = db.members ++ rows })

-- SaveMihomoConfig. The functions give the ids that the rows of the two batched INSERTs are assigned.
unfoldable pub save_mihomo_config : (ℕ → ℕ) → (ℕ → ℕ) → ℤ → ConfigDraft → Db → Result StoreError Db
unfolding drop_config insert_groups insert_providers insert_members insert_rules put_settings
    group_ids provider_ids
save_mihomo_config new_group new_provider c draft db = do
  db ← insert_groups c new_group draft.groups (drop_config c db)
  db ← insert_providers c new_provider draft.providers db
  db ← insert_members c draft.groups db
  db ← insert_rules c draft.rules (group_ids c db.groups) (provider_ids c db.providers) db
  ok (put_settings c draft.base_yaml draft.profile db)
