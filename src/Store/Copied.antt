-- ===== src/Store/Copied.antt =====
-- internal/repository/routing/clone_config.go: what a copy adds to the tables.
use subgen.Prelude.Int.{ℤ, int_eq, int_eqb_iff}
use subgen.Prelude.Lists.{All, In, All-of, In-map, append_nil}
use subgen.Prelude.Maps.{lookup, insert, All-insert, All-lookup}
use subgen.Prelude.{
  ℕ, suc, String, Bool, true, ◌&&◌, not, List, [], ◌∷◌, ◌++◌, map, none, ok, ◌≡◌, refl, ap, subst,
  >>=-eq-ok, reject-eq-ok, nat_eq, string_eq, ◌==◌, Bool-cases, inl, inr, Option-cases, nat_eqb,
  nat_eqb_iff,
}
use subgen.Store.Tables.{
  GroupRow, MemberRow, ProviderRow, RuleRow, Db, select, order_by, has_repeats,
}
use subgen.Store.Save.{
  of_config, provider_of, rule_of, by_position, provider_by_id, group_ids, provider_ids, one_of,
  members_fit, rules_fit, max_rule_id,
}
use subgen.Store.Load.{by_group}
use subgen.Store.Order.{All-order_by}
use subgen.Mihomo.ProxyGroup.{Profile}
use subgen.Store.Clone.{
  Ids, pair_up, copy_groups, clone_groups, copy_members, clone_members, copy_providers,
  clone_providers, rule_by_id, copy_rules, parents_exist, clone_rules, clone_settings,
  clone_profile, violated,
}

-- The values of the map pass a test that the new ids pass.
pair_up-All :
    (P : ℕ → Type 0) (old new : List ℕ) (ids ids' : Ids)
    → All P new
    → All (λ e. P e.1) ids
    → pair_up old new ids ≡ ok ids'
    → All (λ e. P e.1) ids'
unfolding pair_up
pair_up-All P [] new ids ids' h g e = let f : ids ≡ ids' = cc in subst (All (λ e. P e.1)) f g
pair_up-All P (o ∷ os) [] ids ids' h g e = absurd cc
pair_up-All P (o ∷ os) (n ∷ ns) ids ids' h g e =
    pair_up-All P os ns (insert o n ids) ids' h.1 (All-insert (λ e. P e.1) o n ids g h.0) e

pub copy_groups-All :
    (dst : ℤ) (new_id : ℕ → ℕ) (i : ℕ) (gs : List GroupRow)
    → All (λ g. (g.config_id ≡ dst) × ((k : ℕ) × (g.id ≡ new_id k))) (copy_groups dst new_id i gs)
unfolding copy_groups
copy_groups-All dst new_id i [] = tt
copy_groups-All dst new_id i (g ∷ gs) = ((refl, (i, refl)), copy_groups-All dst new_id (suc i) gs)

one_of-In : (id : ℕ) (ids : List ℕ) → In id ids → one_of ids id ≡ true
unfolding one_of
one_of-In id [] i = absurd i
one_of-In id (x ∷ ids) i = elim (Bool-cases (nat_eqb x id)) [
  | inl same ↦ rw same refl
  | inr other ↦ rw other (
      one_of-In id ids (elim i [ inl e ↦ let t = (nat_eqb_iff x id).1 e in absurd cc | inr j ↦ j ]))
]

pub All-map :
    {A B : Type 0} (f : A → B) (P : B → Type 0) (xs : List A)
    → All (λ x. P (f x)) xs
    → All P (map f xs)
All-map f P [] h = tt
All-map f P (x ∷ xs) h = (h.0, All-map f P xs h.1)

-- The id is that of a group of the config.
abbrev pub Named : ℤ → List GroupRow → ℕ → Type 0
Named dst rows id = one_of (map (λ g. g.id) (select (of_config dst) rows)) id ≡ true

group_ids-Named : (dst : ℤ) (rows : List GroupRow) → All (Named dst rows) (group_ids dst rows)
unfolding group_ids
group_ids-Named dst rows =
    let own = select (of_config dst) rows in
    All-map (λ g. g.id) (Named dst rows) (order_by by_position own)
      (All-order_by by_position (λ g. Named dst rows g.id) own
        (All-of (λ g. Named dst rows g.id) own
          (λ g i. one_of-In g.id (map (λ g. g.id) own) (In-map (λ g. g.id) g own i))))

-- What the groups of a copy are.
abbrev pub NewGroups : ℤ → (ℕ → ℕ) → List GroupRow → Type 0
NewGroups dst new_id = All (λ g. (g.config_id ≡ dst) × ((k : ℕ) × (g.id ≡ new_id k)))

pub clone_groups-made :
    (new_id : ℕ → ℕ) (src dst : ℤ) (db d : Db) (ids : Ids)
    → clone_groups new_id src dst db ≡ ok (ids, d)
    → (made : List GroupRow) × (record db { groups = db.groups ++ made } ≡ d)
      × NewGroups dst new_id made
      × All (λ e. Named dst (db.groups ++ made) e.1) ids
unfolding clone_groups
clone_groups-made new_id src dst db d ids h =
    let groups = order_by by_position (select (of_config src) db.groups) in
    let made = copy_groups dst new_id 0 groups in
    let rows = db.groups ++ made in
    let (fresh, h') =
      reject-eq-ok (has_repeats (map (λ g. g.name) (select (of_config dst) rows))) violated _
        (ids, d) h in
    let (found, paired, e) =
      >>=-eq-ok (pair_up (map (λ g. g.id) groups) (group_ids dst rows) []) _ (ids, d) h' in
    let same : found ≡ ids = cc in
    (
      made,
      cc,
      copy_groups-All dst new_id 0 groups,
      subst (All (λ e. Named dst rows e.1)) same (
          pair_up-All (Named dst rows) (map (λ g. g.id) groups) (group_ids dst rows) [] found
            (group_ids-Named dst rows) tt paired),
    )

copy_members-All :
    (P : ℕ → Type 0) (ids : Ids) (ms : List MemberRow)
    → All (λ e. P e.1) ids
    → All (λ m. P m.group_id) (copy_members ids ms)
unfolding copy_members
copy_members-All P ids [] h = tt
copy_members-All P ids (m ∷ ms) h = elim (Option-cases (lookup m.group_id ids)) [
  | inl out ↦ rw out (copy_members-All P ids ms h)
  | inr (id, at) ↦
      rw at (All-lookup (λ e. P e.1) m.group_id id ids h at, copy_members-All P ids ms h)
]

pub clone_members-made :
    (P : ℕ → Type 0) (src : ℤ) (ids : Ids) (db d : Db)
    → All (λ e. P e.1) ids
    → clone_members src ids db ≡ ok d
    → (made : List MemberRow) × (record db { members = db.members ++ made } ≡ d)
      × All (λ m. P m.group_id) made
unfolding clone_members
clone_members-made P src [] db d g h = ([], rw (append_nil db.members) cc, tt)
clone_members-made P src (entry ∷ ids) db d g h =
    let groups = map (λ g. g.id) (select (of_config src) db.groups) in
    let members = order_by by_group (select (λ m. one_of groups m.group_id) db.members) in
    let rows = copy_members (entry ∷ ids) members in
    let (fit, e) = reject-eq-ok (not (members_fit db.inbounds rows)) violated _ d h in
    (rows, cc, copy_members-All P (entry ∷ ids) members g)

pub copy_providers-All :
    (dst : ℤ) (new_id : ℕ → ℕ) (i : ℕ) (ps : List ProviderRow)
    → All (λ p. p.config_id ≡ dst) (copy_providers dst new_id i ps)
unfolding copy_providers
copy_providers-All dst new_id i [] = tt
copy_providers-All dst new_id i (p ∷ ps) = (refl, copy_providers-All dst new_id (suc i) ps)

pub clone_providers-made :
    (new_id : ℕ → ℕ) (src dst : ℤ) (db d : Db) (ids : Ids)
    → clone_providers new_id src dst db ≡ ok (ids, d)
    → (made : List ProviderRow) × (record db { providers = db.providers ++ made } ≡ d)
      × All (λ p. p.config_id ≡ dst) made
unfolding clone_providers
clone_providers-made new_id src dst db d ids h =
    let provs = order_by provider_by_id (select (provider_of src) db.providers) in
    let made = copy_providers dst new_id 0 provs in
    let rows = db.providers ++ made in
    let (fresh, h') =
      reject-eq-ok (has_repeats (map (λ p. p.name) (select (provider_of dst) rows))) violated _
        (ids, d) h in
    let (found, paired, e) =
      >>=-eq-ok (pair_up (map (λ p. p.id) provs) (provider_ids dst rows) []) _ (ids, d) h' in
    (made, cc, copy_providers-All dst new_id 0 provs)

pub copy_rules-All :
    (dst : ℤ) (gm pm ids : Ids) (last : ℕ) (rs : List RuleRow)
    → All (λ r. r.config_id ≡ dst) (copy_rules dst gm pm ids last rs)
unfolding copy_rules
copy_rules-All dst gm pm ids last [] = tt
copy_rules-All dst gm pm ids last (r ∷ rs) =
    (refl, copy_rules-All dst gm pm (insert r.id (suc last) ids) (suc last) rs)

pub clone_rules-made :
    (src dst : ℤ) (gm pm : Ids) (db d : Db)
    → clone_rules src dst gm pm db ≡ ok d
    → (made : List RuleRow) × (record db { rules = db.rules ++ made } ≡ d)
      × All (λ r. r.config_id ≡ dst) made
unfolding clone_rules
clone_rules-made src dst gm pm db d h =
    let old = order_by rule_by_id (select (rule_of src) db.rules) in
    let rows = copy_rules dst gm pm [] (max_rule_id db.rules) old in
    let (fit, e) =
      reject-eq-ok
        (not
          (rules_fit db.inbounds rows && parents_exist (map (λ r. r.id) (db.rules ++ rows)) rows))
        violated _ d h in
    (rows, cc, copy_rules-All dst gm pm [] (max_rule_id db.rules) old)

-- A key that is not in a map is put into it and taken out again.
module _ {V : Type 0} (k : ℤ) where
  abbrev pub other_key : ℤ × V → Bool
  other_key e = not (e.0 == k)

  pub select-absent : (m : List (ℤ × V)) → lookup k m ≡ none → select other_key m ≡ m
  unfolding select lookup
  select-absent [] h = refl
  select-absent (e ∷ m) h = elim (Bool-cases (e.0 == k)) [
    | inl same ↦ let f = (rw same at h) in absurd cc
    | inr other ↦ rw other (ap (λ r. e ∷ r) (select-absent m (rw other at h)))
  ]

  pub select-insert :
      (v : V) (m : List (ℤ × V)) → lookup k m ≡ none → select other_key (insert k v m) ≡ m
  unfolding select lookup insert
  select-insert v [] h = rw ((int_eqb_iff k k).1 refl) refl
  select-insert v (e ∷ m) h = elim (Bool-cases (e.0 == k)) [
    | inl same ↦ let f = (rw same at h) in absurd cc
    | inr other ↦ rw other rw other (ap (λ r. e ∷ r) (select-insert v m (rw other at h)))
  ]

pub clone_settings-made :
    (src dst : ℤ) (db d : Db)
    → lookup dst db.settings ≡ none
    → clone_settings src dst db ≡ ok d
    → (made : List (ℤ × List (String × String))) × (record db { settings = made } ≡ d)
      × (select (other_key dst) made ≡ db.settings)
unfolding clone_settings
clone_settings-made src dst db d absent h = elim (Option-cases (lookup src db.settings)) [
  | inl no_pairs ↦
      let e = (rw no_pairs at h) in (db.settings, cc, select-absent dst db.settings absent)
  | inr (pairs, at) ↦
      let e = (rw (at, absent) at h) in
      (insert dst pairs db.settings, cc, select-insert dst pairs db.settings absent)
]

pub clone_profile-made :
    (src dst : ℤ) (db d : Db)
    → lookup dst db.profiles ≡ none
    → clone_profile src dst db ≡ ok d
    → (made : List (ℤ × Profile)) × (record db { profiles = made } ≡ d)
      × (select (other_key dst) made ≡ db.profiles)
unfolding clone_profile
clone_profile-made src dst db d absent h = elim (Option-cases (lookup src db.profiles)) [
  | inl no_row ↦ let e = (rw no_row at h) in (db.profiles, cc, select-absent dst db.profiles absent)
  | inr (p, at) ↦
      let e = (rw (at, absent) at h) in
      (insert dst p db.profiles, cc, select-insert dst p db.profiles absent)
]
