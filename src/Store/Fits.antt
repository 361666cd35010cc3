-- ===== src/Store/Fits.antt =====
-- internal/repository/routing/save_mihomo_config.go: the rows of a draft that validation accepts.
use subgen.Prelude.Int.{ℤ, pos, negsuc, int_eq, int_eqb_iff}
use subgen.Prelude.Lists
use subgen.Prelude.Lists.{All, In, get_elem?}
use subgen.Prelude.{
  ℕ, zero, suc, ◌<◌, ◌≡◌, refl, arith, Bool, true, false, not, List, [], ◌∷◌, ◌++◌, Option, none,
  some, ok, inl, inr, Bool-cases, String,
}
use subgen.Mihomo.RuleType.{RuleType, is_logical}
use subgen.Mihomo.PolicyRef.{PolicyKind, is_set, differ, is_inbound, is_group}
use subgen.Mihomo.Draft.{RefDraft, rule, RuleDrafts, nil, cons, GroupDraft}
use subgen.Mihomo.Shape.{RefShape, IsRef, Payload, Target, RuleShape, ChildrenShape, RulesShape}
use subgen.Store.Tables.{MemberRow, RuleRow}
use subgen.Store.Save.{
  Columns, contains_id, inbound_exists, ref_columns, provider_column, member_rows, all_member_rows,
  members_fit, target_columns, kind_of, build, rules_fit, id_or_zero, rule_row,
}

pub get_elem?-some :
    {A : Type 0} (xs : List A) (i : ℕ) → i < Lists.length xs → (a : A) × (get_elem? xs i ≡ some a)
get_elem?-some [] i h = elim h [ ]
get_elem?-some (x ∷ xs) zero h = (x, refl)
get_elem?-some (x ∷ xs) (suc i) h = get_elem?-some xs i (omega arith)

pub contains_id-In : (ids : List ℤ) (id : ℤ) → In id ids → contains_id ids id ≡ true
unfolding contains_id
contains_id-In [] id h = absurd h
contains_id-In (i ∷ is) id (inl e) = rw ((int_eqb_iff i id).1 e)
contains_id-In (i ∷ is) id (inr h) = ground (arith, contains_id-In is id h)

-- An inbound that a draft refers to is one of the table's.
abbrev pub Known : Option ℤ → List ℤ → Type 0
Known none ids = Unit
Known (some id) ids = In id ids

-- Columns that the constraints allow for a reference of the kind.
abbrev pub Fit : PolicyKind → List ℤ → Columns → Type 0
Fit kind inbounds columns =
    (inbound_exists inbounds columns.0 ≡ true)
    × (differ (is_inbound kind) (is_set columns.0) ≡ false)
    × (differ (is_group kind) (is_set columns.1) ≡ false)

module _ (inbounds : List ℤ) (ids : List ℕ) where
  columns-Fit :
      (kind k : PolicyKind) (inbound group : Option ℤ)
      → RefShape kind inbound group (Lists.length ids)
      → Known inbound inbounds
      → (columns : Columns) × (ref_columns kind
            (record { kind = k; inbound_id = inbound; group_idx = group })
            ids
          ≡ ok columns)
        × Fit kind inbounds columns
  unfolding ref_columns
  columns-Fit PolicyKind.inbound k (some id) none h i =
      ((some id, none), refl, (contains_id-In inbounds id i, refl, refl))
  columns-Fit PolicyKind.inbound k none none h i = absurd h
  columns-Fit PolicyKind.inbound k none (some g) h i = absurd h
  columns-Fit PolicyKind.inbound k (some id) (some g) h i = absurd h
  columns-Fit PolicyKind.group k none (some (pos g)) h i =
      let (id, at) = get_elem?-some ids g h in ((none, some id), rw at, (refl, refl, refl))
  columns-Fit PolicyKind.group k none (some (negsuc g)) h i = absurd h
  columns-Fit PolicyKind.group k none none h i = absurd h
  columns-Fit PolicyKind.group k (some id) none h i = absurd h
  columns-Fit PolicyKind.group k (some id) (some g) h i = absurd h
  columns-Fit (PolicyKind.unknown s) k inbound group h i = absurd h
  columns-Fit PolicyKind.direct k none none h i = ((none, none), refl, (refl, refl, refl))
  columns-Fit PolicyKind.reject k none none h i = ((none, none), refl, (refl, refl, refl))
  columns-Fit PolicyKind.reject_drop k none none h i = ((none, none), refl, (refl, refl, refl))
  columns-Fit PolicyKind.reject_no_drop k none none h i = ((none, none), refl, (refl, refl, refl))
  columns-Fit PolicyKind.pass k none none h i = ((none, none), refl, (refl, refl, refl))
  columns-Fit _ k (some x) none h i = absurd h
  columns-Fit _ k none (some y) h i = absurd h
  columns-Fit _ k (some x) (some y) h i = absurd h

  -- The reference of a draft has columns, and they fit.
  pub ref-Fit :
      (r : RefDraft)
      → IsRef r (Lists.length ids)
      → Known r.inbound_id inbounds
      → (columns : Columns) × (ref_columns r.kind r ids ≡ ok columns) × Fit r.kind inbounds columns
  ref-Fit r h i = columns-Fit r.kind r.kind r.inbound_id r.group_idx h i

  -- The rows of the members of one group.
  pub member_rows-fit :
      (group_id j : ℕ) (ms : List RefDraft)
      → All (λ m. IsRef m (Lists.length ids)) ms
      → All (λ m. Known m.inbound_id inbounds) ms
      → (rows : List MemberRow) × (member_rows ids group_id j ms ≡ ok rows)
        × (members_fit inbounds rows ≡ true)
  unfolding member_rows members_fit
  member_rows-fit group_id j [] h i = ([], refl, refl)
  member_rows-fit group_id j (m ∷ ms) h i =
      let (columns, at, (here, a, b)) = ref-Fit m h.0 i.0 in
      let (rows, made, fit) = member_rows-fit group_id (suc j) ms h.1 i.1 in
      let row : MemberRow = record {
        group_id = group_id;
        position = j;
        kind = m.kind;
        inbound_id = columns.0;
        ref_group_id = columns.1;
      } in
      (row ∷ rows, rw (at, made), rw (here, a, b) fit)

  members_fit-append :
      (xs ys : List MemberRow)
      → members_fit inbounds xs ≡ true
      → members_fit inbounds ys ≡ true
      → members_fit inbounds (xs ++ ys) ≡ true
  unfolding members_fit
  members_fit-append [] ys h k = k
  members_fit-append (x ∷ xs) ys h k = ground (arith, members_fit-append xs ys)

  -- The rows of the members of all groups.
  pub all_member_rows-fit :
      (i : ℕ) (gs : List GroupDraft)
      → All (λ g. All (λ m. IsRef m (Lists.length ids)) g.members) gs
      → All (λ g. All (λ m. Known m.inbound_id inbounds) g.members) gs
      → (rows : List MemberRow) × (all_member_rows ids i gs ≡ ok rows)
        × (members_fit inbounds rows ≡ true)
  unfolding all_member_rows
  all_member_rows-fit i [] h k = ([], refl, (unfold members_fit in refl))
  all_member_rows-fit i (g ∷ gs) h k =
      let (own, at, fit) = member_rows-fit (id_or_zero (get_elem? ids i)) 0 g.members h.0 k.0 in
      let (rest, more, fit') = all_member_rows-fit (suc i) gs h.1 k.1 in
      (own ++ rest, rw (at, more), members_fit-append own rest fit fit')

-- The rules of a list, each of them well-formed; `top` tells where the list stands.
abbrev pub Shapes : RuleDrafts → Bool → ℕ → ℕ → Type 0
Shapes nil top g p = Unit
Shapes (cons r rs) top g p = RuleShape r top g p × Shapes rs top g p

pub RulesShape-Shapes : (ds : RuleDrafts) (g p : ℕ) → RulesShape ds g p → Shapes ds true g p
RulesShape-Shapes nil g p h = tt
RulesShape-Shapes (cons r rs) g p h = (h.0, RulesShape-Shapes rs g p h.2)

pub ChildrenShape-Shapes : (ds : RuleDrafts) (g p : ℕ) → ChildrenShape ds g p → Shapes ds false g p
ChildrenShape-Shapes nil g p h = tt
ChildrenShape-Shapes (cons r rs) g p h = (h.0, ChildrenShape-Shapes rs g p h.1)

abbrev pub KnownTarget : Option RefDraft → List ℤ → Type 0
KnownTarget none ids = Unit
KnownTarget (some ref) ids = Known ref.inbound_id ids

-- The inbounds that the targets of a list of rules refer to are those of the table.
abbrev pub KnownTargets : RuleDrafts → List ℤ → Type 0
KnownTargets nil ids = Unit
KnownTargets (cons (rule f cs) rs) ids = KnownTarget f.target ids × KnownTargets rs ids

no-Target : (t : Option RefDraft) (g : ℕ) (ids : List ℤ) → Target t false g → KnownTarget t ids
no-Target none g ids h = tt
no-Target (some ref) g ids h = absurd h

children-Known :
    (ds : RuleDrafts) (g p : ℕ) (ids : List ℤ) → Shapes ds false g p → KnownTargets ds ids
children-Known nil g p ids h = tt
children-Known (cons (rule f cs) rs) g p ids h =
    (no-Target f.target g ids h.0.4, children-Known rs g p ids h.1)

provider_fit :
    (t : RuleType) (value : Option String) (provider : Option ℤ) (ids : List ℕ)
    → Payload t value provider (Lists.length ids)
    → (column : Option ℕ) × (provider_column provider ids ≡ ok column)
unfolding provider_column
provider_fit t value none ids h = (none, refl)
provider_fit RuleType.rule_set value (some (pos i)) ids h =
    let (id, at) = get_elem?-some ids i h.1 in (some id, rw at)
provider_fit RuleType.rule_set value (some (negsuc i)) ids h = absurd h.1
provider_fit (RuleType.unknown s) value (some i) ids h = absurd h
provider_fit _ value (some i) ids h = let e = h.1 in cc

module _ (c : ℤ) (inbounds : List ℤ) (groups providers : List ℕ) where
  -- A top-level rule has a target and no parent, and a sub-rule the reverse.
  Target-fit :
      (t : Option RefDraft) (parent : Option ℕ)
      → Target t (not (is_set parent)) (Lists.length groups)
      → KnownTarget t inbounds
      → (columns : Columns) × (target_columns t groups ≡ ok columns)
        × (inbound_exists inbounds columns.0 ≡ true)
        × (differ (is_set parent) (is_set (kind_of t)) ≡ true)
  Target-fit none none h k = absurd h
  Target-fit none (some p) h k = ((none, none), refl, refl, refl)
  Target-fit (some r) none h k =
      let (columns, at, (here, a, b)) = ref-Fit inbounds groups r h k in (columns, at, here, refl)
  Target-fit (some r) (some p) h k = absurd h

  rules_fit-append :
      (xs ys : List RuleRow)
      → rules_fit inbounds xs ≡ true
      → rules_fit inbounds ys ≡ true
      → rules_fit inbounds (xs ++ ys) ≡ true
  unfolding rules_fit
  rules_fit-append [] ys h k = k
  rules_fit-append (x ∷ xs) ys h k = ground (arith, rules_fit-append xs ys)

  -- The rows of a list of rules are built, and the constraints allow them.
  pub build-fit :
      (ds : RuleDrafts) (parent : Option ℕ) (position next : ℕ)
      → Shapes ds (not (is_set parent)) (Lists.length groups) (Lists.length providers)
      → KnownTargets ds inbounds
      → (b : List RuleRow × ℕ) × (build c groups providers ds parent position next ≡ ok b)
        × (rules_fit inbounds b.0 ≡ true)
  unfolding build rules_fit
  build-fit nil parent position next h k = (([], next), refl, refl)
  build-fit (cons (rule f cs) rs) parent position next h k =
      let (columns, at, here, differs) = Target-fit f.target parent h.0.4 k.0 in
      let (provider, at') = provider_fit f.type f.value f.provider_idx providers h.0.0 in
      let row = rule_row c parent position (suc next) f columns provider in
      elim (Bool-cases (is_logical f.type)) [
        | inl logical ↦
            let shapes = ChildrenShape-Shapes cs _ _ h.0.5 in
            let (below, made, fit) =
              build-fit cs (some (suc next)) 0 (suc next) shapes
                (children-Known cs _ _ inbounds shapes) in
            let (more, made', fit') = build-fit rs parent (suc position) below.1 h.1 k.1 in
            (
              (row ∷ below.0 ++ more.0, more.1),
              rw (at, at', logical, made, made'),
              rw (here, differs) (rules_fit-append below.0 more.0 fit fit'),
            )
        | inr plain ↦
            let (more, made', fit') = build-fit rs parent (suc position) (suc next) h.1 k.1 in
            ((row ∷ more.0, more.1), rw (at, at', plain, made'), rw (here, differs) fit')
      ]
