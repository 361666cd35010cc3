-- ===== src/Store/Carried.antt =====
-- internal/repository/routing/clone_config.go: the copy of a config is that config under other ids.
use subgen.Prelude.Int.{ℤ, pos, int_eq}
use subgen.Prelude.Lists.{All, All-mono, In, Distinct, length}
use subgen.Prelude.Maps.{lookup, insert, lookup-insert}
use subgen.Prelude.{
  ℕ, suc, ◌<◌, ◌≤◌, Bool, true, false, List, [], ◌∷◌, ◌++◌, map, Option, none, some, ok, ◌≡◌, refl,
  sym, ap, ◌∙◌, arith, ◌==◌, nat_eq, string_eq, nat_eqb_iff, Bool-cases, inl, inr, leb, ltb,
}
use subgen.Store.Tables.{GroupRow, ProviderRow, RuleRow, select, order_by}
use subgen.Store.Save.{by_position, provider_by_id}
use subgen.Store.Order.{select-append, select_no, select-All, Sorted, order_by-Sorted}
use subgen.Store.Members.{Increasing}
use subgen.Store.Clone.{Ids, pair_up, copy_groups, copy_providers, copy_rules, mapped, parent_in}

-- The new rows of a config that had none, in an order in which they are.
pub new_rows :
    {A : Type 0} (t : A → Bool) (le : A → A → Bool) (old made : List A)
    → All (λ r. t r ≡ false) old
    → All (λ r. t r ≡ true) made
    → Sorted le made
    → order_by le (select t (old ++ made)) ≡ made
new_rows t le old made h g s =
    rw (select-append t old made, select_no t old h, select-All t made g)
      (order_by-Sorted le made s)

pair_up-other :
    (o : ℕ) (os ns : List ℕ) (ids ids' : Ids)
    → ¬ In o os
    → pair_up os ns ids ≡ ok ids'
    → lookup o ids' ≡ lookup o ids
unfolding pair_up
pair_up-other o [] ns ids ids' h e = let f : ids ≡ ids' = cc in ap (lookup o) (sym f)
pair_up-other o (x ∷ os) [] ids ids' h e = absurd cc
pair_up-other o (x ∷ os) (n ∷ ns) ids ids' h e =
    pair_up-other o os ns (insert x n ids) ids' (λ i. h (inr i)) e
    ∙ lookup-insert x o n ids
    ∙ elim (Bool-cases (x == o)) [
      | inl same ↦ absurd (h (inl ((nat_eqb_iff x o).0 same)))
      | inr other ↦ rw other refl
    ]

-- The i-th old id is carried to the i-th new one.
pub pair_up-lookup :
    (os ns : List ℕ) (ids ids' : Ids)
    → Distinct os
    → length os ≡ length ns
    → pair_up os ns ids ≡ ok ids'
    → map (λ o. lookup o ids') os ≡ map some ns
unfolding pair_up
pair_up-lookup [] [] ids ids' d l e = refl
pair_up-lookup [] (n ∷ ns) ids ids' d l e = absurd (omega arith)
pair_up-lookup (o ∷ os) [] ids ids' d l e = absurd cc
pair_up-lookup (o ∷ os) (n ∷ ns) ids ids' d l e =
    let head : lookup o ids' ≡ some n =
      pair_up-other o os ns (insert o n ids) ids' d.0 e
      ∙ lookup-insert o o n ids
      ∙ rw ((nat_eqb_iff o o).1 refl) refl in
    let rest = pair_up-lookup os ns (insert o n ids) ids' d.1 (omega arith) e in
    rw (head, rest) refl

module _ (dst : ℤ) (new_id : ℕ → ℕ) where
  copy_groups-positions :
      (P : ℕ → Type 0) (i : ℕ) (gs : List GroupRow)
      → All (λ g. P g.position) gs
      → All (λ g. P g.position) (copy_groups dst new_id i gs)
  unfolding copy_groups
  copy_groups-positions P i [] h = tt
  copy_groups-positions P i (g ∷ gs) h = (h.0, copy_groups-positions P (suc i) gs h.1)

  pub copy_groups-Sorted :
      (i : ℕ) (gs : List GroupRow)
      → Sorted by_position gs
      → Sorted by_position (copy_groups dst new_id i gs)
  unfolding copy_groups Sorted
  copy_groups-Sorted i [] s = tt
  copy_groups-Sorted i (g ∷ gs) s = (
    copy_groups-positions (λ p. leb g.position p ≡ true) (suc i) gs s.0,
    copy_groups-Sorted (suc i) gs s.1,
  )

  copy_providers-above :
      (up : Increasing new_id) (i : ℕ) (ps : List ProviderRow)
      → All (λ p. new_id i ≤ p.id) (copy_providers dst new_id i ps)
  unfolding copy_providers Increasing
  copy_providers-above up i [] = tt
  copy_providers-above up i (p ∷ ps) =
      let l = up i (suc i) (omega arith) in
      (
        omega arith,
        All-mono (copy_providers dst new_id (suc i) ps) (λ r h. omega arith)
            (copy_providers-above up (suc i) ps),
      )

  pub copy_providers-Sorted :
      (up : Increasing new_id) (i : ℕ) (ps : List ProviderRow)
      → Sorted provider_by_id (copy_providers dst new_id i ps)
  unfolding copy_providers Sorted Increasing
  copy_providers-Sorted up i [] = tt
  copy_providers-Sorted up i (p ∷ ps) =
      let l = up i (suc i) (omega arith) in
      (
        All-mono (copy_providers dst new_id (suc i) ps) (λ r h. ground arith)
            (copy_providers-above up (suc i) ps),
        copy_providers-Sorted up (suc i) ps,
      )

-- A row without its ids.
abbrev pub plain_group : GroupRow → GroupRow
plain_group g = record g { id = 0; config_id = pos 0 }

abbrev pub plain_provider : ProviderRow → ProviderRow
plain_provider p = record p { id = 0; config_id = pos 0 }

pub plain-copy_groups :
    (dst : ℤ) (new_id : ℕ → ℕ) (i : ℕ) (gs : List GroupRow)
    → (map plain_group (copy_groups dst new_id i gs) ≡ map plain_group gs)
      × (length (map (λ g. g.id) gs) ≡ length (map (λ g. g.id) (copy_groups dst new_id i gs)))
unfolding copy_groups
plain-copy_groups dst new_id i [] = (refl, refl)
plain-copy_groups dst new_id i (g ∷ gs) =
    let (p, l) = plain-copy_groups dst new_id (suc i) gs in
    (ap (λ r. plain_group g ∷ r) p, ap suc l)

pub plain-copy_providers :
    (dst : ℤ) (new_id : ℕ → ℕ) (i : ℕ) (ps : List ProviderRow)
    → (map plain_provider (copy_providers dst new_id i ps) ≡ map plain_provider ps)
      × (length (map (λ p. p.id) ps) ≡ length (map (λ p. p.id) (copy_providers dst new_id i ps)))
unfolding copy_providers
plain-copy_providers dst new_id i [] = (refl, refl)
plain-copy_providers dst new_id i (p ∷ ps) =
    let (q, l) = plain-copy_providers dst new_id (suc i) ps in
    (ap (λ r. plain_provider p ∷ r) q, ap suc l)

-- The ids of the rules in the end.
unfoldable pub rule_ids : Ids → ℕ → List RuleRow → Ids
unfolding insert
rule_ids ids last [] = ids
rule_ids ids last (r ∷ rs) = rule_ids (insert r.id (suc last) ids) (suc last) rs

-- The parent stands before the rule.
abbrev pub IsBefore : Option ℕ → ℕ → Type 0
IsBefore none id = Unit
IsBefore (some p) id = p < id

abbrev pub by_id : RuleRow → RuleRow → Bool
by_id a b = ltb a.id b.id

rule_ids-lookup :
    (p : ℕ) (ids : Ids) (last : ℕ) (rs : List RuleRow)
    → All (λ r. p < r.id) rs
    → lookup p (rule_ids ids last rs) ≡ lookup p ids
unfolding rule_ids
rule_ids-lookup p ids last [] h = refl
rule_ids-lookup p ids last (r ∷ rs) h =
    rule_ids-lookup p (insert r.id (suc last) ids) (suc last) rs h.1
    ∙ lookup-insert r.id p (suc last) ids
    ∙ (let l = h.0 in let ne : (r.id == p) ≡ false = ground arith in rw ne refl)

module _ (dst : ℤ) (group_map prov_map : Ids) where
  parent_kept :
      (parent : Option ℕ) (id : ℕ) (ids : Ids) (last : ℕ) (rs : List RuleRow)
      → IsBefore parent id
      → All (λ x. id < x.id) rs
      → parent_in ids parent ≡ parent_in (rule_ids ids last rs) parent
  parent_kept none id ids last rs b h = refl
  parent_kept (some p) id ids last rs b h =
      rw (rule_ids-lookup p ids last rs (All-mono rs (λ x l. omega arith) h)) refl

  -- A rule under its new id, with its references under the new ids of what they refer to.
  abbrev pub carry_rule : Ids → ℕ → RuleRow → RuleRow
  carry_rule ids id r = record r {
    id = id;
    config_id = dst;
    parent_id = parent_in ids r.parent_id;
    provider_id = mapped prov_map r.provider_id;
    target_group_id = mapped group_map r.target_group_id;
  }

  -- Every rule is copied with its parent, group and provider carried along, in the order of the ids.
  abbrev pub carried : Ids → ℕ → List RuleRow → List RuleRow
  carried ids last [] = []
  carried ids last (r ∷ rs) = carry_rule ids (suc last) r ∷ carried ids (suc last) rs

  pub copy_rules-carried :
      (ids : Ids) (last : ℕ) (rs : List RuleRow)
      → Sorted by_id rs
      → All (λ r. IsBefore r.parent_id r.id) rs
      → copy_rules dst group_map prov_map ids last rs ≡ carried (rule_ids ids last rs) last rs
  unfolding copy_rules rule_ids Sorted
  copy_rules-carried ids last [] s h = refl
  copy_rules-carried ids last (r ∷ rs) s h =
      let ids' = insert r.id (suc last) ids in
      let later = All-mono rs (λ x l. ground arith) s.0 in
      rw
        (
          parent_kept r.parent_id r.id ids' (suc last) rs h.0 later,
          copy_rules-carried ids' (suc last) rs s.1 h.1,
        )
        refl
