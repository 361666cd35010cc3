-- ===== src/Store/Names.antt =====
-- internal/repository/routing/save_mihomo_config.go: the unique indexes on the names of a config.
use subgen.Prelude.Int.{ℤ, int_eq, int_eqb_iff}
use subgen.Prelude.Lists.{All, All-mono, In, Distinct}
use subgen.Prelude.{
  ℕ, suc, ◌≡◌, refl, ap, String, true, false, List, [], ◌∷◌, ◌++◌, map, ◌==◌, inl, inr, string_eq,
  eq_iff, Bool-cases, subst, sym,
}
use subgen.Mihomo.ProxyGroup.{RuleProvider}
use subgen.Mihomo.Draft.{GroupDraft}
use subgen.Mihomo.Groups.Accepts.{GroupsShape}
use subgen.Store.Tables.{GroupRow, ProviderRow, select, contains_name, has_repeats}
use subgen.Store.Save.{of_config, provider_of, group_rows, provider_rows}
use subgen.Store.Order.{select-append, select_no, select-All}
use subgen.Store.Members.{group_rows-All}

contains_name-no : (ns : List String) (n : String) → ¬ In n ns → contains_name ns n ≡ false
unfolding contains_name
contains_name-no [] n h = refl
contains_name-no (m ∷ ms) n h = elim (Bool-cases (m == n)) [
  | inl same ↦ absurd (h (inl ((eq_iff m n).0 same)))
  | inr other ↦ rw other (contains_name-no ms n (λ i. h (inr i)))
]

has_repeats-no : (ns : List String) → Distinct ns → has_repeats ns ≡ false
unfolding has_repeats
has_repeats-no [] h = refl
has_repeats-no (n ∷ ns) h = rw (contains_name-no ns n h.0) (has_repeats-no ns h.1)

-- The groups after a seen one have other names.
not_seen :
    (s : String) (seen : List String) (gs : List GroupDraft) (n : ℕ)
    → In s seen
    → GroupsShape seen gs n
    → ¬ In s (map (λ g. g.name) gs)
not_seen s seen [] n i h = λ j. j
not_seen s seen (g ∷ gs) n i h = λ j. elim j [
  | inl e ↦ h.0.3 (subst (λ x. In x seen) (sym e) i)
  | inr k ↦ not_seen s (g.name ∷ seen) gs n (inr i) h.1 k
]

pub names-Distinct :
    (seen : List String) (gs : List GroupDraft) (n : ℕ)
    → GroupsShape seen gs n
    → Distinct (map (λ g. g.name) gs)
names-Distinct seen [] n h = tt
names-Distinct seen (g ∷ gs) n h =
    (not_seen g.name (g.name ∷ seen) gs n (inl refl) h.1, names-Distinct (g.name ∷ seen) gs n h.1)

module _ (c : ℤ) (new_id : ℕ → ℕ) where
  names-group_rows :
      (i : ℕ) (gs : List GroupDraft)
      → map (λ g. g.name) (group_rows c new_id i gs) ≡ map (λ g. g.name) gs
  unfolding group_rows
  names-group_rows i [] = refl
  names-group_rows i (g ∷ gs) = ap (λ xs. g.name ∷ xs) (names-group_rows (suc i) gs)

  names-provider_rows :
      (i : ℕ) (ps : List RuleProvider)
      → map (λ p. p.name) (provider_rows c new_id i ps) ≡ map (λ p. p.name) ps
  unfolding provider_rows
  names-provider_rows i [] = refl
  names-provider_rows i (p ∷ ps) = ap (λ xs. p.name ∷ xs) (names-provider_rows (suc i) ps)

  pub provider_rows-of :
      (i : ℕ) (ps : List RuleProvider)
      → All (λ r. provider_of c r ≡ true) (provider_rows c new_id i ps)
  unfolding provider_rows
  provider_rows-of i [] = tt
  provider_rows-of i (p ∷ ps) = ((int_eqb_iff c c).1 refl, provider_rows-of (suc i) ps)

  -- The groups of a draft with different names, in a table without groups of the config.
  pub group_names_fit :
      (old : List GroupRow) (gs : List GroupDraft)
      → All (λ r. of_config c r ≡ false) old
      → Distinct (map (λ g. g.name) gs)
      → has_repeats (map (λ g. g.name) (select (of_config c) (old ++ group_rows c new_id 0 gs)))
        ≡ false
  group_names_fit old gs h d =
      rw
        (
          select-append (of_config c) old (group_rows c new_id 0 gs),
          select_no (of_config c) old h,
          select-All (of_config c) (group_rows c new_id 0 gs) (
              All-mono (group_rows c new_id 0 gs) (λ r s. (int_eqb_iff r.config_id c).1 s.0)
                (group_rows-All c new_id 0 gs)),
          names-group_rows 0 gs,
        )
        (has_repeats-no (map (λ g. g.name) gs) d)

  pub provider_names_fit :
      (old : List ProviderRow) (ps : List RuleProvider)
      → All (λ r. provider_of c r ≡ false) old
      → Distinct (map (λ p. p.name) ps)
      → has_repeats
          (map (λ p. p.name) (select (provider_of c) (old ++ provider_rows c new_id 0 ps)))
        ≡ false
  provider_names_fit old ps h d =
      rw
        (
          select-append (provider_of c) old (provider_rows c new_id 0 ps),
          select_no (provider_of c) old h,
          select-All (provider_of c) (provider_rows c new_id 0 ps) (provider_rows-of 0 ps),
          names-provider_rows 0 ps,
        )
        (has_repeats-no (map (λ p. p.name) ps) d)
