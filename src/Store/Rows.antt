-- ===== src/Store/Rows.antt =====
-- internal/repository/routing/save_mihomo_config.go, `build`: the rows of a rule tree.
use subgen.Prelude.Int.{ℤ}
use subgen.Prelude.Lists.{All, All-append, All-mono}
use subgen.Prelude.{
  ℕ, suc, ◌≤◌, ◌<◌, ◌⊎◌, inl, inr, true, false, List, [], ◌∷◌, ◌++◌, Option, none, some, ok, ◌≡◌,
  refl, subst, >>=-eq-ok, arith, Bool-cases,
}
use subgen.Mihomo.RuleType.{is_logical}
use subgen.Mihomo.Draft.{RuleFields, rule, RuleDrafts, nil, cons}
use subgen.Store.Tables.{RuleRow}
use subgen.Store.Save.{Columns, rule_row, target_columns, provider_column, build}

-- A parent as a number; no parent is 0.
abbrev pub key : Option ℕ → ℕ
key none = 0
key (some id) = suc id

module _ (c : ℤ) (groups providers : List ℕ) where
  -- The rows of the drafts, whose ids are those above n up to the last number.
  pub data Rows : RuleDrafts → Option ℕ → ℕ → ℕ → List RuleRow → ℕ → Type 0 where
    done : {p : Option ℕ} {k n : ℕ} → Rows nil p k n [] n
    leaf :
        {f : RuleFields} {cs rs : RuleDrafts} {p : Option ℕ} {k n last : ℕ} {more : List RuleRow}
        {columns : Columns} {provider : Option ℕ}
        → target_columns f.target groups ≡ ok columns
        → provider_column f.provider_idx providers ≡ ok provider
        → is_logical f.type ≡ false
        → Rows rs p (suc k) (suc n) more last
        → Rows (cons (rule f cs) rs) p k n (rule_row c p k (suc n) f columns provider ∷ more) last
    node :
        {f : RuleFields} {cs rs : RuleDrafts} {p : Option ℕ} {k n mid last : ℕ}
        {below more : List RuleRow} {columns : Columns} {provider : Option ℕ}
        → target_columns f.target groups ≡ ok columns
        → provider_column f.provider_idx providers ≡ ok provider
        → is_logical f.type ≡ true
        → Rows cs (some (suc n)) 0 (suc n) below mid
        → Rows rs p (suc k) mid more last
        → Rows
            (cons (rule f cs) rs)
            p
            k
            n
            (rule_row c p k (suc n) f columns provider ∷ below ++ more)
            last

  pub build-Rows :
      (ds : RuleDrafts) (p : Option ℕ) (k n : ℕ) (b : List RuleRow × ℕ)
      → build c groups providers ds p k n ≡ ok b
      → Rows ds p k n b.0 b.1
  unfolding build
  build-Rows nil p k n b h = let e : ([], n) ≡ b = cc in subst (λ b. Rows nil p k n b.0 b.1) e done
  build-Rows (cons (rule f cs) rs) p k n b h =
      let target = >>=-eq-ok (target_columns f.target groups) _ b h in
      let provider = >>=-eq-ok (provider_column f.provider_idx providers) _ b (target.2) in
      let row = rule_row c p k (suc n) f target.0 provider.0 in
      elim (Bool-cases (is_logical f.type)) [
        | inl logical ↦
            let below =
              >>=-eq-ok (build c groups providers cs (some (suc n)) 0 (suc n)) _ b
                (rw logical at (provider.2)) in
            let more = >>=-eq-ok (build c groups providers rs p (suc k) below.0.1) _ b (below.2) in
            let e : (row ∷ below.0.0 ++ more.0.0, more.0.1) ≡ b = cc (more.2) in
            subst (λ b. Rows (cons (rule f cs) rs) p k n b.0 b.1) e
              (node target.1 provider.1 logical
                (build-Rows cs (some (suc n)) 0 (suc n) below.0 below.1)
                (build-Rows rs p (suc k) below.0.1 more.0 more.1))
        | inr plain ↦
            let more =
              >>=-eq-ok (build c groups providers rs p (suc k) (suc n)) _ b
                (rw plain at (provider.2)) in
            let e : (row ∷ more.0.0, more.0.1) ≡ b = cc (more.2) in
            subst (λ b. Rows (cons (rule f cs) rs) p k n b.0 b.1) e
              (leaf target.1 provider.1 plain (build-Rows rs p (suc k) (suc n) more.0 more.1))
      ]

  -- The rows of a forest stand on its parent, or on a row of the forest.
  abbrev pub Stands : Option ℕ → ℕ → ℕ → RuleRow → Type 0
  Stands p n last r =
      (r.config_id ≡ c)
      × (n < r.id)
      × (r.id ≤ last)
      × ((key r.parent_id ≡ key p) ⊎ ((suc n < key r.parent_id) × (key r.parent_id ≤ suc last)))

  wider :
      (p p' : Option ℕ) {n last n' last' : ℕ}
      → n' ≤ n
      → last ≤ last'
      → (key p ≡ key p') ⊎ ((suc n' < key p) × (key p ≤ suc last'))
      → (r : RuleRow) → Stands p n last r
      → Stands p' n' last' r
  wider p p' low high at r s = (
    s.0,
    omega arith,
    omega arith,
    elim s.3 [
      | inl on ↦ elim at [ inl e ↦ inl (omega arith) | inr h ↦ inr (omega arith, omega arith) ]
      | inr h ↦ inr (omega arith, omega arith)
    ],
  )

  pub Rows-le :
      {ds : RuleDrafts} {p : Option ℕ} {k n last : ℕ} {rows : List RuleRow}
      → Rows ds p k n rows last
      → n ≤ last
  Rows-le done = omega arith
  Rows-le (leaf t p l rest) = let h = Rows-le rest in omega arith
  Rows-le (node t p l below rest) = let h = Rows-le rest in let b = Rows-le below in omega arith

  pub Rows-Stands :
      {ds : RuleDrafts} {p : Option ℕ} {k n last : ℕ} {rows : List RuleRow}
      → Rows ds p k n rows last
      → All (Stands p n last) rows
  Rows-Stands done = tt
  Rows-Stands (leaf {p = p} {n = n} {last = last} {more = more} t v l rest) =
      let low = Rows-le rest in
      let at = wider p p (omega arith) (omega arith) (inl refl) in
      ((refl, omega arith, omega arith, inl refl), All-mono more at (Rows-Stands rest))
  Rows-Stands
        (node {p = p} {n = n} {mid = mid} {last = last} {below = rows} {more = more} t v l below
          rest) =
      let low = Rows-le below in
      let high = Rows-le rest in
      let under =
        wider (some (suc n)) p (omega arith) (omega arith) (inr (omega arith, omega arith)) in
      let after = wider p p (omega arith) (omega arith) (inl refl) in
      (
        (refl, omega arith, omega arith, inl refl),
        All-append (Stands p n last) rows more (All-mono rows under (Rows-Stands below))
            (All-mono more after (Rows-Stands rest)),
      )
