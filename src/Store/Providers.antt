-- ===== src/Store/Providers.antt =====
-- internal/repository/routing: the rule-providers that SaveMihomoConfig stores, as RuleProviders reads them.
use subgen.Prelude.Int.{ℤ, pos, int_eq}
use subgen.Prelude.Lists.{All}
use subgen.Prelude.{
  ℕ, suc, String, Bool, true, false, List, [], ◌∷◌, ◌++◌, map, ◌≡◌, refl, ap, ◌∙◌, Bool-cases, inl,
  inr, string_eq,
}
use subgen.Mihomo.ProxyGroup.{RuleProvider}
use subgen.Store.Tables.{ProviderRow, Db, select, place, order_by}
use subgen.Store.Save.{provider_of, provider_rows, bool_int}
use subgen.Store.Load.{int_bool, provider_of_row, rule_providers}
use subgen.Store.Order.{select-append, select_no, select-All}
use subgen.Store.Names.{provider_rows-of}

-- The stored form of the providers from the i-th on: each with the id of its row.
unfoldable pub stored_providers : (ℕ → ℕ) → ℕ → List RuleProvider → List RuleProvider
stored_providers new_id i [] = []
stored_providers new_id i (p ∷ ps) =
    record p { id = pos (new_id i) } ∷ stored_providers new_id (suc i) ps

-- The providers in the order of their names.
abbrev pub by_name : (String → String → Bool) → List RuleProvider → List RuleProvider
by_name name_le ps = order_by (λ a b. name_le a.name b.name) ps

mirror_back : (b : Bool) → int_bool (bool_int b) ≡ b
mirror_back true = refl
mirror_back false = refl

stored-provider_rows :
    (c : ℤ) (new_id : ℕ → ℕ) (i : ℕ) (ps : List RuleProvider)
    → map provider_of_row (provider_rows c new_id i ps) ≡ stored_providers new_id i ps
unfolding provider_rows stored_providers
stored-provider_rows c new_id i [] = refl
stored-provider_rows c new_id i (p ∷ ps) =
    rw (mirror_back p.mirror, stored-provider_rows c new_id (suc i) ps) refl

module _ (name_le : String → String → Bool) where
  map-place :
      (r : ProviderRow) (rs : List ProviderRow)
      → map provider_of_row (place (λ a b. name_le a.name b.name) r rs)
        ≡ place (λ a b. name_le a.name b.name) (provider_of_row r) (map provider_of_row rs)
  unfolding place
  map-place r [] = refl
  map-place r (x ∷ rs) = elim (Bool-cases (name_le r.name x.name)) [
    | inl hit ↦ rw hit refl
    | inr miss ↦ rw miss (ap (λ l. provider_of_row x ∷ l) (map-place r rs))
  ]

  map-order_by :
      (rs : List ProviderRow)
      → map provider_of_row (order_by (λ a b. name_le a.name b.name) rs)
        ≡ by_name name_le (map provider_of_row rs)
  unfolding order_by
  map-order_by [] = refl
  map-order_by (r ∷ rs) =
      map-place r (order_by (λ a b. name_le a.name b.name) rs)
      ∙ ap (place (λ a b. name_le a.name b.name) (provider_of_row r)) (map-order_by rs)

  -- The providers of a config in a table that had none of it and got those of a draft.
  pub rule_providers-provider_rows :
      (c : ℤ) (new_id : ℕ → ℕ) (old : List ProviderRow) (ps : List RuleProvider) (db : Db)
      → All (λ r. provider_of c r ≡ false) old
      → db.providers ≡ old ++ provider_rows c new_id 0 ps
      → rule_providers name_le db c ≡ by_name name_le (stored_providers new_id 0 ps)
  unfolding rule_providers
  rule_providers-provider_rows c new_id old ps db none_yet e =
      let rows : select (provider_of c) db.providers ≡ provider_rows c new_id 0 ps =
        rw
          (
            e,
            select-append (provider_of c) old (provider_rows c new_id 0 ps),
            select_no (provider_of c) old none_yet,
            select-All (provider_of c) (provider_rows c new_id 0 ps)
                (provider_rows-of c new_id 0 ps),
          )
          refl in
      map-order_by (select (provider_of c) db.providers)
      ∙ ap (λ rs. by_name name_le (map provider_of_row rs)) rows
      ∙ ap (by_name name_le) (stored-provider_rows c new_id 0 ps)
