-- ===== src/Store/Forest.antt =====
-- internal/repository/routing/rules.go: what is loaded of the rows that `build` has made.
use subgen.Prelude.Int.{ℤ, pos, negsuc}
use subgen.Prelude.{
  ℕ, suc, ◌+◌, Bool, true, false, List, Option, none, some, ok, ◌≡◌, refl, if◌then◌else◌,
}
use subgen.Mihomo.RoutingRule.{RoutingFields, RoutingRules}
use subgen.Mihomo.RoutingRule
use subgen.Mihomo.RuleType.{is_logical}
use subgen.Mihomo.Draft.{RuleFields, rule, RuleDrafts, nil, cons, is_true}
use subgen.Store.Save.{Columns, rule_row, target_columns, provider_column, bool_int}
use subgen.Store.Load.{rule_of_row, id_ptr, no_resolve_ptr}
use subgen.Store.Refs.{id_of, resolved, found-id_at, target-stored}

-- How many rules of the drafts are stored.
unfoldable pub size : RuleDrafts → ℕ
size nil = 0
size (cons (rule f cs) rs) = suc ((if is_logical f.type then size cs else 0) + size rs)

module _ (groups providers : List ℕ) where
  -- The stored form of a rule's fields.
  unfoldable pub stored_fields : RuleFields → ℕ → ℕ → RoutingFields
  unfolding resolved
  stored_fields f k id = record {
    id = pos id;
    position = pos k;
    type = f.type;
    value = f.value;
    provider_id = id_of providers f.provider_idx;
    no_resolve = if is_true f.no_resolve then some true else none;
    target = elim f.target [ none ↦ none | some r ↦ some (resolved groups r) ];
  }

  -- The stored form of the drafts from position k on, with the ids after n in the order of a walk.
  unfoldable pub stored : RuleDrafts → ℕ → ℕ → RoutingRules
  unfolding stored_fields size
  stored nil k n = RoutingRule.nil
  stored (cons (rule f cs) rs) k n =
      let below = stored cs 0 (suc n) in
      let after = stored rs (suc k) (suc n + (if is_logical f.type then size cs else 0)) in
      RoutingRule.cons
        (RoutingRule.rule (stored_fields f k (suc n))
          (if is_logical f.type then below else RoutingRule.nil))
        after

  provider-stored :
      (i : Option ℤ) (provider : Option ℕ)
      → provider_column i providers ≡ ok provider
      → id_ptr provider ≡ id_of providers i
  unfolding provider_column
  provider-stored none provider h = cc
  provider-stored (some (pos i)) provider h = found-id_at providers (pos i) provider h
  provider-stored (some (negsuc i)) provider h = cc

  flag-stored : (b : Bool) → no_resolve_ptr (bool_int b) ≡ (if b then some true else none)
  flag-stored true = refl
  flag-stored false = refl

  pub row-stored :
      (c : ℤ) (p : Option ℕ) (k id : ℕ) (f : RuleFields) (columns : Columns) (provider : Option ℕ)
      → target_columns f.target groups ≡ ok columns
      → provider_column f.provider_idx providers ≡ ok provider
      → rule_of_row (rule_row c p k id f columns provider) ≡ stored_fields f k id
  unfolding stored_fields
  row-stored c p k id f columns provider h j =
      let target = target-stored groups f.target columns h in
      let at = provider-stored f.provider_idx provider j in
      rw (target, at, flag-stored (is_true f.no_resolve)) refl
