-- ===== src/Store/Clean.antt =====
-- internal/repository/routing and internal/mihomo/render: a saved draft is rendered with nothing logged.
use subgen.Prelude.Int.{ℤ, pos}
use subgen.Prelude.Lists.{All, In, In-map, length}
use subgen.Prelude.{
  ℕ, suc, ◌<◌, ◌≡◌, refl, sym, ap, ◌∙◌, subst, String, Bool, List, [], ◌∷◌, ◌++◌, map, ok, inl, inr,
  false,
}
use subgen.Mihomo.ProxyGroup.{RuleProvider}
use subgen.Mihomo.Draft.{ConfigDraft}
use subgen.Entity.Fleet.{Subscriber}
use subgen.Render.Resolver.{new_entity_name_resolver}
use subgen.Render.Groups.{groups_log}
use subgen.Render.Rules.{rules_log}
use subgen.Render.Consistent.{consistent_logs_nothing}
use subgen.Store.Tables.{Db, ProviderRow, select, order_by}
use subgen.Store.Save.{
  provider_of, drop_config, provider_rows, max_rule_id, put_settings, save_mihomo_config,
}
use subgen.Store.Load.{proxy_groups, rules, rule_providers, provider_of_row}
use subgen.Store.Order.{select-append, select_no, select-All}
use subgen.Store.Members.{ids_from, Increasing}
use subgen.Store.Saved.{save-Saved}
use subgen.Store.Roundtrip.{save-load, kept}
use subgen.Store.Fits.{RulesShape-Shapes}
use subgen.Store.Names.{provider_rows-of}
use subgen.Store.Succeeds.{WellFormed, length-ids_from, members-IsRef}
use subgen.Store.Consistent.{rules-Among, groups-Among, In-order_by, group_ids-stored}
use subgen.Render.Among.{MembersAmong, RulesAmong}

In-back : (ids : List ℕ) (id : ℕ) → In id ids → In (pos id) (map (λ i. pos i) ids)
In-back ids id i = In-map (λ i. pos i) id ids i

module _ (name_le : String → String → Bool) (c : ℤ) (new_id : ℕ → ℕ) where
  id_of_row :
      (i : ℕ) (ps : List RuleProvider) (id : ℕ)
      → In id (ids_from new_id i (length ps))
      → (r : ProviderRow) × In r (provider_rows c new_id i ps) × (r.id ≡ id)
  unfolding ids_from provider_rows
  id_of_row i [] id h = absurd h
  id_of_row i (p ∷ ps) id (inl e) = (_, inl refl, e)
  id_of_row i (p ∷ ps) id (inr j) = let (r, k, e) = id_of_row (suc i) ps id j in (r, inr k, e)

  -- Every provider of the batch is loaded.
  loaded_ids :
      (old : List ProviderRow) (ps : List RuleProvider) (db : Db) (id : ℕ)
      → All (λ r. provider_of c r ≡ false) old
      → db.providers ≡ old ++ provider_rows c new_id 0 ps
      → In id (ids_from new_id 0 (length ps))
      → In (pos id) (map (λ p. p.id) (rule_providers name_le db c))
  unfolding rule_providers
  loaded_ids old ps db id none_yet e i =
      let (r, j, at) = id_of_row 0 ps id i in
      let rows : select (provider_of c) db.providers ≡ provider_rows c new_id 0 ps =
        rw
          (
            e,
            select-append (provider_of c) old (provider_rows c new_id 0 ps),
            select_no (provider_of c) old none_yet,
            select-All (provider_of c) (provider_rows c new_id 0 ps)
                (provider_rows-of c new_id 0 ps),
          )
          refl in
      let sorted = order_by (λ a b. name_le a.name b.name) (select (provider_of c) db.providers) in
      let here : In r sorted =
        In-order_by (λ a b. name_le a.name b.name) r (select (provider_of c) db.providers)
          (subst (λ xs. In r xs) (sym rows) j) in
      subst (λ x. In (pos x) (map (λ p. p.id) (map provider_of_row sorted))) at
        (In-map (λ p. p.id) (provider_of_row r) (map provider_of_row sorted)
          (In-map provider_of_row r sorted here))

-- When the ids that a batch of rows is assigned increase, those of groups are above the group ids of all
-- member rows before, and a save of a draft that validation accepts succeeds, then the config that is
-- loaded is rendered for every subscriber with nothing logged: each group, rule-provider and target that
-- it refers to is in it.
pub saved_logs_nothing :
    (name_le : String → String → Bool) (new_group new_provider : ℕ → ℕ) (c : ℤ)
    (draft : ConfigDraft) (db db' : Db) (sub : Subscriber)
    → Increasing new_group
    → Increasing new_provider
    → All (λ m. m.group_id < new_group 0) db.members
    → WellFormed draft
    → save_mihomo_config new_group new_provider c draft db ≡ ok db'
    → let res = new_entity_name_resolver sub (proxy_groups db' c) (rule_providers name_le db' c) in
      (groups_log (proxy_groups db' c) res ≡ []) × (rules_log (rules db' c) res ≡ [])
unfolding put_settings drop_config select
saved_logs_nothing name_le new_group new_provider c draft db db' sub up up' fresh (gs, rs) h =
    let loaded = save-load new_group new_provider c draft db db' up up' fresh h in
    let s = save-Saved new_group new_provider c draft db db' h in
    let base = drop_config c db in
    let groups = ids_from new_group 0 (length draft.groups) in
    let providers = ids_from new_provider 0 (length draft.providers) in
    let g = length-ids_from new_group 0 (length draft.groups) in
    let p = length-ids_from new_provider 0 (length draft.providers) in
    let provider_ids = map (λ p. p.id) (rule_providers name_le db' c) in
    let group_ids = map (λ g. g.id) (proxy_groups db' c) in
    let all_groups : (id : ℕ) → In id groups → In (pos id) group_ids = λ id i.
      subst (λ ids. In (pos id) ids)
        (sym (ap (map (λ g. g.id)) loaded.0 ∙ group_ids-stored groups new_group 0 draft.groups))
        (In-back groups id i) in
    let all_providers : (id : ℕ) → In id providers → In (pos id) provider_ids = λ id i.
      loaded_ids name_le c new_provider base.providers draft.providers db' id
        (kept (provider_of c) db.providers) (ap (λ d. d.providers) (sym s.4)) i in
    consistent_logs_nothing sub (proxy_groups db' c) (rule_providers name_le db' c) (rules db' c)
      (subst (λ xs. All (λ x. MembersAmong x group_ids) xs) (sym loaded.0)
        (groups-Among groups providers group_ids provider_ids all_groups all_providers new_group 0
          draft.groups (rw g (members-IsRef [] draft.groups (length draft.groups) gs))))
      (subst (λ xs. RulesAmong xs group_ids provider_ids) (sym loaded.1)
        (rules-Among groups providers group_ids provider_ids all_groups all_providers draft.rules 0
          (max_rule_id base.rules)
          (rw (g, p)
            (RulesShape-Shapes draft.rules (length draft.groups) (length draft.providers) rs))))
