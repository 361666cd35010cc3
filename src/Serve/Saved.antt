-- ===== src/Serve/Saved.antt =====
-- internal/handlers/config_save and internal/handlers/sub: a saved config is the one that is served.
use subgen.Prelude.Int.{ℤ, pos, int_eq}
use subgen.Prelude.Lists.{All, length}
use subgen.Prelude.{
  ℕ, ◌<◌, ◌≡◌, ◌≢◌, refl, sym, ◌∙◌, subst, String, Bool, List, [], Option, none, some, Result, ok,
  ◌>>=◌,
}
use subgen.Mihomo.Draft.{ConfigDraft}
use subgen.Mihomo.Decode.{ConfigDto}
use subgen.Entity.Fleet.{Subscriber}
use subgen.Render.Resolver.{new_entity_name_resolver}
use subgen.Render.Groups.{groups_log}
use subgen.Render.Rules.{rules_log}
use subgen.Render.Document.{Options, Section, render}
use subgen.Store.Tables.{Db}
use subgen.Store.Save.{drop_config, max_rule_id}
use subgen.Store.Load.{proxy_groups, rules, rule_providers, profile, setting}
use subgen.Store.Forest.{stored}
use subgen.Store.Members.{ids_from, Increasing}
use subgen.Store.Groups.{stored_groups}
use subgen.Store.Providers.{stored_providers, by_name}
use subgen.Store.Roundtrip.{save-load}
use subgen.Store.Succeeds.{Storable}
use subgen.Store.Clean.{saved_logs_nothing}
use subgen.Configs
use subgen.Configs.{ConfigRow, user_config_id, base_config_id}
use subgen.Configs.Owners.{RealUsers}
use subgen.ConfigSave.{Tables, saved, checked, config_save}
use subgen.ConfigSave.Replaces.{HasScope, OfScope, checked-WellFormed, config_save-saved}
use subgen.Serve.Handler.{Backend, config_id}
use subgen.Serve.Mihomo.{stored_routing, meta_of, options, render_mihomo}

-- The backend whose configs are those of the rows.
abbrev pub owning : {E : Type 0} → Backend E → List ConfigRow → Backend E
owning back rows = record back {
  user_config_id = λ u kind. ok (user_config_id u kind rows);
  base_config_id = λ kind. ok (base_config_id kind rows);
}

pub custom_picked :
    {E : Type 0} (back : Backend E) (rows : List ConfigRow) (u c : ℤ) (kind : String)
    → user_config_id u kind rows ≡ some c
    → config_id (owning back rows) u kind ≡ ok c
unfolding config_id
custom_picked back rows u c kind h = rw h refl

pub base_picked :
    {E : Type 0} (back : Backend E) (rows : List ConfigRow) (u c : ℤ) (kind : String)
    → user_config_id u kind rows ≡ none
    → base_config_id kind rows ≡ some c
    → config_id (owning back rows) u kind ≡ ok c
unfolding config_id
base_picked back rows u c kind h b = rw (h, b) refl

module _ {F Y B : Type 0} (name_le : String → String → Bool)
    (parse : String → Result F (List (String × Y)))
    (marshal : List (String × Section Y) → Result F B) (public_base : String)
    (new_group new_provider : ℕ → ℕ) (c : ℤ) (draft : ConfigDraft) (before db : Db) where
  -- What Render gets of a draft that was saved as the config `c`.
  abbrev pub drafted : Options
  drafted = record {
    base_yaml = draft.base_yaml;
    rules =
        stored (ids_from new_group 0 (length draft.groups))
          (ids_from new_provider 0 (length draft.providers)) draft.rules 0
          (max_rule_id (drop_config c before).rules);
    groups = stored_groups (ids_from new_group 0 (length draft.groups)) new_group 0 draft.groups;
    providers = by_name name_le (stored_providers new_provider 0 draft.providers);
    public_base = public_base;
  }

  -- The config is rendered as the draft for a subscriber, with the draft's profile, and nothing is
  -- logged.
  abbrev pub Rendered : Subscriber → Type 0
  Rendered sub =
      (render_mihomo parse marshal (stored_routing name_le db) public_base sub c
        ≡ (render parse marshal sub drafted >>= λ body. ok (body, meta_of draft.profile)))
      × (groups_log drafted.groups (new_entity_name_resolver sub drafted.groups drafted.providers)
          ≡ [])
      × (rules_log drafted.rules (new_entity_name_resolver sub drafted.groups drafted.providers)
          ≡ [])

  rendered :
      (sub : Subscriber)
      → proxy_groups db c ≡ drafted.groups
      → rules db c ≡ drafted.rules
      → rule_providers name_le db c ≡ drafted.providers
      → profile db c ≡ draft.profile
      → setting db c "base_yaml" ≡ draft.base_yaml
      → render_mihomo parse marshal (stored_routing name_le db) public_base sub c
        ≡ (render parse marshal sub drafted >>= λ body. ok (body, meta_of draft.profile))
  unfolding render_mihomo options
  rendered sub g r ps p y = rw (g, r, ps, p, y) refl

module _ {E F Y B : Type 0} (name_le : String → String → Bool)
    (parse : String → Result F (List (String × Y)))
    (marshal : List (String × Section Y) → Result F B) (public_base : String)
    (unmarshal : String → Result E ConfigDto) (top_keys : String → Option (List String))
    (new_config now : ℤ) (new_group new_provider : ℕ → ℕ) (user_id : ℤ) (raw : Result E String)
    (t : Tables) (draft : ConfigDraft) where
  -- Whom the saved config `c` is picked for: the user of the scope, and for the base config every user
  -- without a custom one.
  abbrev pub PickedFor : ℤ → List ConfigRow → Type 0
  PickedFor c rows =
      (back : Backend F) (u : ℤ)
      → (user_id ≢ pos 0 → u ≡ user_id → config_id (owning back rows) u Configs.mihomo ≡ ok c)
        × (user_id ≡ pos 0
            → user_config_id u Configs.mihomo t.configs ≡ none
            → config_id (owning back rows) u Configs.mihomo ≡ ok c)

  picked :
      (c : ℤ) (rows : List ConfigRow)
      → OfScope unmarshal top_keys new_config now new_group new_provider user_id raw t c rows
      → PickedFor c rows
  picked c rows (base, custom, same) back u = (
    (λ ne e.
        custom_picked back rows u c Configs.mihomo
          (subst (λ x. user_config_id x Configs.mihomo rows ≡ some c) (sym e) (custom ne))),
    (λ e without.
        base_picked back rows u c Configs.mihomo (same u Configs.mihomo ∙ without) (base e)),
  )

  -- When new rows get increasing ids, those of groups above the group ids of all member rows, no user has
  -- the id 0, and the request is for the base config or for a user with a custom config: a request whose
  -- draft passes the checks, has rule-providers of different names, and refers to known inbounds, is
  -- answered with success, and then the subscription handler picks the saved config for the user of the
  -- request, or, for the base config, for every user without a custom config, and renders it for every
  -- subscriber as the document of the draft, with its groups, rules, base text and, in the order of their
  -- names, its rule-providers, with the draft's profile, and with nothing logged.
  pub config_save-Rendered :
      Increasing new_group
      → Increasing new_provider
      → All (λ m. m.group_id < new_group 0) t.content.members
      → RealUsers t.configs
      → HasScope unmarshal top_keys new_config now new_group new_provider user_id raw t
      → checked unmarshal top_keys raw ≡ ok draft
      → Storable draft t.content.inbounds
      → (c : ℤ) × (rows : List ConfigRow) × (db : Db) × (config_save unmarshal top_keys new_config
            now new_group new_provider user_id raw t
          ≡ (saved, record { configs = rows; content = db }))
        × PickedFor c rows
        × ((sub : Subscriber)
            → Rendered name_le parse marshal public_base new_group new_provider c draft t.content db
                sub)
  config_save-Rendered up up' fresh real scope ok_draft storable =
      let (c, rows, db, done, of_scope, made) =
        config_save-saved unmarshal top_keys new_config now new_group new_provider user_id raw t
          draft up' real scope ok_draft storable in
      let (g, r, p, y, loaded) =
        save-load new_group new_provider c draft t.content db up up' fresh made in
      (
        c,
        rows,
        db,
        done,
        picked c rows of_scope,
        λ sub.
            let (quiet, quiet') =
              saved_logs_nothing name_le new_group new_provider c draft t.content db sub up up'
                fresh (checked-WellFormed unmarshal top_keys raw draft ok_draft) made in
            let made_groups =
              stored_groups (ids_from new_group 0 (length draft.groups)) new_group 0 draft.groups in
            let ps = loaded name_le in
            (
              rendered name_le parse marshal public_base new_group new_provider c draft t.content db
                  sub g r ps p y,
              subst (λ x. groups_log made_groups (new_entity_name_resolver sub made_groups x) ≡ [])
                  ps
                  (subst
                    (λ gs.
                      groups_log gs (new_entity_name_resolver sub gs (rule_providers name_le db c))
                      ≡ [])
                    g quiet),
              subst
                  (λ x.
                    rules_log
                      (stored (ids_from new_group 0 (length draft.groups))
                        (ids_from new_provider 0 (length draft.providers)) draft.rules 0
                        (max_rule_id (drop_config c t.content).rules))
                      (new_entity_name_resolver sub made_groups x)
                    ≡ [])
                  ps
                  (subst
                    (λ rs.
                      rules_log rs
                        (new_entity_name_resolver sub made_groups (rule_providers name_le db c))
                      ≡ [])
                    r
                    (subst
                      (λ gs.
                        rules_log (rules db c)
                          (new_entity_name_resolver sub gs (rule_providers name_le db c))
                        ≡ [])
                      g quiet')),
            ),
      )
