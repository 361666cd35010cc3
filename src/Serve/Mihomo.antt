-- ===== src/Serve/Mihomo.antt =====
-- internal/handlers/sub/mihomo_renderer.go. The YAML library is a parameter, as in Render.
use subgen.Prelude.Int.{ℤ}
use subgen.Prelude.{String, Bool, List, Result, ok, ◌>>=◌}
use subgen.Mihomo.ProxyGroup.{ProxyGroup, RuleProvider, Profile}
use subgen.Mihomo.RoutingRule.{RoutingRules}
use subgen.Entity.Fleet.{Subscriber}
use subgen.Render.Document.{Options, Section, render}
use subgen.Store.Tables.{Db}
use subgen.Store.Load.{proxy_groups, rules, rule_providers, profile, setting}

-- RenderMeta
pub record RenderMeta : Type 0 where
  pub content_type : String
  pub filename : String
  pub profile_title : String
  pub update_interval : ℤ

-- routingRepo: the content of one config.
pub record RoutingRepo (E : Type 0) : Type 0 where
  pub rules : ℤ → Result E RoutingRules
  pub proxy_groups : ℤ → Result E (List ProxyGroup)
  pub rule_providers : ℤ → Result E (List RuleProvider)
  pub setting : ℤ → String → Result E String
  pub profile : ℤ → Result E Profile

-- The repository over the tables, when its queries run.
abbrev pub stored_routing : {E : Type 0} → (String → String → Bool) → Db → RoutingRepo E
stored_routing name_le db = record {
  rules = λ c. ok (rules db c);
  proxy_groups = λ c. ok (proxy_groups db c);
  rule_providers = λ c. ok (rule_providers name_le db c);
  setting = λ c key. ok (setting db c key);
  profile = λ c. ok (profile db c);
}

abbrev pub meta_of : Profile → RenderMeta
meta_of p = record {
  content_type = "text/yaml; charset=utf-8";
  filename = p.filename;
  profile_title = p.title;
  update_interval = p.update_interval;
}

module _ {E : Type 0} (routing : RoutingRepo E) (public_base : String) where
  -- MihomoRenderer.options
  unfoldable pub options : ℤ → Result E Options
  options config_id = do
    rules ← routing.rules config_id
    groups ← routing.proxy_groups config_id
    provs ← routing.rule_providers config_id
    base ← routing.setting config_id "base_yaml"
    ok (record {
      base_yaml = base;
      rules = rules;
      groups = groups;
      providers = provs;
      public_base = public_base;
    })

module _ {E Y B : Type 0} (unmarshal : String → Result E (List (String × Y)))
    (marshal : List (String × Section Y) → Result E B) (routing : RoutingRepo E)
    (public_base : String) where
  -- MihomoRenderer.Render
  unfoldable pub render_mihomo : Subscriber → ℤ → Result E (B × RenderMeta)
  unfolding options render
  render_mihomo sub config_id = do
    opts ← options routing public_base config_id
    body ← render unmarshal marshal sub opts
    p ← routing.profile config_id
    ok (body, meta_of p)
