-- ===== src/Render/Providers.antt =====
-- internal/mihomo/render/providers.go: the rule-providers of the document.
use Prim.Native.Char.{code}
use subgen.Prelude.Int.{pos, int_ltb}
use subgen.Prelude.Maps.{insert}
use subgen.Prelude.Text.{concat, lower_is}
use subgen.Prelude.{
  String, ◌&&◌, not, nat_eqb, List, [], ◌∷◌, Option, none, some, ◌==◌, string_eq, if◌then◌else◌,
}
use subgen.Mihomo.ProxyGroup.{RuleProvider}
use subgen.Render.Value.{text, num, Fields, end, put}
use subgen.Render.Groups.{put_text}

-- ruleSetExt
unfoldable pub rule_set_ext : String → String
unfolding lower_is
rule_set_ext format =
    if lower_is format "mrs" then ".mrs" else if lower_is format "yaml" then ".yaml" else ".txt"

-- strings.TrimRight(s, "/")
unfoldable pub trim_slashes : String → String
trim_slashes String.[] = ""
trim_slashes (String.◌∷◌ c s) =
    let rest = trim_slashes s in
    if rest == "" && nat_eqb (code c) b'/' then "" else String.◌∷◌ c rest

-- The URL of a provider: that of the mirror, if the provider is mirrored and there is a public base.
unfoldable pub provider_url : String → RuleProvider → String
unfolding concat rule_set_ext
provider_url base rp =
    if rp.mirror && not (base == "")
    then concat (base ∷ "/rules/" ∷ rp.name ∷ rule_set_ext rp.format ∷ [])
    else rp.url

abbrev put_interval : RuleProvider → Fields → Fields
put_interval rp m = if int_ltb (pos 0) rp.interval then put "interval" (num rp.interval) m else m

unfoldable pub provider_entry : String → RuleProvider → Fields
unfolding concat rule_set_ext put provider_url
provider_entry base rp = put_interval rp (
    put_text "format" rp.format (
      put "path" (text (concat ("./ruleset/" ∷ rp.name ∷ rule_set_ext rp.format ∷ []))) (
        put "url" (text (provider_url base rp))
          (put "behavior" (text rp.behavior) (put "type" (text "http") end)))))

-- The loop over the providers, with the map that it fills.
unfoldable pub provider_entries :
    String → List RuleProvider → List (String × Fields) → List (String × Fields)
unfolding provider_entry insert
provider_entries base [] out = out
provider_entries base (rp ∷ rps) out =
    provider_entries base rps (insert rp.name (provider_entry base rp) out)

-- ruleProviders: none for Go's nil map.
unfoldable pub rule_providers : List RuleProvider → String → Option (List (String × Fields))
unfolding provider_entries trim_slashes
rule_providers [] public_base = none
rule_providers (p ∷ ps) public_base = some (provider_entries (trim_slashes public_base) (p ∷ ps) [])
