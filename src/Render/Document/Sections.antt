-- ===== src/Render/Document/Sections.antt =====
-- Which sections the rendered document has.
use subgen.Prelude.Maps.{lookup, insert, lookup-insert}
use subgen.Prelude.{
  String, ◌≡◌, false, List, [], ◌∷◌, map, Option, none, some, string_eq, if◌then◌else◌, arith,
  eq_iff,
}
use mathlib.Core.Option
use subgen.Mihomo.ProxyGroup.{generated_keys}
use subgen.Mihomo.Validate.{slice_set}
use subgen.Entity.Fleet.{Subscriber}
use subgen.Render.Value.{Fields}
use subgen.Render.Resolver.{new_entity_name_resolver}
use subgen.Render.Groups.{build_groups}
use subgen.Render.Rules.{build_rules}
use subgen.Render.Proxies.{proxy_to_map}
use subgen.Render.Providers.{rule_providers}
use subgen.Render.Document.{
  Options, Section, base, entries, lines, named, without_keys, without_generated, document,
  put_providers,
}

abbrev pub based : {Y : Type 0} → Option Y → Option (Section Y)
based none = none
based (some y) = some (base y)

module _ {Y : Type 0} where
  lookup-without_keys :
      (ks : List String) (k : String) (m : List (String × Y))
      → lookup k (without_keys ks m) ≡ (if slice_set ks k then none else based (lookup k m))
  unfolding without_keys lookup
  lookup-without_keys ks k [] = ground arith
  lookup-without_keys ks k ((j, y) ∷ m) = ground (arith, lookup-without_keys ks k m, eq_iff j k)

  lookup-without_generated :
      (k : String) (m : List (String × Y))
      → lookup k (without_generated m)
        ≡ (if slice_set generated_keys k then none else based (lookup k m))
  unfolding without_generated
  lookup-without_generated k m = lookup-without_keys generated_keys k m

  -- The sections that are put into the document, for any contents.
  abbrev pub Put :
      List (String × Y)
      → Option (List (String × Fields))
      → Section Y
      → Section Y
      → Section Y
      → List (String × Section Y)
      → Type 0
  Put parsed ps a b c doc =
      (lookup "proxies" doc ≡ some c)
      × (lookup "proxy-groups" doc ≡ some b)
      × (lookup "rules" doc ≡ some a)
      × (lookup "rule-providers" doc ≡ Option.map named ps)
      × (lookup "sub-rules" doc ≡ none)
      × ((k : String) → slice_set generated_keys k ≡ false → lookup k doc ≡ based (lookup k parsed))

  Put-sections :
      (parsed : List (String × Y)) (ps : Option (List (String × Fields))) (a b c : Section Y)
      → Put parsed ps a b c (
          put_providers ps (
            insert "rules" a
              (insert "proxy-groups" b (insert "proxies" c (without_generated parsed)))))
  unfolding slice_set generated_keys
  Put-sections parsed none a b c = (
    simp lookup-insert,
    simp lookup-insert,
    simp lookup-insert,
    simp (lookup-insert, lookup-without_generated),
    simp (lookup-insert, lookup-without_generated),
    λ k h. simp (lookup-insert, lookup-without_generated) (ground arith),
  )
  Put-sections parsed (some ps) a b c = (
    simp lookup-insert,
    simp lookup-insert,
    simp lookup-insert,
    simp lookup-insert,
    simp (lookup-insert, lookup-without_generated),
    λ k h. simp (lookup-insert, lookup-without_generated) (ground arith),
  )

-- The document of a subscriber holds the subscriber's proxies, the config's groups, rules and, where
-- there are some, providers under their keys, whatever the base text says there; it has no
-- sub-rules; and every other key is as the base text has it.
pub document_sections :
    {Y : Type 0} (parsed : List (String × Y)) (sub : Subscriber) (o : Options)
    → Put parsed
        (rule_providers o.providers o.public_base)
        (lines (build_rules o.rules (new_entity_name_resolver sub o.groups o.providers)))
        (entries (build_groups o.groups (new_entity_name_resolver sub o.groups o.providers)))
        (entries (map proxy_to_map sub.proxies))
        (document parsed sub o)
unfolding document
document_sections parsed sub o =
    Put-sections parsed (rule_providers o.providers o.public_base) _ _ _
