-- ===== src/Tests/Serving.antt =====
-- Subscriptions that are served, and tokens that are not.
use mathlib.Core.Option
use subgen.Prelude.Int.{ℤ, pos, int_eq}
use subgen.Prelude.Lists.{In, Distinct}
use subgen.Prelude.{
  ◌≡◌, ◌↔◌, ◌⊎◌, refl, inl, inr, String, List, [], ◌∷◌, map, Option, none, some, ok, err, ◌==◌,
  string_eq, if◌then◌else◌, ap, sym, ◌∙◌, ◌≢◌, false, true, eq_iff,
}
use subgen.Entity.Fleet.{Subscriber, Fleet}
use subgen.Fleet.Build.{build_fleet}
use subgen.Fleet.Hysteria.{add_hysteria2_inbounds}
use subgen.Serve.Mihomo.{RenderMeta}
use subgen.Serve.Handler.{
  Formats, Headers, not_found, served, Backend, Renderer, config_id, headers_of, sub, userinfo,
  subscriber_in,
}
use subgen.Serve.Owner.{Matched, Theirs, sub-Theirs}
use subgen.Serve.Resolves.{Unmatched, ServedTo, sub-not_found_iff, sub-make}
use subgen.Configs.{
  ConfigRow, ensure_base_config_id, base_config_id, user_config_id, user_config_user_ids,
}
use subgen.Configs.Owners.{Ensured, ensure_base_config_id-Ensured}
use subgen.Tests.Fleets.{node, snapshots, granted}
use subgen.Prelude.Maps.{lookup}
use subgen.Entity.User.{User}
use subgen.Store.Tables.{Db}
use subgen.Store.Load.{profile}
use subgen.Serve.Links.{SubLink, links}
use subgen.Serve.Titles.{stored_links, two_links, links_offered}
use subgen.Serve.Saved.{owning}
use subgen.Tests.Stored.{before}
use subgen.Serve.Token.{make, prefix}

-- A hash that is not one, to be read.
abbrev hex : String → String → String
hex secret s = s

abbrev fmt : Formats
fmt = record { decimal = λ n. "7"; base64 = λ s. s; quoted = λ s. s }

abbrev fleet : Fleet
fleet = add_hysteria2_inbounds (build_fleet snapshots) (node ∷ []) granted

abbrev back : Backend String
back = record {
  sub_ids = ok ("s9" ∷ "s1" ∷ []);
  id_by_sub_id = λ s. ok (pos 5);
  user_config_id = λ u kind. ok none;
  base_config_id = λ kind. ok (some (pos 3));
  fleet = ok fleet;
}

abbrev meta : RenderMeta
meta = record {
  content_type = "text/yaml; charset=utf-8";
  filename = "home.yaml";
  profile_title = "home";
  update_interval = pos 24;
}

-- The names of the proxies.
abbrev names : Renderer String (List String)
names s config = ok (map (λ p. p.name) s.proxies, meta)

abbrev engines : String → Option (Renderer String (List String))
engines kind = if kind == "mihomo" then some names else none

abbrev headers : Headers
headers = headers_of fmt (subscriber_in fleet "s1") meta

sub_runs :
    (sub hex "k" fmt engines back "mihomo" "s1"
      ≡ ok (served headers ("RU1-force" ∷ "RU1-quick" ∷ [])))
    × (sub hex "k" fmt engines back "mihomo" "s2" ≡ ok not_found)
    × (sub hex "k" fmt engines back "xray" "s1" ≡ ok not_found)
    × (sub hex "k" fmt engines back "mihomo" "" ≡ ok not_found)
    × (sub hex "k" fmt engines (record back { sub_ids = err "locked" }) "mihomo" "s1"
        ≡ err "locked")
    × (userinfo fmt (pos 1) (pos 2) (pos 3) (pos 0) ≡ "upload=7; download=7; total=7")
unfolding sub userinfo add_hysteria2_inbounds build_fleet
sub_runs = (refl, refl, refl, refl, refl, refl)

sub-Theirs_example :
    (renderer : Renderer String (List String)) × (id : String) × (s : Subscriber) × (user : ℤ)
    × (config : ℤ) × (m : RenderMeta) × (engines "mihomo" ≡ some renderer)
    × Matched hex "k" fmt engines back "s1" id
    × (back.id_by_sub_id id ≡ ok user)
    × (config_id back user "mihomo" ≡ ok config)
    × Theirs snapshots (node ∷ []) granted id s
    × (renderer s config ≡ ok ("RU1-force" ∷ "RU1-quick" ∷ [], m))
    × (headers ≡ headers_of fmt s m)
sub-Theirs_example =
    sub-Theirs hex "k" fmt engines back snapshots (node ∷ []) granted "mihomo" "s1" headers
      ("RU1-force" ∷ "RU1-quick" ∷ []) refl sub_runs.0

none_empty : ¬ In {A = String} "" ("s9" ∷ "s1" ∷ [])
none_empty (inl e) = cc
none_empty (inr (inl e)) = cc
none_empty (inr (inr i)) = elim i [ ]

sub-not_found_iff_example : (sub hex "k" fmt engines back "mihomo" "s2" ≡ ok not_found) ↔ (
    (engines "mihomo" ≡ none)
    ⊎ ((◌≡◌ {A = String} "s2" "") ⊎ Unmatched hex "k" fmt engines back "s2" ("s9" ∷ "s1" ∷ [])))
sub-not_found_iff_example =
    sub-not_found_iff hex "k" fmt engines back "mihomo" "s2" ("s9" ∷ "s1" ∷ []) refl none_empty

abbrev rows : List ConfigRow
rows = record { id = pos 1; user_id = some (pos 5); kind = "mihomo"; created_at = pos 0 } ∷ []

ensure_base_config_id-Ensured_example :
    (id : ℤ) × (rows' : List ConfigRow) × (ensure_base_config_id (pos 2) (pos 9) "mihomo" rows
      ≡ ok (id, rows'))
    × Ensured "mihomo" rows id rows'
ensure_base_config_id-Ensured_example =
    ensure_base_config_id-Ensured (pos 2) (pos 9) "mihomo" rows ((λ e. cc), tt)

tokens_differ : make hex "k" "s9" ≢ make hex "k" "s1"
unfolding make prefix
tokens_differ e = let t : false ≡ true = (eq_iff (make hex "k" "s9") (make hex "k" "s1")).1 e in cc

token_there : make hex "k" "s1" ≢ ""
unfolding make
token_there e = cc

only_s1 : (x : String) → In x ("s9" ∷ "s1" ∷ []) → make hex "k" x ≡ make hex "k" "s1" → x ≡ "s1"
only_s1 x (inl e) h = absurd (tokens_differ (ap (make hex "k") e ∙ h))
only_s1 x (inr (inl e)) h = sym e
only_s1 x (inr (inr i)) h = elim i [ ]

id_there : ◌≢◌ {A = String} "s1" ""
id_there e = cc

sub-make_example :
    (sub hex "k" fmt engines back "mihomo" (make hex "k" "s1")
      ≡ ok (served headers ("RU1-force" ∷ "RU1-quick" ∷ [])))
    ↔ ServedTo hex "k" fmt engines back names "mihomo" "s1" headers ("RU1-force" ∷ "RU1-quick" ∷ [])
sub-make_example =
    sub-make hex "k" fmt engines back "mihomo" "s1" ("s9" ∷ "s1" ∷ []) names headers
      ("RU1-force" ∷ "RU1-quick" ∷ []) refl refl (inr (inl refl)) only_s1 id_there token_there

abbrev user : ℤ → String → User
user id sub_id = record {
  id = id;
  name = sub_id;
  sub_id = sub_id;
  description = none;
  created_at = pos 0;
  connections = [];
}

-- The user 5 has a custom config with a profile, and the user 6 has none.
abbrev users : List User
users = user (pos 5) "s1" ∷ user (pos 6) "s9" ∷ []

abbrev content : Db
content = record before {
  profiles = (pos 1, record { title = "home"; filename = "h.yaml"; update_interval = pos 24 }) ∷ [];
}

abbrev escape : String → String
escape s = s

links_runs :
    (out : List (ℤ × List SubLink)) × (links hex "k" escape "https://s.example/"
        (stored_links {E = String} rows content)
        users
      ≡ ok out)
    × (Option.map (map (λ l. l.value)) (lookup (pos 5) out)
        ≡ some (
            "https://s.example/sub/mihomo/s1"
            ∷ "clashmi://install-config?url=https://s.example/sub/mihomo/s1&name=home&overwrite=false"
            ∷ []))
unfolding links user_config_user_ids base_config_id user_config_id profile
links_runs = (_, refl, refl)

Distinct-users : Distinct (map (λ u. u.id) users)
Distinct-users = ((λ i. elim i [ inl e ↦ cc | inr j ↦ absurd j ]), ((λ i. absurd i), tt))

no_zero : (profile content (pos 0)).title ≡ ""
unfolding profile
no_zero = refl

links_offered_example :
    (out : List (ℤ × List SubLink)) × (links hex "k" escape "https://s.example/"
        (stored_links {E = String} rows content)
        users
      ≡ ok out)
    × ((u : User)
        → In u users
        → (c : ℤ) × (config_id (owning back rows) u.id "mihomo" ≡ ok c)
          × (lookup u.id out
              ≡ some (two_links hex "k" escape "https://s.example/" u (profile content c).title)))
links_offered_example =
    links_offered hex "k" escape rows content "https://s.example/" back users Distinct-users no_zero
