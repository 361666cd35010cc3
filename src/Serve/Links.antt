-- ===== src/Serve/Links.antt =====
-- internal/service/sublinks/sublinks.go: the links that the admin UI offers for each user. The text that
-- wraps an error is left out.
use Prim.Native.String.{[] as empty, ◌∷◌ as rune}
use Prim.Native.Char.{code}
use subgen.Prelude.Int.{ℤ, int_eq}
use subgen.Prelude.Maps.{lookup, insert}
use subgen.Prelude.Text.{concat}
use subgen.Prelude.{
  ℕ, String, Bool, true, false, ◌&&◌, List, [], ◌∷◌, map, Option, none, some, Result, ok, ◌>>=◌,
  ◌==◌, string_eq, nat_eqb, if◌then◌else◌,
}
use subgen.Mihomo.ProxyGroup.{Profile}
use subgen.Entity.User.{User}
use subgen.Serve.Token.{make}

-- SubLink
pub record SubLink : Type 0 where
  pub title : String
  pub value : String

-- linkSpec
pub record LinkSpec : Type 0 where
  pub title : String
  pub kind : String
  pub build : String → String → String

-- rawURL
abbrev pub raw_url : String → String → String
raw_url sub_url profile_title = sub_url

abbrev is_empty : String → Bool
is_empty empty = true
is_empty (rune c s) = false

-- strings.TrimRight for a cutset of one rune
unfoldable pub trim_right_of : ℕ → String → String
trim_right_of p empty = empty
trim_right_of p (rune c s) =
    let rest = trim_right_of p s in
    if is_empty rest && nat_eqb (code c) p then empty else rune c rest

-- configsRepo and routingRepo
pub record LinkRepos (E : Type 0) : Type 0 where
  pub user_config_user_ids : String → Result E (List ℤ)
  pub base_config_id : String → Result E (Option ℤ)
  pub user_config_id : ℤ → String → Result E (Option ℤ)
  pub profile : ℤ → Result E Profile

-- userID → kind → title
abbrev pub Titles : Type 0
Titles = List (ℤ × List (String × String))

abbrev pub or_none : Option (List (String × String)) → List (String × String)
or_none none = []
or_none (some m) = m

abbrev pub or_blank : Option String → String
or_blank none = ""
or_blank (some t) = t

-- out[id][kind]
abbrev pub title_in : Titles → ℤ → String → String
title_in out id kind = or_blank (lookup kind (or_none (lookup id out)))

-- out[id][kind] = title
abbrev pub put_title : ℤ → String → String → Titles → Titles
put_title id kind title out = insert id (insert kind title (or_none (lookup id out))) out

-- The maps of the users, empty at first.
unfoldable pub no_titles : List User → Titles → Titles
unfolding insert
no_titles [] out = out
no_titles (u ∷ us) out = no_titles us (insert u.id [] out)

-- The id is in the set.
unfoldable pub is_in : List ℤ → ℤ → Bool
is_in [] id = false
is_in (i ∷ is) id = if i == id then true else is_in is id

-- seen[kind]
unfoldable pub has_kind : List String → String → Bool
has_kind [] kind = false
has_kind (k ∷ ks) kind = if k == kind then true else has_kind ks kind

-- The kinds of the list that are not in `seen`, each once, in their order.
unfoldable pub distinct_kinds : List String → List LinkSpec → List String
unfolding has_kind
distinct_kinds seen [] = []
distinct_kinds seen (s ∷ ss) =
    let again = distinct_kinds seen ss in
    let first = s.kind ∷ distinct_kinds (s.kind ∷ seen) ss in
    if has_kind seen s.kind then again else first

-- clashmiDeeplink
abbrev pub clashmi_deeplink : (String → String) → String → String → String
clashmi_deeplink query_escape sub_url profile_title = concat (
    "clashmi://install-config?url="
    ∷ query_escape sub_url
    ∷ "&name="
    ∷ query_escape profile_title
    ∷ "&overwrite=false"
    ∷ [])

abbrev pub catalog : (String → String) → List LinkSpec
catalog query_escape =
    record { title = "Mihomo"; kind = "mihomo"; build = raw_url }
    ∷ record { title = "Clashmi"; kind = "mihomo"; build = clashmi_deeplink query_escape }
    ∷ []

-- catalogKinds
abbrev pub catalog_kinds : (String → String) → List String
catalog_kinds query_escape = distinct_kinds [] (catalog query_escape)

module _ {E : Type 0} (repos : LinkRepos E) where
  -- Service.title
  abbrev pub title : ℤ → Result E String
  title config_id = repos.profile config_id >>= λ p. ok p.title

  abbrev pub title_of : Option ℤ → Result E String
  title_of none = ok ""
  title_of (some id) = title id

  -- Service.baseTitle
  abbrev pub base_title : String → Result E String
  base_title kind = repos.base_config_id kind >>= title_of

  -- Service.userTitle
  abbrev pub user_title : ℤ → String → Result E String
  user_title user_id kind = repos.user_config_id user_id kind >>= title_of

  -- The loop over the users, for one kind; `custom` is the set customUsers.
  unfoldable pub titles_of_kind : String → String → List ℤ → List User → Titles → Result E Titles
  unfolding insert lookup is_in
  titles_of_kind kind base custom [] out = ok out
  titles_of_kind kind base custom (u ∷ us) out =
      (if is_in custom u.id then user_title u.id kind else ok base) >>= λ t.
      titles_of_kind kind base custom us (put_title u.id kind t out)

  -- The loop over the kinds.
  unfoldable pub titles_of_kinds : List String → List User → Titles → Result E Titles
  unfolding titles_of_kind
  titles_of_kinds [] users out = ok out
  titles_of_kinds (kind ∷ kinds) users out = base_title kind >>= λ base.
      repos.user_config_user_ids kind >>= λ custom.
      titles_of_kind kind base custom users out >>= λ out'. titles_of_kinds kinds users out'

  -- Service.titlesByUser
  unfoldable pub titles_by_user : (String → String) → List User → Result E Titles
  unfolding no_titles titles_of_kinds distinct_kinds
  titles_by_user query_escape users =
      titles_of_kinds (catalog_kinds query_escape) users (no_titles users [])

module _ (hex : String → String → String) (secret : String) (query_escape : String → String)
    (base : String) where
  -- The URL of a user's subscription; the slashes at the end of the public base are cut off.
  abbrev pub sub_url : String → String → String
  sub_url kind sub_id =
      concat (trim_right_of 0x2f base ∷ "/sub/" ∷ kind ∷ "/" ∷ make hex secret sub_id ∷ [])

  abbrev pub link_of : Titles → User → LinkSpec → SubLink
  link_of titles u spec = record {
    title = spec.title;
    value = spec.build (sub_url spec.kind u.sub_id) (title_in titles u.id spec.kind);
  }

  -- The loop over the users: the links of each.
  unfoldable pub links_of : Titles → List User → List (ℤ × List SubLink) → List (ℤ × List SubLink)
  unfolding insert lookup concat make trim_right_of
  links_of titles [] out = out
  links_of titles (u ∷ us) out =
      links_of titles us (insert u.id (map (link_of titles u) (catalog query_escape)) out)

  -- Links
  unfoldable pub links : {E : Type 0} → LinkRepos E → List User → Result E (List (ℤ × List SubLink))
  unfolding titles_by_user links_of
  links repos [] = ok []
  links repos (u ∷ us) =
      titles_by_user repos query_escape (u ∷ us) >>= λ titles. ok (links_of titles (u ∷ us) [])
