-- ===== src/Serve/Titles.antt =====
-- internal/service/sublinks/sublinks.go: the links carry the title that the subscription is served with.
use subgen.Prelude.Int.{ℤ, pos, int_eq, int_eqb_iff}
use subgen.Prelude.Lists.{In, Distinct}
use subgen.Prelude.Maps.{lookup, insert, lookup-insert}
use subgen.Prelude.{
  ◌≡◌, refl, sym, ap, ◌∙◌, subst, String, List, [], ◌∷◌, map, Option, none, some, ok, ◌==◌,
  string_eq, eq_iff, inl, inr, if◌then◌else◌, Bool-cases, Option-cases,
}
use subgen.Entity.User.{User}
use subgen.Store.Tables.{Db}
use subgen.Store.Load.{profile}
use subgen.Configs.{ConfigRow, user_config_id, base_config_id, user_config_user_ids}
use subgen.Serve.Handler.{Backend, config_id}
use subgen.Serve.Saved.{owning, custom_picked, base_picked}
use subgen.Serve.Links.{
  SubLink, LinkRepos, Titles, or_none, title_in, put_title, no_titles, is_in, title_of,
  titles_of_kind, titles_by_user, links_of, links, clashmi_deeplink, sub_url,
}
use subgen.Serve.Offered.{custom_in, custom_out}

-- The repositories over the tables, when their queries run.
abbrev pub stored_links : {E : Type 0} → List ConfigRow → Db → LinkRepos E
stored_links rows db = record {
  user_config_user_ids = λ kind. ok (user_config_user_ids kind rows);
  base_config_id = λ kind. ok (base_config_id kind rows);
  user_config_id = λ u kind. ok (user_config_id u kind rows);
  profile = λ c. ok (profile db c);
}

title_in-put_title :
    (id v : ℤ) (kind t : String) (out : Titles)
    → title_in (put_title id kind t out) v kind ≡ (if id == v then t else title_in out v kind)
title_in-put_title id v kind t out =
    let m = or_none (lookup id out) in
    let here = (eq_iff kind kind).1 refl in
    elim (Bool-cases (id == v)) [
      | inl same ↦
          rw (lookup-insert id v (insert kind t m) out, same, lookup-insert kind kind t m, here)
            refl
      | inr other ↦ rw (lookup-insert id v (insert kind t m) out, other) refl
    ]

module _ (rows : List ConfigRow) (db : Db) where
  -- The title of an optional config.
  abbrev title_at : Option ℤ → String
  title_at none = ""
  title_at (some c) = (profile db c).title

  -- The title that the loop finds for a user.
  abbrev found : String → ℤ → String
  found kind v =
      if is_in (user_config_user_ids kind rows) v
      then title_at (user_config_id v kind rows)
      else title_at (base_config_id kind rows)

  -- The loop over the users ends, and it has put the title of each.
  abbrev Put : String → List User → Titles → Titles → Type 0
  Put kind us out out' =
      ((u : User) → In u us → title_in out' u.id kind ≡ found kind u.id)
      × ((v : ℤ) → title_in out v kind ≡ found kind v → title_in out' v kind ≡ found kind v)

module _ {E : Type 0} (rows : List ConfigRow) (db : Db) where
  abbrev repos : LinkRepos E
  repos = stored_links rows db

  title_of-ok : (o : Option ℤ) → title_of repos o ≡ ok (title_at rows db o)
  title_of-ok none = refl
  title_of-ok (some c) = refl

  titles_of_kind-Put :
      (kind : String) (us : List User) (out : Titles)
      → (out' : Titles) × (titles_of_kind repos kind
            (title_at rows db (base_config_id kind rows))
            (user_config_user_ids kind rows)
            us
            out
          ≡ ok out')
        × Put rows db kind us out out'
  unfolding titles_of_kind
  titles_of_kind-Put kind [] out = (out, refl, ((λ u i. absurd i), (λ v h. h)))
  titles_of_kind-Put kind (u ∷ us) out =
      let (out', made, (each, kept)) =
        titles_of_kind-Put kind us (put_title u.id kind (found rows db kind u.id) out) in
      let own : title_in (put_title u.id kind (found rows db kind u.id) out) u.id kind
          ≡ found rows db kind u.id =
        title_in-put_title u.id u.id kind (found rows db kind u.id) out
        ∙ rw ((int_eqb_iff u.id u.id).1 refl) refl in
      let keep : (v : ℤ)
          → title_in out v kind ≡ found rows db kind v
          → title_in (put_title u.id kind (found rows db kind u.id) out) v kind
            ≡ found rows db kind v =
        λ v h.
          title_in-put_title u.id v kind (found rows db kind u.id) out
          ∙ elim (Bool-cases (u.id == v)) [
            | inl same ↦ rw same (ap (found rows db kind) ((int_eqb_iff u.id v).0 same))
            | inr other ↦ rw other h
          ] in
      (
        out',
        elim (Bool-cases (is_in (user_config_user_ids kind rows) u.id)) [
          | inl custom ↦
              rw (custom, title_of-ok (user_config_id u.id kind rows)) (rw custom at made)
          | inr base ↦ rw base (rw base at made)
        ],
        (
          (λ x i. elim i [
            | inl e ↦
                subst (λ y. title_in out' y.id kind ≡ found rows db kind y.id) e (kept u.id own)
            | inr j ↦ each x j
          ]),
          (λ v h. kept v (keep v h)),
        ),
      )

  -- titlesByUser ends, and every user of the list has the title found.
  titles_by_user-found :
      (query_escape : String → String) (us : List User)
      → (titles : Titles) × (titles_by_user repos query_escape us ≡ ok titles)
        × ((u : User) → In u us → title_in titles u.id "mihomo" ≡ found rows db "mihomo" u.id)
  unfolding titles_by_user
  titles_by_user-found query_escape us =
      let (titles, made, (each, kept)) = titles_of_kind-Put "mihomo" us (no_titles us []) in
      (titles, rw (title_of-ok (base_config_id "mihomo" rows), made) refl, each)

module _ (hex : String → String → String) (secret : String) (query_escape : String → String)
    (base : String) where
  -- The two links of a user, for a profile title.
  abbrev pub two_links : User → String → List SubLink
  two_links u title =
      record { title = "Mihomo"; value = sub_url hex secret query_escape base "mihomo" u.sub_id }
      ∷ record {
        title = "Clashmi";
        value =
            clashmi_deeplink query_escape (sub_url hex secret query_escape base "mihomo" u.sub_id)
              title;
      }
      ∷ []

  links_of-other :
      (titles : Titles) (us : List User) (out : List (ℤ × List SubLink)) (v : ℤ)
      → ¬ In v (map (λ u. u.id) us)
      → lookup v (links_of hex secret query_escape base titles us out) ≡ lookup v out
  unfolding links_of
  links_of-other titles [] out v h = refl
  links_of-other titles (u ∷ us) out v h =
      links_of-other titles us _ v (λ i. h (inr i))
      ∙ lookup-insert u.id v (two_links u (title_in titles u.id "mihomo")) out
      ∙ elim (Bool-cases (u.id == v)) [
        | inl same ↦ absurd (h (inl ((int_eqb_iff u.id v).0 same)))
        | inr other ↦ rw other refl
      ]

  links_of-two :
      (titles : Titles) (us : List User) (out : List (ℤ × List SubLink)) (u : User)
      → Distinct (map (λ u. u.id) us)
      → In u us
      → lookup u.id (links_of hex secret query_escape base titles us out)
        ≡ some (two_links u (title_in titles u.id "mihomo"))
  unfolding links_of
  links_of-two titles [] out u d i = absurd i
  links_of-two titles (x ∷ us) out u d (inl e) =
      subst
        (λ y.
          lookup y.id (links_of hex secret query_escape base titles (x ∷ us) out)
          ≡ some (two_links y (title_in titles y.id "mihomo")))
        e
        (links_of-other titles us _ x.id d.0
          ∙ lookup-insert x.id x.id (two_links x (title_in titles x.id "mihomo")) out
          ∙ rw ((int_eqb_iff x.id x.id).1 refl) refl)
  links_of-two titles (x ∷ us) out u d (inr i) = links_of-two titles us _ u d.1 i

-- The config that is served to a user has the title that is found.
found-served :
    {E : Type 0} (back : Backend E) (rows : List ConfigRow) (db : Db) (kind : String) (v : ℤ)
    → (profile db (pos 0)).title ≡ ""
    → (c : ℤ) × (config_id (owning back rows) v kind ≡ ok c)
      × (found rows db kind v ≡ (profile db c).title)
found-served back rows db kind v blank = elim (Option-cases (user_config_id v kind rows)) [
  | inr (c, at) ↦ (c, custom_picked back rows v c kind at, rw (custom_in v kind rows c at, at) refl)
  | inl no_own ↦ elim (Option-cases (base_config_id kind rows)) [
    | inr (c, at) ↦
        (c, base_picked back rows v c kind no_own at, rw (custom_out v kind rows no_own, at) refl)
    | inl no_base ↦ (
      pos 0,
      (unfold config_id in rw (no_own, no_base) refl),
      rw (custom_out v kind rows no_own, no_base) (sym blank),
    )
  ]
]

-- When no two users of the list have the same id, and no profile is stored under the id 0, Links succeeds
-- and gives each user two links: the URL of the subscription, with the token of the user's subscription
-- id, and the deeplink around it; its name is the title of the config that the subscription handler picks
-- for the user.
pub links_offered :
    {E : Type 0} (hex : String → String → String) (secret : String) (query_escape : String → String)
    (rows : List ConfigRow) (db : Db) (base : String) (back : Backend E) (us : List User)
    → Distinct (map (λ u. u.id) us)
    → (profile db (pos 0)).title ≡ ""
    → (out : List (ℤ × List SubLink)) × (links hex secret query_escape base
          (stored_links {E = E} rows db)
          us
        ≡ ok out)
      × ((u : User)
          → In u us
          → (c : ℤ) × (config_id (owning back rows) u.id "mihomo" ≡ ok c)
            × (lookup u.id out
                ≡ some (two_links hex secret query_escape base u (profile db c).title)))
unfolding links
links_offered hex secret query_escape rows db base back [] d blank = ([], refl, λ u i. absurd i)
links_offered {E} hex secret query_escape rows db base back (x ∷ us) d blank =
    let (titles, made, each) = titles_by_user-found {E = E} rows db query_escape (x ∷ us) in
    let out = links_of hex secret query_escape base titles (x ∷ us) [] in
    (
      out,
      rw made refl,
      λ u i.
          let (c, picked, title) = found-served back rows db "mihomo" u.id blank in
          (
            c,
            picked,
            links_of-two hex secret query_escape base titles (x ∷ us) [] u d i
                ∙ ap (λ t. some (two_links hex secret query_escape base u t)) (each u i ∙ title),
          ),
    )
