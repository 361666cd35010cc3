-- ===== src/Store/Uncopied.antt =====
-- internal/repository/routing/clone_config.go: a copy is deleted with its config, and nothing else.
use subgen.Prelude.Int.{ℤ, int_eq, int_eqb_iff}
use subgen.Prelude.Lists.{All, All-mono, All-append, append_nil}
use subgen.Prelude.Maps.{lookup}
use subgen.Prelude.{
  ℕ, ◌≢◌, String, Bool, true, false, not, List, [], ◌++◌, map, none, ok, ◌≡◌, refl, sym, ap, ◌∙◌,
  subst, >>=-eq-ok, ◌==◌, string_eq,
}
use subgen.Mihomo.ProxyGroup.{Profile}
use subgen.Store.Tables.{GroupRow, MemberRow, ProviderRow, RuleRow, Db, select}
use subgen.Store.Save.{of_config, provider_of, rule_of, one_of, drop_config}
use subgen.Store.Order.{select-append, select_no, select-All, All-selected}
use subgen.Store.Frame.{one_of-no}
use subgen.Store.Clone.{
  clone_groups, clone_members, clone_providers, clone_rules, clone_settings, clone_config,
}
use subgen.Store.Copied.{
  Named, NewGroups, All-map, clone_groups-made, clone_members-made, clone_providers-made,
  clone_rules-made, clone_settings-made, clone_profile-made, other_key, select-absent,
}
use subgen.Configs.{drop_content}

-- The rows of a table with new ones, of which the new are deleted.
pub cut :
    {A : Type 0} (t : A → Bool) (old made : List A)
    → All (λ r. t r ≡ false) old
    → All (λ r. t r ≡ true) made
    → select (λ r. not (t r)) (old ++ made) ≡ old
cut {A} t old made h g =
    let keep = λ (r : A). not (t r) in
    select-append keep old made
    ∙ rw
        (
          select-All keep old (All-mono old (λ r e. ap not e) h),
          select_no keep made (All-mono made (λ r e. ap not e) g),
        )
        (append_nil old)

-- No row is of the config, and no member is in a group whose id a new row may be assigned.
pub record Fresh (new_group : ℕ → ℕ) (c : ℤ) (db : Db) : Type 0 where
  pub groups : All (λ g. of_config c g ≡ false) db.groups
  pub members : All (λ m. (k : ℕ) → new_group k ≢ m.group_id) db.members
  pub providers : All (λ p. provider_of c p ≡ false) db.providers
  pub rules : All (λ r. rule_of c r ≡ false) db.rules
  pub settings : lookup c db.settings ≡ none
  pub profiles : lookup c db.profiles ≡ none

module _ (new_group : ℕ → ℕ) (c : ℤ) (db : Db) (fresh : Fresh new_group c db) where
  is_own : (x : ℤ) → x ≡ c → (x == c) ≡ true
  is_own x e = (int_eqb_iff x c).1 e

  -- A member of the table is in no group of the copy.
  not_named :
      (made : List GroupRow)
      → NewGroups c new_group made
      → All
          (λ m.
            one_of (map (λ g. g.id) (select (of_config c) (db.groups ++ made))) m.group_id ≡ false)
          db.members
  not_named made new =
      let all = db.groups ++ made in
      let IsNew : GroupRow → Type 0 = λ g. of_config c g ≡ true → (k : ℕ) × (g.id ≡ new_group k) in
      let ids : All IsNew all =
        All-append IsNew db.groups made (All-mono db.groups (λ g h e. absurd cc) fresh.groups)
          (All-mono made (λ g h e. h.1) new) in
      All-mono db.members
        (λ m h. one_of-no (map (λ g. g.id) (select (of_config c) all)) m.group_id (
          All-map (λ g. g.id) (λ i. i ≢ m.group_id) (select (of_config c) all)
            (All-mono (select (of_config c) all)
              (λ g n e. let (k, at) = n.1 n.0 in h k (sym at ∙ e))
              (All-selected IsNew (of_config c) all ids))))
        fresh.members

  -- The tables with a copy.
  abbrev full :
      List GroupRow
      → List MemberRow
      → List ProviderRow
      → List RuleRow
      → List (ℤ × List (String × String))
      → List (ℤ × Profile)
      → Db
  full gs ms ps rs settings profiles = record {
    groups = db.groups ++ gs;
    members = db.members ++ ms;
    providers = db.providers ++ ps;
    rules = db.rules ++ rs;
    settings = settings;
    profiles = profiles;
    inbounds = db.inbounds;
  }

  drop_content-full :
      (gs : List GroupRow) (ms : List MemberRow) (ps : List ProviderRow) (rs : List RuleRow)
      (settings : List (ℤ × List (String × String))) (profiles : List (ℤ × Profile))
      → NewGroups c new_group gs
      → All (λ m. Named c (db.groups ++ gs) m.group_id) ms
      → All (λ p. p.config_id ≡ c) ps
      → All (λ r. r.config_id ≡ c) rs
      → select (other_key c) settings ≡ db.settings
      → select (other_key c) profiles ≡ db.profiles
      → drop_content c (full gs ms ps rs settings profiles) ≡ db
  unfolding drop_content drop_config
  drop_content-full gs ms ps rs settings profiles ng nm np nr es ep =
      let own = All-mono gs (λ g h. is_own g.config_id h.0) ng in
      rw
        (
          cut (of_config c) db.groups gs fresh.groups own,
          cut (λ m. one_of (map (λ g. g.id) (select (of_config c) (db.groups ++ gs))) m.group_id)
              db.members ms (not_named gs ng) nm,
          cut (provider_of c) db.providers ps fresh.providers
              (All-mono ps (λ p h. is_own p.config_id h) np),
          cut (rule_of c) db.rules rs fresh.rules (All-mono rs (λ r h. is_own r.config_id h) nr),
          es,
          ep,
        )
        refl

  -- What CloneConfig has put under a new config is what deleting the config takes away.
  pub drop_content-clone_config :
      (new_provider : ℕ → ℕ) (src : ℤ) (d : Db)
      → clone_config new_group new_provider src c db ≡ ok d
      → drop_content c d ≡ db
  unfolding clone_config
  drop_content-clone_config new_provider src d h =
      let ((gm, d1), h1, k1) = >>=-eq-ok (clone_groups new_group src c db) _ d h in
      let (gs, e1, ng, named) = clone_groups-made new_group src c db d1 gm h1 in
      let (d2, h2, k2) = >>=-eq-ok (clone_members src gm d1) _ d k1 in
      let (ms, e2, nm) = clone_members-made (Named c (db.groups ++ gs)) src gm d1 d2 named h2 in
      let ((pm, d3), h3, k3) = >>=-eq-ok (clone_providers new_provider src c d2) _ d k2 in
      let (ps, e3, np) = clone_providers-made new_provider src c d2 d3 pm h3 in
      let (d4, h4, k4) = >>=-eq-ok (clone_rules src c gm pm d3) _ d k3 in
      let (rs, e4, nr) = clone_rules-made src c gm pm d3 d4 h4 in
      let (d5, h5, k5) = >>=-eq-ok (clone_settings src c d4) _ d k4 in
      let c4 : full gs ms ps rs db.settings db.profiles ≡ d4 =
        ap (λ (x : Db). record x { rules = x.rules ++ rs })
          (ap (λ (x : Db). record x { providers = x.providers ++ ps })
              (ap (λ (x : Db). record x { members = x.members ++ ms }) e1 ∙ e2)
            ∙ e3)
        ∙ e4 in
      let none4 : lookup c d4.settings ≡ none =
        subst (λ x. lookup c x.settings ≡ none) c4 fresh.settings in
      let (settings, e5, es) = clone_settings-made src c d4 d5 none4 h5 in
      let c5 : full gs ms ps rs settings db.profiles ≡ d5 =
        ap (λ (x : Db). record x { settings = settings }) c4 ∙ e5 in
      let none5 : lookup c d5.profiles ≡ none =
        subst (λ x. lookup c x.profiles ≡ none) c5 fresh.profiles in
      let (profiles, e6, ep) = clone_profile-made src c d5 d none5 k5 in
      let c6 : full gs ms ps rs settings profiles ≡ d =
        ap (λ (x : Db). record x { profiles = profiles }) c5 ∙ e6 in
      subst (λ x. drop_content c x ≡ db) c6
        (drop_content-full gs ms ps rs settings profiles ng nm np nr
          (es ∙ ap (λ x. x.settings) (sym c4)) (ep ∙ ap (λ x. x.profiles) (sym c5)))

  pub drop_content_fresh : drop_content c db ≡ db
  drop_content_fresh =
      let e : full [] [] [] [] db.settings db.profiles ≡ db =
        rw
          (
            append_nil db.groups,
            append_nil db.members,
            append_nil db.providers,
            append_nil db.rules,
          )
          refl in
      subst (λ x. drop_content c x ≡ db) e
        (drop_content-full [] [] [] [] db.settings db.profiles tt tt tt tt
          (select-absent c db.settings fresh.settings) (select-absent c db.profiles fresh.profiles))
