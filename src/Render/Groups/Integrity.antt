-- ===== src/Render/Groups/Integrity.antt =====
-- What the entries of the rendered proxy-groups refer to.
use subgen.Prelude.Int.{ℤ}
use subgen.Prelude.Lists.{All}
use subgen.Prelude.{
  String, ◌≡◌, ◌∙◌, ◌≢◌, refl, Bool, false, List, [], ◌∷◌, Option, none, some, ◌==◌, string_eq,
  Bool-cases, inl, inr,
}
use subgen.Mihomo.PolicyRef.{PolicyRef}
use subgen.Mihomo.ProxyGroup
use subgen.Mihomo.ProxyGroup.{ProxyGroup, RuleProvider, uses_health_check}
use subgen.Entity.Fleet.{Subscriber}
use subgen.Render.Value.{text, num, flag, texts, Fields, put, get, get-put}
use subgen.Render.Resolver.{EntityNameResolver, new_entity_name_resolver, resolve}
use subgen.Render.Resolver.Sound.{IsPolicyName, resolve_sound}
use subgen.Render.Groups.{
  keep, member_names, or_direct, put_num, put_flag, put_text, put_health_check, group_entry,
  build_groups,
}

-- The health-check options leave the name, the type and the members alone.
get-put_text : (k j s : String) (m : Fields) → (k == j) ≡ false → get j (put_text k s m) ≡ get j m
get-put_text k j s m h = elim (Bool-cases (s == "")) [
  | inl skipped ↦ rw skipped
  | inr kept ↦ rw kept (get-put k j (text s) m ∙ rw h)
]

get-put_num :
    (k j : String) (o : Option ℤ) (m : Fields) → (k == j) ≡ false → get j (put_num k o m) ≡ get j m
get-put_num k j none m h = refl
get-put_num k j (some n) m h = get-put k j (num n) m ∙ rw h

get-put_flag :
    (k j : String) (o : Option Bool) (m : Fields)
    → (k == j) ≡ false
    → get j (put_flag k o m) ≡ get j m
get-put_flag k j none m h = refl
get-put_flag k j (some n) m h = get-put k j (flag n) m ∙ rw h

-- A key that is none of the four options.
record IsOther (j : String) : Type 0 where
  no_lazy : ("lazy" == j) ≡ false
  no_tolerance : ("tolerance" == j) ≡ false
  no_interval : ("interval" == j) ≡ false
  no_url : ("url" == j) ≡ false

get-put_health_check :
    (j : String) (g : ProxyGroup) (m : Fields) → IsOther j → get j (put_health_check g m) ≡ get j m
unfolding put_health_check
get-put_health_check j g m o = elim (Bool-cases (uses_health_check g.type)) [
  | inl used ↦ rw used (
      get-put_flag "lazy" j g.lazy _ o.no_lazy
      ∙ get-put_num "tolerance" j _ _ o.no_tolerance
      ∙ get-put_num "interval" j g.interval _ o.no_interval
      ∙ get-put_text "url" j g.url m o.no_url)
  | inr unused ↦ rw unused
]

-- The name, the type and the members of the entry of a group.
group_entry_fields :
    (res : EntityNameResolver) (g : ProxyGroup)
    → (get "name" (group_entry res g) ≡ some (text g.name))
      × (get "type" (group_entry res g) ≡ some (text (ProxyGroup.to_string g.type)))
      × (get "proxies" (group_entry res g) ≡ some (texts (or_direct (member_names res g.members))))
unfolding group_entry put get
group_entry_fields res g = (
  get-put_health_check "name" g _
      (record { no_lazy = refl; no_tolerance = refl; no_interval = refl; no_url = refl }),
  get-put_health_check "type" g _
      (record { no_lazy = refl; no_tolerance = refl; no_interval = refl; no_url = refl }),
  get-put_health_check "proxies" g _
      (record { no_lazy = refl; no_tolerance = refl; no_interval = refl; no_url = refl }),
)

-- What the entry of group `g` holds in the document of `sub`.
pub record IsEntry (sub : Subscriber) (groups : List ProxyGroup) (g : ProxyGroup) (entry : Fields)
    : Type 0 where
  pub names : List String
  pub named : get "name" entry ≡ some (text g.name)
  pub typed : get "type" entry ≡ some (text (ProxyGroup.to_string g.type))
  pub proxies : get "proxies" entry ≡ some (texts names)
  pub some_member : names ≢ []
  pub known : All (IsPolicyName sub groups) names

-- One entry for each group, in order.
abbrev pub AreEntries : Subscriber → List ProxyGroup → List ProxyGroup → List Fields → Type 0
AreEntries sub groups [] [] = Unit
AreEntries sub groups (g ∷ gs) (e ∷ es) = IsEntry sub groups g e × AreEntries sub groups gs es
AreEntries sub groups _ _ = ⊥

module _ (sub : Subscriber) (groups : List ProxyGroup) (providers : List RuleProvider) where
  abbrev res : EntityNameResolver
  res = new_entity_name_resolver sub groups providers

  members_sound : (ms : List PolicyRef) → All (IsPolicyName sub groups) (member_names res ms)
  unfolding member_names
  members_sound [] = tt
  members_sound (m ∷ ms) =
      go (resolve res m) (resolve_sound sub groups providers m) (members_sound ms)
    where
      go :
          (o : Option String)
          → ((n : String) → o ≡ some n → IsPolicyName sub groups n)
          → All (IsPolicyName sub groups) (member_names res ms)
          → All (IsPolicyName sub groups) (keep o (member_names res ms))
      go none h rest = rest
      go (some n) h rest = (h n refl, rest)

  or_direct_sound :
      (names : List String)
      → All (IsPolicyName sub groups) names
      → All (IsPolicyName sub groups) (or_direct names) × (or_direct names ≢ [])
  or_direct_sound [] h = ((inl (inl refl), tt), λ e. cc)
  or_direct_sound (n ∷ ns) h = (h, λ e. cc)

  entries_of : (gs : List ProxyGroup) → AreEntries sub groups gs (build_groups gs res)
  unfolding build_groups
  entries_of [] = tt
  entries_of (g ∷ gs) =
      let (named, typed, proxies) = group_entry_fields res g in
      let (known, some_member) =
        or_direct_sound (member_names res g.members) (members_sound g.members) in
      (
        record {
          names = or_direct (member_names res g.members);
          named = named;
          typed = typed;
          proxies = proxies;
          some_member = some_member;
          known = known;
        },
        entries_of gs,
      )

-- In the document of a subscriber every proxy-group of the config has its entry, in order, with its
-- name and type, and its list of members is not empty and names only built-in policies, proxies of
-- that subscriber, and groups of the config.
pub build_groups_integrity :
    (sub : Subscriber) (groups : List ProxyGroup) (providers : List RuleProvider)
    → AreEntries sub groups groups
        (build_groups groups (new_entity_name_resolver sub groups providers))
build_groups_integrity sub groups providers = entries_of sub groups providers groups
