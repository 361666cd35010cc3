-- ===== src/Mihomo/Groups/Accepts.antt =====
-- The validation of proxy-groups accepts the well-formed drafts and no others.
use subgen.Prelude.Lists
use subgen.Prelude.Lists.{All, In}
use subgen.Prelude.Int.{ℤ}
use subgen.Prelude.{
  ℕ, ◌≡◌, ◌≢◌, ◌↔◌, refl, String, Bool, true, List, [], ◌∷◌, Option, none, ok, reject_if, ||_iff,
  reject_iff, arith, eq_iff, string_eq, ◌==◌,
}
use subgen.Mihomo.Errors.{MihomoError}
use subgen.Mihomo.ProxyGroup.{ProxyGroupType}
use subgen.Mihomo.Draft.{RefDraft, GroupDraft, valid_group}
use subgen.Mihomo.Shape.{IsRef}
use subgen.Mihomo.Validate.{validate_ref, slice_set}
use subgen.Mihomo.Validate.Accepts.{ref_iff, both_iff}
use subgen.Mihomo.Cycle.{cyclic_groups}
use subgen.Mihomo.Cycle.Graph.{Reach}
use subgen.Mihomo.Cycle.Decides.{cyclic_groups-decides}
use subgen.Mihomo.Groups.{validate_members, validate_groups, validate_proxy_groups}

-- The options that each type of group takes: url, interval and lazy; and the tolerance.
abbrev pub GroupOptions : ProxyGroupType → String → Option ℤ → Option Bool → Option ℤ → Type 0
GroupOptions ProxyGroupType.url_test url interval lazy tolerance = Unit
GroupOptions ProxyGroupType.fallback url interval lazy tolerance = tolerance ≡ none
GroupOptions ProxyGroupType.load_balance url interval lazy tolerance = tolerance ≡ none
GroupOptions (ProxyGroupType.unknown s) url interval lazy tolerance = ⊥
GroupOptions _ url interval lazy tolerance =
    (url ≡ "") × (interval ≡ none) × (lazy ≡ none) × (tolerance ≡ none)

-- A well-formed group of a draft with `n` groups, whose name is none of `seen`.
abbrev pub GroupShape : List String → GroupDraft → ℕ → Type 0
GroupShape seen g n =
    (g.name ≢ "")
    × GroupOptions g.type g.url g.interval g.lazy g.tolerance
    × (g.members ≢ [])
    × (¬ In g.name seen)
    × All (λ m. IsRef m n) g.members

abbrev pub GroupsShape : List String → List GroupDraft → ℕ → Type 0
GroupsShape seen [] n = Unit
GroupsShape seen (g ∷ gs) n = GroupShape seen g n × GroupsShape (g.name ∷ seen) gs n

pub slice_set_iff : (ss : List String) (s : String) → (slice_set ss s ≡ true) ↔ In s ss
unfolding slice_set
slice_set_iff [] s = ground arith
slice_set_iff (t ∷ ts) s = ||_iff (t == s) (slice_set ts s) (eq_iff t s) (slice_set_iff ts s)

members_iff :
    (ms : List RefDraft) (n : ℕ) → (validate_members ms n ≡ ok tt) ↔ All (λ m. IsRef m n) ms
unfolding validate_members
members_iff [] n = ((λ h. tt), (λ h. refl))
members_iff (m ∷ ms) n =
    both_iff (validate_ref m n) (validate_members ms n) (ref_iff m.kind m.inbound_id m.group_idx n)
      (members_iff ms n)

seen_iff :
    (seen : List String) (s : String)
    → (reject_if (slice_set seen s) MihomoError.group_name_taken ≡ ok tt) ↔ (¬ In s seen)
seen_iff seen s = reject_iff (slice_set seen s) MihomoError.group_name_taken (slice_set_iff seen s)

valid_group_iff :
    (name url : String) (t : ProxyGroupType) (interval tolerance : Option ℤ) (lazy : Option Bool)
    (ms : List RefDraft)
    → (valid_group (record {
      name = name;
      type = t;
      url = url;
      interval = interval;
      tolerance = tolerance;
      lazy = lazy;
      members = ms;
    })
        ≡ ok tt)
      ↔ ((name ≢ "") × GroupOptions t url interval lazy tolerance × (ms ≢ []))
unfolding valid_group
valid_group_iff name url ProxyGroupType.select interval tolerance lazy ms =
    ground (arith, eq_iff name "", eq_iff url "")
valid_group_iff name url _ interval tolerance lazy ms =
    ground (arith, eq_iff name "", eq_iff url "")

groups_iff :
    (seen : List String) (gs : List GroupDraft) (n : ℕ)
    → (validate_groups seen gs n ≡ ok tt) ↔ GroupsShape seen gs n
unfolding validate_groups
groups_iff seen [] n = ((λ h. tt), (λ h. refl))
groups_iff seen (g ∷ gs) n =
    let whole =
      both_iff (valid_group g) _
        (valid_group_iff g.name g.url g.type g.interval g.tolerance g.lazy g.members)
        (both_iff (reject_if (slice_set seen g.name) MihomoError.group_name_taken) _
          (seen_iff seen g.name)
          (both_iff (validate_members g.members n) (validate_groups (g.name ∷ seen) gs n)
            (members_iff g.members n) (groups_iff (g.name ∷ seen) gs n))) in
    (
      (λ h. let ((a, b, c), (d, (e, f))) = whole.0 h in ((a, b, c, d, e), f)),
      (λ ((a, b, c, d, e), f). whole.1 ((a, b, c), (d, (e, f)))),
    )

-- ValidateProxyGroups accepts a list of groups exactly when every group has a name that no other
-- group has, a known type with only the options of that type, and members, all of them references
-- in range, and no group refers to itself over one or more members.
pub validate_proxy_groups_iff :
    (groups : List GroupDraft)
    → (validate_proxy_groups groups ≡ ok tt)
      ↔ (GroupsShape [] groups (Lists.length groups) × ((i : ℕ) → ¬ Reach groups i i))
unfolding validate_proxy_groups
validate_proxy_groups_iff groups =
    let whole =
      both_iff (validate_groups [] groups (Lists.length groups))
        (reject_if (cyclic_groups groups) MihomoError.group_cycle)
        (groups_iff [] groups (Lists.length groups))
        (reject_iff (cyclic_groups groups) MihomoError.group_cycle
          (cyclic_groups-decides groups)) in
    (
      (λ h. let (a, b) = whole.0 h in (a, λ i r. b (i, r))),
      (λ (a, b). whole.1 (a, λ (i, r). b i r)),
    )
