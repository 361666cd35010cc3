-- ===== src/Mihomo/PolicyRef.antt =====
-- internal/mihomo/policy_ref.go: references to routing targets and proxy-group members.
use subgen.Prelude.Int.{ℤ}
use subgen.Prelude.Enum.{of_name, name-of_name}
use subgen.Prelude.{
  String, ◌≡◌, refl, Bool, true, false, List, [], ◌∷◌, Option, none, some, if◌then◌else◌,
}

pub data PolicyKind : Type 0 where
  direct reject reject_drop reject_no_drop pass : PolicyKind
  inbound group : PolicyKind
  unknown : String → PolicyKind

-- The text of the constants; string(kind).
unfoldable pub to_string : PolicyKind → String
to_string direct = "direct"
to_string reject = "reject"
to_string reject_drop = "reject-drop"
to_string reject_no_drop = "reject-no-drop"
to_string pass = "pass"
to_string inbound = "inbound"
to_string group = "group"
to_string (unknown s) = s

abbrev pub policy_kinds : List PolicyKind
policy_kinds = direct ∷ reject ∷ reject_drop ∷ reject_no_drop ∷ pass ∷ inbound ∷ group ∷ []

-- PolicyKind(s)
unfoldable pub of_string : String → PolicyKind
unfolding to_string of_name
of_string = of_name to_string unknown policy_kinds

-- The conversion of a string to a kind and back returns the string.
pub to_string-of_string : (s : String) → to_string (of_string s) ≡ s
unfolding of_string
to_string-of_string = name-of_name to_string unknown (λ s. refl) policy_kinds

-- PolicyKind.Valid()
unfoldable pub valid_kind : PolicyKind → Bool
valid_kind (unknown s) = false
valid_kind _ = true

unfoldable pub builtin_policy_kinds : List PolicyKind
builtin_policy_kinds = direct ∷ reject ∷ reject_drop ∷ reject_no_drop ∷ pass ∷ []

-- kind == PolicyInbound, kind == PolicyGroup
abbrev pub is_inbound : PolicyKind → Bool
is_inbound inbound = true
is_inbound _ = false

abbrev pub is_group : PolicyKind → Bool
is_group group = true
is_group _ = false

-- p != nil
abbrev pub is_set {ℓ} : {A : Type ℓ} → Option A → Bool
is_set none = false
is_set (some a) = true

-- a != b on Booleans
abbrev pub differ : Bool → Bool → Bool
differ true true = false
differ false false = false
differ _ _ = true

pub record PolicyRef : Type 0 where
  pub kind : PolicyKind
  pub inbound_id : Option ℤ
  pub group_id : Option ℤ

-- PolicyRef.Valid()
unfoldable pub valid : PolicyRef → Bool
valid r =
    if valid_kind r.kind
    then if differ (is_inbound r.kind) (is_set r.inbound_id)
      then false
      else if differ (is_group r.kind) (is_set r.group_id)
      then false
      else true
    else false
