-- ===== src/Render/Value.antt =====
-- The values of the `map[string]any` that the renderer builds, and the log of the renderer.
use subgen.Prelude.Int.{ℤ}
use subgen.Prelude.{
  String, Bool, List, Option, none, some, ◌==◌, string_eq, if◌then◌else◌, ◌≡◌, refl, arith, eq_iff,
}
use subgen.Mihomo.RuleType.{RuleType}
use subgen.Mihomo.PolicyRef.{PolicyKind}

mutual
  pub data Value : Type 0 where
    text : String → Value
    num : ℤ → Value
    flag : Bool → Value
    texts : List String → Value
    obj : Fields → Value

  -- map[string]any, one entry for each key
  pub data Fields : Type 0 where
    end : Fields
    field : String → Value → Fields → Fields

-- m[k] = v
unfoldable pub put : String → Value → Fields → Fields
put k v end = field k v end
put k v (field j w m) = if j == k then field k v m else field j w (put k v m)

-- m[k]
unfoldable pub get : String → Fields → Option Value
get k end = none
get k (field j v m) = if j == k then some v else get k m

pub get-put :
    (k j : String) (v : Value) (m : Fields)
    → get j (put k v m) ≡ (if k == j then some v else get j m)
unfolding put get
get-put k j v end = refl
get-put k j v (field i w m) = ground (arith, eq_iff k j, eq_iff i k, eq_iff i j, get-put k j v m)

-- A call of slog.Error.
pub data LogEvent : Type 0 where
  member_unresolved : String → PolicyKind → LogEvent
  rule_no_target : RuleType → LogEvent
  target_unresolved : RuleType → PolicyKind → LogEvent
  no_provider_id : RuleType → LogEvent
  provider_unresolved : ℤ → LogEvent
