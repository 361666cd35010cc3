-- ===== src/Mihomo/Cycle.antt =====
-- internal/mihomo/validate.go: `cyclicGroups`, the depth-first search for a cycle of group references.
-- `visit` recurs on fuel, and its result is none where the fuel runs out; the number of groups is
-- enough fuel, since every call colours one more white group.
pub mod Graph
mod Whites
mod Search
pub mod Decides
use subgen.Prelude.Int.{ℤ, pos, negsuc}
use subgen.Prelude.Lists.{length, get_elem?, get_or, set, replicate}
use subgen.Prelude.{
  ℕ, zero, suc, Bool, true, false, List, [], ◌∷◌, Option, none, some, ltb, if◌then◌else◌,
}
use subgen.Mihomo.PolicyRef.{is_group}
use subgen.Mihomo.Draft.{RefDraft, GroupDraft}

pub data Color : Type 0 where
  white gray black : Color

-- The captured `color` slice.
abbrev pub Colors : Type 0
Colors = List Color

-- What a search returns, with the colours that it leaves.
abbrev pub Found : Type 0
Found = Option (Bool × Colors)

abbrev pub color_at : Colors → ℕ → Color
color_at color i = get_or color i white

abbrev members_of : Option GroupDraft → List RefDraft
members_of none = []
members_of (some g) = g.members

-- groups[i].Members
pub members : List GroupDraft → ℕ → List RefDraft
members groups i = members_of (get_elem? groups i)

abbrev index_below : ℕ → Option ℤ → Option ℕ
index_below n (some (pos j)) = if ltb j n then some j else none
index_below n _ = none

-- The index j of a member that is not passed over by `continue`.
pub group_target : ℕ → RefDraft → Option ℕ
group_target n m = if is_group m.kind then index_below n m.group_idx else none

-- `if found { return true }`, and otherwise go on.
pub after : Found → (Colors → Found) → Found
after none k = none
after (some (true, color)) k = some (true, color)
after (some (false, color)) k = k color

-- color[j] == gray || (color[j] == white && visit(j))
pub by_color : (ℕ → Colors → Found) → ℕ → Color → Colors → Found
by_color visit j gray color = some (true, color)
by_color visit j white color = visit j color
by_color visit j black color = some (false, color)

pub by_target : (ℕ → Colors → Found) → Option ℕ → Colors → Found
unfolding by_color
by_target visit none color = some (false, color)
by_target visit (some j) color = by_color visit j (color_at color j) color

-- The loop over the members, for the recursive call `visit`.
pub scan : (ℕ → Colors → Found) → ℕ → List RefDraft → Colors → Found
unfolding after by_target
scan visit n [] color = some (false, color)
scan visit n (m ∷ ms) color = after (by_target visit (group_target n m) color) (scan visit n ms)

pub finish : ℕ → Found → Found
finish i none = none
finish i (some (true, color)) = some (true, color)
finish i (some (false, color)) = some (false, set color i black)

pub visit : ℕ → List GroupDraft → ℕ → Colors → Found
unfolding scan finish members group_target
visit zero groups i color = none
visit (suc fuel) groups i color =
    finish i (scan (visit fuel groups) (length groups) (members groups i) (set color i gray))

-- color[i] == white && visit(i)
pub if_white : (ℕ → Colors → Found) → ℕ → Color → Colors → Found
if_white visit i white color = visit i color
if_white visit i _ color = some (false, color)

-- The loop over the groups, with `left` groups from `i` on.
pub visit_from : (ℕ → Colors → Found) → ℕ → ℕ → Colors → Found
unfolding after if_white
visit_from visit zero i color = some (false, color)
visit_from visit (suc left) i color =
    after (if_white visit i (color_at color i) color) (visit_from visit left (suc i))

pub search_groups : List GroupDraft → Found
unfolding visit visit_from
search_groups groups =
    visit_from (visit (length groups) groups) (length groups) 0 (replicate (length groups) white)

pub found : Found → Bool
found none = true
found (some (b, color)) = b

-- cyclicGroups
unfoldable pub cyclic_groups : List GroupDraft → Bool
unfolding search_groups found
cyclic_groups groups = found (search_groups groups)
