-- ===== src/Provision/Targets.antt =====
-- internal/service/provisioning/service.go: the checks of the input, the resolution of the selected
-- inbounds, and the sets of ids.
pub mod Selection
pub mod Same
use Prim.Native.Char.{code}
use Prim.Native.String.{[] as str_nil, ◌∷◌ as str_cons}
use subgen.Prelude.Int.{ℤ, pos, negsuc, int_eq}
use subgen.Prelude.Lists.{length}
use subgen.Prelude.Text.{any_char, trim_space}
use subgen.Prelude.Maps.{lookup, insert}
use subgen.Prelude.{
  ℕ, zero, suc, String, Bool, true, false, ◌&&◌, ◌||◌, not, List, [], ◌∷◌, ◌++◌, map, Option, none,
  some, Result, ok, err, ◌==◌, string_eq, if◌then◌else◌, ltb, leb, nat_eqb,
}
use subgen.Entity.Node.{Node, Inbound, is_hysteria2_kind}
use subgen.Entity.User.{Connection}
use subgen.Provision.Act.{Error}

-- utf8.RuneCountInString
pub rune_count : String → ℕ
rune_count str_nil = 0
rune_count (str_cons c s) = suc (rune_count s)

-- [a-z0-9_-]
pub name_char : ℕ → Bool
name_char c =
    (leb 0x61 c && leb c 0x7a) || (leb 0x30 c && leb c 0x39) || nat_eqb c 0x5f || nat_eqb c 0x2d

-- nameRe
unfoldable pub name_re : String → Bool
unfolding rune_count any_char name_char
name_re name =
    leb 1 (rune_count name)
    && leb (rune_count name) 32
    && not (any_char (λ c. not (name_char c)) name)

-- validateName, for `to_lower`, strings.ToLower
unfoldable pub validate_name : (String → String) → String → Result Error String
unfolding name_re trim_space
validate_name to_lower raw =
    let name = to_lower (trim_space raw) in
    if name_re name then ok name else err Error.invalid_user_name

abbrev pub max_description_len : ℕ
max_description_len = 500

-- validateDescription
unfoldable pub validate_description : Option String → Result Error (Option String)
unfolding rune_count trim_space
validate_description none = ok none
validate_description (some d) =
    let t = trim_space d in
    if t == ""
    then ok none
    else if ltb max_description_len (rune_count t)
    then err Error.description_too_long
    else ok (some t)

pub record ConnTarget : Type 0 where
  pub node_id : ℤ
  pub node : String
  pub port : ℤ
  pub inbound_id : ℤ
  pub kind : String

pub record InboundRef : Type 0 where
  pub node : Node
  pub inbound : Inbound

abbrev pub NodesById : Type 0
NodesById = List (ℤ × Node)

abbrev pub InboundsById : Type 0
InboundsById = List (ℤ × InboundRef)

-- The two loops of nodeIndex; the maps hold what the nodes before have.
unfoldable pub index_inbounds : Node → List Inbound → InboundsById → InboundsById
unfolding insert
index_inbounds n [] m = m
index_inbounds n (i ∷ is) m = index_inbounds n is (insert i.id (record { node = n; inbound = i }) m)

unfoldable pub node_index : List Node → NodesById → InboundsById → NodesById × InboundsById
unfolding insert index_inbounds
node_index [] by_id inbounds = (by_id, inbounds)
node_index (n ∷ ns) by_id inbounds =
    node_index ns (insert n.id n by_id) (index_inbounds n n.inbounds inbounds)

-- seen[id]
unfoldable pub contains : List ℤ → ℤ → Bool
contains [] id = false
contains (x ∷ xs) id = x == id || contains xs id

abbrev pub target_of : InboundRef → ConnTarget
target_of r = record {
  node_id = r.node.id;
  node = r.node.name;
  port = r.inbound.port;
  inbound_id = r.inbound.id;
  kind = r.inbound.kind;
}

abbrev pub found_target :
    Option InboundRef → Result Error (List ConnTarget) → Result Error (List ConnTarget)
found_target none rest = err Error.inbound_not_found
found_target (some r) (ok ts) = ok (target_of r ∷ ts)
found_target (some r) (err e) = err e

-- desiredTargets; `seen` holds the ids before. To set `seen[id]` again, as here before `continue`, changes nothing.
unfoldable pub desired_targets : InboundsById → List ℤ → List ℤ → Result Error (List ConnTarget)
unfolding contains lookup
desired_targets inbounds seen [] = ok []
desired_targets inbounds seen (id ∷ ids) =
    let rest = desired_targets inbounds (id ∷ seen) ids in
    if contains seen id then rest else found_target (lookup id inbounds) rest

-- The loop that keeps the first of equal ids, behind nodeIDs and connNodeIDs, and behind addedNodeIDs
-- where `seen` starts with the ids to leave out.
unfoldable pub distinct : List ℤ → List ℤ → List ℤ
unfolding contains
distinct seen [] = []
distinct seen (id ∷ ids) =
    let rest = distinct (id ∷ seen) ids in if contains seen id then rest else id ∷ rest

-- nodeIDs
unfoldable pub node_ids : List ConnTarget → List ℤ
unfolding distinct
node_ids targets = distinct [] (map (λ t. t.node_id) targets)

-- connNodeIDs
unfoldable pub conn_node_ids : List Connection → List ℤ
unfolding distinct
conn_node_ids conns = distinct [] (map (λ c. c.node_id) conns)

-- addedNodeIDs
unfoldable pub added_node_ids : List Connection → List ConnTarget → List ℤ
unfolding distinct
added_node_ids old desired = distinct (map (λ c. c.node_id) old) (map (λ t. t.node_id) desired)

-- connInboundIDs
abbrev pub conn_inbound_ids : List Connection → List ℤ
conn_inbound_ids conns = map (λ c. c.inbound_id) conns

-- targetInboundIDs
abbrev pub target_inbound_ids : List ConnTarget → List ℤ
target_inbound_ids ts = map (λ t. t.inbound_id) ts

succ_int : ℤ → ℤ
succ_int (pos n) = pos (suc n)
succ_int (negsuc zero) = pos 0
succ_int (negsuc (suc n)) = negsuc n

pred_int : ℤ → ℤ
pred_int (pos zero) = negsuc 0
pred_int (pos (suc n)) = pos n
pred_int (negsuc n) = negsuc (suc n)

-- m[x] of a map into int
abbrev pub count_of : Option ℤ → ℤ
count_of none = pos 0
count_of (some n) = n

-- m[x]++ or m[x]-- for each x
unfoldable pub add_each : (ℤ → ℤ) → List ℤ → List (ℤ × ℤ) → List (ℤ × ℤ)
unfolding lookup insert
add_each step [] m = m
add_each step (x ∷ xs) m = add_each step xs (insert x (step (count_of (lookup x m))) m)

unfoldable pub all_zero : List (ℤ × ℤ) → Bool
all_zero [] = true
all_zero (entry ∷ m) = entry.1 == pos 0 && all_zero m

-- sameInboundIDs
unfoldable pub same_inbound_ids : List ℤ → List ℤ → Bool
unfolding add_each all_zero succ_int pred_int
same_inbound_ids a b =
    if nat_eqb (length a) (length b)
    then all_zero (add_each pred_int b (add_each succ_int a []))
    else false
