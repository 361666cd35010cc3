-- ===== src/Nodes/Kept.antt =====
-- internal/service/nodes and internal/handlers/node_save: only well-formed nodes reach the repository.
use Prim.Native.String.append.{cons}
use Prim.Native.String.{◌++◌}
use subgen.Prelude.Int.{ℤ, pos, int_ltb}
use subgen.Prelude.Text.{concat, starts_with}
use subgen.Prelude.{
  ◌≡◌, ◌≢◌, refl, sym, ap, subst, inl, inr, String, Bool, true, not, ◌==◌, string_eq, Option,
  Result, ok, err, Bool-cases,
}
use subgen.Entity.Node.{Node}
use subgen.Nodes.Text.{Url}
use subgen.Nodes.Validate.{NodeError, normal_base_path, validate_node}
use subgen.Nodes.Accepts.{NodeShape, validate_node_iff}
use subgen.Nodes.Service.{NodesRepo, NodeReq, save, node_of, node_save, with_id, store, saved}

slash_first : (t : String) → starts_with 0x2f ("/" ++ t) ≡ true
unfolding starts_with
slash_first t = subst (λ s. starts_with 0x2f s ≡ true) (sym (cons "/" "" t)) refl

slash-normal_base_path : (s : String) → starts_with 0x2f (normal_base_path s) ≡ true
unfolding normal_base_path starts_with concat
slash-normal_base_path s = elim (Bool-cases (starts_with 0x2f s)) [
  | inl at ↦ rw (at) at
  | inr no_slash ↦ rw no_slash (slash_first (s ++ ""))
]

normal_base_path_idem : (s : String) → normal_base_path (normal_base_path s) ≡ normal_base_path s
unfolding normal_base_path
normal_base_path_idem s = rw (slash-normal_base_path s) refl

not_empty : (s : String) → starts_with 0x2f s ≡ true → s ≢ ""
unfolding starts_with
not_empty s h e =
    let f : starts_with 0x2f "" ≡ true = subst (λ s. starts_with 0x2f s ≡ true) e h in cc

abbrev the_node : Node → String → Node
the_node n path = record n { panel_base_path = path }

module _ (is_ip : String → Bool) (atoi : String → Option ℤ) (parse : String → Option Url) where
  -- What validateNode returns passes validateNode, unchanged.
  pub validate_node_idem :
      (n m : Node)
      → validate_node is_ip atoi parse n ≡ ok m
      → validate_node is_ip atoi parse m ≡ ok m
  validate_node_idem n m h =
      let (shape, e) = (validate_node_iff is_ip atoi parse n m).0 h in
      let path = normal_base_path n.panel_base_path in
      let n' : Node = record n { panel_base_path = path } in
      let full = not_empty path (slash-normal_base_path n.panel_base_path) in
      let again = (validate_node_iff is_ip atoi parse n' n').1 (
        (shape.0, shape.1, shape.2, full, shape.4, shape.5),
        ap (λ p. the_node n p) (normal_base_path_idem n.panel_base_path),
      ) in
      subst (λ m. validate_node is_ip atoi parse m ≡ ok m) e again

  -- What the repository is given.
  abbrev pub Storable : Node → Type 0
  Storable m = NodeShape is_ip atoi parse m × (starts_with 0x2f m.panel_base_path ≡ true)

  validate_node-Storable : (n m : Node) → validate_node is_ip atoi parse n ≡ ok m → Storable m
  validate_node-Storable n m h =
      let (shape, e) = (validate_node_iff is_ip atoi parse n m).0 h in
      let slash = slash-normal_base_path n.panel_base_path in
      let full = not_empty (normal_base_path n.panel_base_path) slash in
      subst Storable e ((shape.0, shape.1, shape.2, full, shape.4, shape.5), slash)

  module _ {W : Type 0} (repo : NodesRepo W) (Inv : W → Type 0)
      (creates : (m : Node) (w : W) → Storable m → Inv w → Inv ((repo.create m w).1))
      (updates : (m : Node) (set_token : Bool) (w : W)
        → Storable m
        → Inv w
        → Inv ((repo.update m.id m set_token w).1)) where
    with_id-Inv :
        (id : ℤ) (r : Result NodeError (Unit {0}) × W) → Inv r.1 → Inv ((with_id repo id r).1)
    with_id-Inv id (err e, w) h = h
    with_id-Inv id (ok u, w) h = h

    store-Inv :
        (r : Result NodeError Node) (w : W)
        → ((m : Node) → r ≡ ok m → Storable m)
        → Inv w
        → Inv ((store repo r w).1)
    store-Inv (err e) w good h = h
    store-Inv (ok m) w good h = elim (Bool-cases (int_ltb (pos 0) m.id)) [
      | inl old ↦ rw old (
          with_id-Inv m.id (repo.update m.id m (not (m.token == "")) w)
            (updates m (not (m.token == "")) w (good m refl) h))
      | inr fresh ↦ rw fresh (creates m w (good m refl) h)
    ]

    saved-Inv :
        (name : String) (r : Result NodeError ℤ × W)
        → Inv r.1
        → Inv ((saved repo is_ip atoi parse name r).1)
    saved-Inv name (err e, w) h = h
    saved-Inv name (ok id, w) h = h

    -- When create and update keep an invariant of the store for every node that is well-formed and whose
    -- base path starts with a slash, NodeSave keeps it for every request.
    pub node_save-Inv :
        (r : NodeReq) (w : W) → Inv w → Inv ((node_save repo is_ip atoi parse r w).1)
    unfolding node_save save
    node_save-Inv r w h =
        saved-Inv (node_of r).name (store repo (validate_node is_ip atoi parse (node_of r)) w) (
          store-Inv (validate_node is_ip atoi parse (node_of r)) w
            (validate_node-Storable (node_of r)) h)
