-- ===== src/Nodes/Label.antt =====
-- internal/entity/node.go, `InboundLabel`: the label joins two names with a character that both may hold.
use Prim.Native.String.{◌++◌, [] as empty, ◌∷◌ as rune}
use Prim.Native.String.append.{cons, nil}
use Prim.Native.Char.{code}
use text.Mathlib.TextLemmas.{append_assoc, append-nil, nil≢cons, tail-eq_of_cons-eq}
use subgen.Prelude.Text.{concat}
use subgen.Prelude.{ℕ, String, ◌≡◌, ◌≢◌, refl, sym, ◌∙◌, subst, inl, inr, true, [], ◌∷◌}
use subgen.Entity.Node.{Node, Inbound, inbound_label}
use subgen.Nodes.Names.{AllChars, InboundChar, NodeChar, is_inbound_name_iff, is_node_name_iff}
use subgen.Nodes.Text.{is_inbound_name, is_node_name}

AllChars-append :
    (P : ℕ → Type 0) (s t : String) → AllChars P s → AllChars P t → AllChars P (s ++ t)
unfolding AllChars
AllChars-append P empty t h j = subst (AllChars P) (sym (nil t)) j
AllChars-append P (rune c s) t h j =
    subst (AllChars P) (sym (cons c s t)) (h.0, AllChars-append P s t h.1 j)

AllChars-mono :
    (P Q : ℕ → Type 0) (s : String) → ((c : ℕ) → P c → Q c) → AllChars P s → AllChars Q s
unfolding AllChars
AllChars-mono P Q empty f h = tt
AllChars-mono P Q (rune c s) f h = (f (code c) h.0, AllChars-mono P Q s f h.1)

dash-AllChars : AllChars InboundChar "-"
unfolding AllChars
dash-AllChars = (inr (inr (inr refl)), tt)

-- a-b
abbrev pub joined : String → String → String
joined a b = concat (a ∷ "-" ∷ b ∷ [])

not_empty : (a b : String) → a ++ ("-" ++ b) ≢ ""
not_empty empty b e = absurd (nil≢cons (sym e ∙ nil ("-" ++ b) ∙ cons "-" "" b))
not_empty (rune c a) b e = absurd (nil≢cons (sym e ∙ cons c a ("-" ++ b)))

longer : (a b : String) → a ++ ("-" ++ b) ≢ a
longer empty b e = not_empty "" b e
longer (rune c a) b e = longer a b (tail-eq_of_cons-eq (sym (cons c a ("-" ++ b)) ∙ e))

joined-ne : (a b : String) → joined a b ≢ ""
unfolding concat
joined-ne a b = not_empty a (b ++ "")

joined-longer : (a b : String) → joined a b ≢ a
unfolding concat
joined-longer a b = longer a (b ++ "")

joined-AllChars :
    (a b : String)
    → AllChars InboundChar a
    → AllChars InboundChar b
    → AllChars InboundChar (joined a b)
unfolding concat
joined-AllChars a b h j =
    rw (append-nil b) (
      AllChars-append InboundChar a ("-" ++ b) h
        (AllChars-append InboundChar "-" b dash-AllChars j))

joined_assoc : (a b c : String) → joined (joined a b) c ≡ joined a (joined b c)
unfolding concat
joined_assoc a b c =
    rw
      (
        append-nil (b ++ ("-" ++ (c ++ ""))),
        append_assoc a ("-" ++ (b ++ "")) ("-" ++ (c ++ "")),
        append_assoc "-" (b ++ "") ("-" ++ (c ++ "")),
        append-nil b,
      )
      refl

as_inbound : (s : String) → AllChars InboundChar s → s ≢ "" → is_inbound_name s ≡ true
as_inbound s h ne = (is_inbound_name_iff s).1 (ne, h)

as_node : (s : String) → AllChars InboundChar s → s ≢ "" → is_node_name s ≡ true
as_node s h ne = (is_node_name_iff s).1 (ne, AllChars-mono InboundChar NodeChar s (λ c x. inl x) h)

-- For any three valid inbound names a, b and c, a node named a-b with an inbound c and a node named a with
-- an inbound b-c have valid names, the nodes' names differ, and both inbounds have the same label.
pub inbound_label-clash :
    (a b c : String) (n m : Node) (i j : Inbound)
    → is_inbound_name a ≡ true
    → is_inbound_name b ≡ true
    → is_inbound_name c ≡ true
    → n.name ≡ joined a b
    → m.name ≡ a
    → i.name ≡ c
    → j.name ≡ joined b c
    → (is_node_name n.name ≡ true)
      × (is_node_name m.name ≡ true)
      × (is_inbound_name i.name ≡ true)
      × (is_inbound_name j.name ≡ true)
      × (n.name ≢ m.name)
      × (inbound_label n i ≡ inbound_label m j)
unfolding inbound_label
inbound_label-clash a b c n m i j ha hb hc en em ei ej =
    let (fa, ca) = (is_inbound_name_iff a).0 ha in
    let (fb, cb) = (is_inbound_name_iff b).0 hb in
    let (fc, cc_) = (is_inbound_name_iff c).0 hc in
    rw (en, em, ei, ej)
      (
        as_node (joined a b) (joined-AllChars a b ca cb) (joined-ne a b),
        as_node a ca fa,
        hc,
        as_inbound (joined b c) (joined-AllChars b c cb cc_) (joined-ne b c),
        joined-longer a b,
        joined_assoc a b c,
      )
