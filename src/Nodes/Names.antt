-- ===== src/Nodes/Names.antt =====
-- internal/service/nodes/validate.go: the names that `isInboundName` and `isNodeName` accept.
use Prim.Native.String.{[] as empty, ◌∷◌ as rune}
use Prim.Native.Char.{code}
use subgen.Prelude.Int.{int_eq}
use subgen.Prelude.Text.{any_char}
use subgen.Prelude.{
  ℕ, ◌≤◌, ◌≡◌, ◌≢◌, ◌↔◌, ◌⊎◌, refl, arith, eq_iff, String, Bool, true, false, string_eq,
}
use subgen.Nodes.Text.{is_node_name, is_inbound_name, not_in_inbound_name, not_in_node_name}

-- Every code point of the text satisfies P.
unfoldable pub AllChars : (ℕ → Type 0) → String → Type 0
AllChars P empty = Unit
AllChars P (rune c s) = P (code c) × AllChars P s

abbrev pub Between : ℕ → ℕ → ℕ → Type 0
Between low high c = (low ≤ c) × (c ≤ high)

-- a-z, A-Z, 0-9, -
abbrev pub InboundChar : ℕ → Type 0
InboundChar c = Between 0x61 0x7a c ⊎ Between 0x41 0x5a c ⊎ Between 0x30 0x39 c ⊎ (c ≡ 0x2d)

-- and the space and the regional indicators
abbrev pub NodeChar : ℕ → Type 0
NodeChar c = InboundChar c ⊎ (c ≡ 0x20) ⊎ Between 0x1f1e6 0x1f1ff c

pub any_char-AllChars :
    (P : ℕ → Type 0) (t : ℕ → Bool) (s : String)
    → ((c : ℕ) → (t c ≡ false) ↔ P c)
    → (any_char t s ≡ false) ↔ AllChars P s
unfolding any_char AllChars
any_char-AllChars P t empty h = ((λ e. tt), (λ e. refl))
any_char-AllChars P t (rune c s) h =
    let rest = any_char-AllChars P t s h in let here = h (code c) in ground (arith, rest, here)

InboundChar-iff : (c : ℕ) → (not_in_inbound_name c ≡ false) ↔ InboundChar c
InboundChar-iff c = ground arith

NodeChar-iff : (c : ℕ) → (not_in_node_name c ≡ false) ↔ NodeChar c
NodeChar-iff c = ground arith

pub is_inbound_name_iff :
    (s : String) → (is_inbound_name s ≡ true) ↔ ((s ≢ "") × AllChars InboundChar s)
unfolding is_inbound_name
is_inbound_name_iff s =
    let chars = any_char-AllChars InboundChar not_in_inbound_name s InboundChar-iff in
    ground (arith, eq_iff s "", chars)

pub is_node_name_iff : (s : String) → (is_node_name s ≡ true) ↔ ((s ≢ "") × AllChars NodeChar s)
unfolding is_node_name
is_node_name_iff s =
    let chars = any_char-AllChars NodeChar not_in_node_name s NodeChar-iff in
    ground (arith, eq_iff s "", chars)
