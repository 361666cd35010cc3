-- ===== src/Nodes/Text.antt =====
-- internal/service/nodes/validate.go: the tests on texts, and the functions of `strings` they call.
use Prim.Native.Nat.{ℕ, ◌+◌}
use Prim.Native.Char.{code}
use Prim.Native.String.{String, [], ◌∷◌}
use mathlib.Core.List.{List}
use mathlib.Core.Bool.{Bool, true, false, ◌&&◌, ◌||◌, not}
use mathlib.Core.Option.{Option, none, some}
use subgen.Prelude.Int.{ℤ, pos, int_ltb}
use subgen.Prelude.{leb, ltb, nat_eqb, if◌then◌else◌, ◌==◌, string_eq}
use subgen.Prelude.Text.{any_char, trim_space, starts_with, split_on}

-- The bytes of a rune in UTF-8; len(s).
abbrev rune_len : ℕ → ℕ
rune_len c = if ltb c 0x80 then 1 else if ltb c 0x800 then 2 else if ltb c 0x10000 then 3 else 4

unfoldable pub byte_len : String → ℕ
byte_len [] = 0
byte_len (c ∷ s) = rune_len (code c) + byte_len s

-- strings.HasSuffix for a suffix of one rune
unfoldable pub ends_with : ℕ → String → Bool
ends_with p [] = false
ends_with p (c ∷ []) = nat_eqb (code c) p
ends_with p (c ∷ d ∷ s) = ends_with p (d ∷ s)

-- isASCIIAlnum
abbrev pub is_ascii_alnum : ℕ → Bool
is_ascii_alnum c =
    (leb 0x61 c && leb c 0x7a) || (leb 0x41 c && leb c 0x5a) || (leb 0x30 c && leb c 0x39)

-- isRegionalIndicator
abbrev pub is_regional_indicator : ℕ → Bool
is_regional_indicator c = leb 0x1f1e6 c && leb c 0x1f1ff

abbrev pub is_dash : ℕ → Bool
is_dash c = nat_eqb c 0x2d

-- The tests of the loops of isInboundName and isNodeName.
abbrev pub not_in_inbound_name : ℕ → Bool
not_in_inbound_name c = not (is_ascii_alnum c) && not (is_dash c)

abbrev pub not_in_node_name : ℕ → Bool
not_in_node_name c =
    not (is_ascii_alnum c)
    && not (is_dash c)
    && not (nat_eqb c 0x20)
    && not (is_regional_indicator c)

-- isInboundName
unfoldable pub is_inbound_name : String → Bool
unfolding any_char
is_inbound_name s = if s == "" then false else not (any_char not_in_inbound_name s)

-- isNodeName
unfoldable pub is_node_name : String → Bool
unfolding any_char
is_node_name s = if s == "" then false else not (any_char not_in_node_name s)

-- The condition of the first `if` in the loop over the labels of a host.
abbrev bad_label : String → Bool
bad_label label =
    (label == "") || ltb 63 (byte_len label) || starts_with 0x2d label || ends_with 0x2d label

unfoldable pub labels_ok : List String → Bool
unfolding byte_len starts_with ends_with any_char
labels_ok List.[] = true
labels_ok (List.◌∷◌ label labels) =
    let rest = labels_ok labels in
    if bad_label label then false else if any_char not_in_inbound_name label then false else rest

-- isHostOrIP, for `is_ip s`, which tells whether net.ParseIP(s) is not nil.
unfoldable pub is_host_or_ip : (String → Bool) → String → Bool
unfolding byte_len split_on labels_ok
is_host_or_ip is_ip s =
    if s == ""
    then false
    else if is_ip s
    then true
    else if ltb 253 (byte_len s)
    then false
    else labels_ok (split_on 0x2e s)

-- A letter c, or the other code points that (?i) folds to it: U+212A to k and U+017F to s.
abbrev folds_to : ℕ → ℕ → Bool
folds_to letter c =
    nat_eqb c letter
    || nat_eqb (c + 0x20) letter
    || (nat_eqb letter 0x6b && nat_eqb c 0x212a)
    || (nat_eqb letter 0x73 && nat_eqb c 0x17f)

-- The text is the word, letters of any case.
unfoldable pub is_word : String → String → Bool
is_word [] [] = true
is_word [] (c ∷ s) = false
is_word (l ∷ ls) [] = false
is_word (l ∷ ls) (c ∷ s) = folds_to (code l) (code c) && is_word ls s

-- \d and \s of the regular expression
abbrev is_digit : ℕ → Bool
is_digit c = leb 0x30 c && leb c 0x39

abbrev is_re_space : ℕ → Bool
is_re_space c = nat_eqb c 9 || nat_eqb c 10 || nat_eqb c 12 || nat_eqb c 13 || nat_eqb c 0x20

-- (bps|kbps|mbps|gbps|tbps)?$
unfoldable pub is_unit : String → Bool
unfolding is_word
is_unit s =
    (s == "")
    || is_word "bps" s
    || is_word "kbps" s
    || is_word "mbps" s
    || is_word "gbps" s
    || is_word "tbps" s

-- \s*(bps|kbps|mbps|gbps|tbps)?$
unfoldable pub after_digits : String → Bool
unfolding is_unit
after_digits [] = true
after_digits (c ∷ s) =
    let rest = after_digits s in is_unit (c ∷ s) || (is_re_space (code c) && rest)

-- \d*\s*(…)?$ and ^\d+\s*(…)?$, which is bandwidthRe.
unfoldable pub more_digits : String → Bool
unfolding after_digits
more_digits [] = true
more_digits (c ∷ s) =
    let rest = more_digits s in if is_digit (code c) then rest else after_digits (c ∷ s)

unfoldable pub matches_bandwidth : String → Bool
unfolding more_digits
matches_bandwidth [] = false
matches_bandwidth (c ∷ s) = is_digit (code c) && more_digits s

-- isBandwidth
unfoldable pub is_bandwidth : String → Bool
unfolding trim_space matches_bandwidth
is_bandwidth s = (trim_space s == "") || matches_bandwidth (trim_space s)

-- What url.Parse returns, with the methods Hostname and Port applied.
pub record Url : Type 0 where
  pub scheme : String
  pub host : String
  pub path : String
  pub raw_query : String
  pub fragment : String
  pub hostname : String
  pub port : String

-- p < 1 || p > 65535
abbrev pub bad_port : ℤ → Bool
bad_port p = int_ltb p (pos 1) || int_ltb (pos 65535) p

abbrev parsed_port_ok : Option ℤ → Bool
parsed_port_ok none = false
parsed_port_ok (some p) = not (bad_port p)

abbrev port_ok : (String → Option ℤ) → String → Bool
port_ok atoi port = if port == "" then true else parsed_port_ok (atoi port)

abbrev url_ok : (String → Bool) → (String → Option ℤ) → Option Url → Bool
url_ok is_ip atoi none = false
url_ok is_ip atoi (some u) =
    if (not (u.scheme == "http") && not (u.scheme == "https")) || u.host == ""
    then false
    else if not (u.path == "") || not (u.raw_query == "") || not (u.fragment == "")
    then false
    else if not (is_host_or_ip is_ip u.hostname)
    then false
    else port_ok atoi u.port

-- validPanelURL, for the functions net.ParseIP, strconv.Atoi and url.Parse.
unfoldable pub valid_panel_url :
    (String → Bool) → (String → Option ℤ) → (String → Option Url) → String → Bool
unfolding is_host_or_ip
valid_panel_url is_ip atoi parse s = url_ok is_ip atoi (parse s)
