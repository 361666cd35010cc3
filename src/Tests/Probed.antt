-- ===== src/Tests/Probed.antt =====
-- Probes of rule-set files.
use subgen.Prelude.Int.{pos}
use subgen.Prelude.{
  String, ◌≡◌, refl, Bool, true, [], ◌∷◌, Option, none, some, nat_eqb, if◌then◌else◌,
}
use subgen.Ruleset.Mirror.{Bytes}
use subgen.Ruleset.Check.{
  fine, http_error, no_content, format_mismatch, answered, cut, net_detail, check,
}
use subgen.Ruleset.Checked.{IsFine, check-fine_iff}

-- One page that is text, by its bytes; another that is not.
abbrev text_of : Bytes → Option String
text_of [] = none
text_of (b ∷ _) =
    if nat_eqb b 0x23
    then some "# ads\n\n example.org"
    else if nat_eqb b 0x3c
    then some "<html>"
    else none

abbrev payload_of : Bytes → Option (Option Bool)
payload_of [] = none
payload_of (b ∷ _) =
    if nat_eqb b 0x70 then some (some true) else if nat_eqb b 0x71 then some none else none

abbrev magic : Bytes
magic = 0x28 ∷ 0xb5 ∷ 0x2f ∷ 0xfd ∷ 1 ∷ []

check_runs :
    ((check text_of payload_of (answered (pos 200) magic) "MRS").outcome ≡ fine)
    × ((check text_of payload_of (answered (pos 200) magic) "text").outcome ≡ format_mismatch)
    × ((check text_of payload_of (answered (pos 200) (0x23 ∷ [])) "text").outcome ≡ fine)
    × ((check text_of payload_of (answered (pos 200) (0x3c ∷ [])) "text").outcome ≡ format_mismatch)
    × ((check text_of payload_of (answered (pos 200) (0x70 ∷ [])) "yaml").outcome ≡ fine)
    × ((check text_of payload_of (answered (pos 200) (0x71 ∷ [])) "yaml").outcome ≡ format_mismatch)
    × ((check text_of payload_of (answered (pos 404) magic) "mrs").outcome ≡ http_error)
    × ((check text_of payload_of (answered (pos 200) []) "mrs").outcome ≡ no_content)
    × ((check text_of payload_of (cut (pos 200) "EOF") "mrs").detail ≡ "EOF")
unfolding check
check_runs = (refl, refl, refl, refl, refl, refl, refl, refl, refl)

net_detail_runs :
    (net_detail "Get: dial tcp: no such host" ≡ "no such host")
    × (net_detail "timeout" ≡ "timeout")
    × (net_detail "Get: " ≡ "Get: ")
unfolding net_detail
net_detail_runs = (refl, refl, refl)

check-fine_iff_example : IsFine text_of payload_of (answered (pos 200) magic) "MRS"
check-fine_iff_example =
    (check-fine_iff text_of payload_of (answered (pos 200) magic) "MRS").0 check_runs.0
