-- ===== src/Ruleset/Mirror.antt =====
-- internal/service/ruleset/mirror.go and internal/handlers/rules: the copies of the files of the
-- rule-providers. The goroutines write under a lock, so their writes are steps in some order.
use Prim.Native.Nat.{◌*◌, ◌-◌}
use Prim.Native.Nat.{◌%◌}
use subgen.Prelude.Int.{ℤ, pos, negsuc, int_eq, int_ltb}
use subgen.Prelude.Maps.{lookup, insert}
use subgen.Prelude.Text.{concat, lower_is}
use subgen.Prelude.{
  ℕ, zero, suc, ◌≡◌, String, List, [], ◌∷◌, Option, none, some, ◌==◌, string_eq, if◌then◌else◌, ltb,
}
use subgen.Mihomo.ProxyGroup.{RuleProvider}

abbrev pub Bytes : Type 0
Bytes = List ℕ

-- source, with the interval in nanoseconds
pub record Source : Type 0 where
  pub url : String
  pub ext : String
  pub interval : ℤ

-- entry
pub record Entry : Type 0 where
  pub bytes : Bytes
  pub content_type : String

-- Mirror
pub record Mirror : Type 0 where
  pub entries : List (String × Entry)
  pub sources : List (String × Source)

-- What a GET of the upstream file comes to: no response, a status with a body, or a status with a body
-- that cannot be read.
pub data Reply : Type 0 where
  no_response : Reply
  replied : ℤ → Bytes → Reply
  broken : ℤ → Reply

-- extFor
unfoldable pub ext_for : String → String
unfolding lower_is
ext_for format =
    if lower_is format "mrs" then ".mrs" else if lower_is format "yaml" then ".yaml" else ".txt"

-- contentTypeFor
unfoldable pub content_type_for : String → String
content_type_for ext =
    if ext == ".yaml"
    then "application/yaml; charset=utf-8"
    else if ext == ".txt"
    then "text/plain; charset=utf-8"
    else "application/octet-stream"

abbrev pub two_63 : ℕ
two_63 = 9223372036854775808

abbrev pub two_64 : ℕ
two_64 = 18446744073709551616

-- The int64 with the given residue modulo 2^64.
abbrev pub of_residue : ℕ → ℤ
of_residue r = if ltb r two_63 then pos r else negsuc (two_64 - suc r)

-- time.Duration(n) * time.Second
unfoldable pub seconds : ℤ → ℤ
seconds (pos n) = of_residue ((n * 1000000000) % two_64)
seconds (negsuc n) = of_residue ((two_64 - (suc n * 1000000000) % two_64) % two_64)

abbrev pub day : ℤ
day = pos 86400000000000

-- The interval with its default.
abbrev pub interval_of : ℤ → ℤ
interval_of i = if int_ltb (pos 0) i then i else day

-- The key of a provider's file.
unfoldable pub file_of : RuleProvider → String
unfolding ext_for concat
file_of rp = concat (rp.name ∷ ext_for rp.format ∷ [])

abbrev pub source_of : RuleProvider → Source
source_of rp = record {
  url = rp.url;
  ext = ext_for rp.format;
  interval = interval_of (seconds rp.mirror_interval);
}

-- The loop of New, with the map that it fills.
unfoldable pub add_sources : List RuleProvider → List (String × Source) → List (String × Source)
unfolding insert file_of seconds
add_sources [] sources = sources
add_sources (rp ∷ rps) sources =
    add_sources rps (if rp.mirror then insert (file_of rp) (source_of rp) sources else sources)

-- New
unfoldable pub new_mirror : List RuleProvider → Mirror
unfolding add_sources
new_mirror rps = record { entries = []; sources = add_sources rps [] }

-- Mirror.Get
unfoldable pub get : String → Mirror → Option Entry
unfolding lookup
get file m = lookup file m.entries

-- io.LimitReader(body, n)
unfoldable pub limited : ℕ → Bytes → Bytes
limited n [] = []
limited zero (b ∷ bs) = []
limited (suc n) (b ∷ bs) = b ∷ limited n bs

-- 64<<20
abbrev pub limit : ℕ
limit = 67108864

-- Mirror.download
unfoldable pub download : Reply → Option Bytes
unfolding limited
download no_response = none
download (replied status body) = if status == pos 200 then some (limited limit body) else none
download (broken status) = none

-- The rest of fetch: an error or an empty body keeps the copy that is there.
abbrev pub put_copy : String → Source → Option Bytes → Mirror → Mirror
put_copy file src none m = m
put_copy file src (some []) m = m
put_copy file src (some (b ∷ bs)) m = record m {
  entries =
      insert file (record { bytes = b ∷ bs; content_type = content_type_for src.ext }) m.entries;
}

-- Mirror.fetch
unfoldable pub fetch : String → Source → Reply → Mirror → Mirror
unfolding download insert content_type_for
fetch file src reply m = put_copy file src (download reply) m

-- Run and loop: any source is fetched at any time.
pub data Step : Mirror → Mirror → Type 0 where
  fetched :
      (m : Mirror) (file : String) (src : Source) (reply : Reply)
      → lookup file m.sources ≡ some src
      → Step m (fetch file src reply m)

pub data Reach (m : Mirror) : Mirror → Type 0 where
  here : Reach m m
  next : {t u : Mirror} → Reach m t → Step t u → Reach m u

abbrev pub bytes_of : Option Entry → Option Bytes
bytes_of none = none
bytes_of (some e) = some e.bytes

-- Handler.Rules of internal/handlers/rules: none is a 404.
unfoldable pub rules_file : Mirror → String → Option Bytes
unfolding get
rules_file m file = if file == "" then none else bytes_of (get file m)
