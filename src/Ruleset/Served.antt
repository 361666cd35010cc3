-- ===== src/Ruleset/Served.antt =====
-- internal/service/ruleset/mirror.go: what the mirror serves, whatever upstream answers.
use text.Mathlib.TextLemmas.{append-nil, nil≢cons}
use Prim.Native.String.append.{cons, nil}
use subgen.Prelude.Int.{ℤ, pos, negsuc, int_eq}
use subgen.Prelude.Lists.{In, All, length}
use subgen.Prelude.Maps.{lookup, lookup-insert, All-lookup}
use subgen.Prelude.Text.{concat, lower_is}
use subgen.Prelude.{
  ℕ, zero, suc, ◌≤◌, ◌<◌, ◌≡◌, ◌≢◌, inl, inr, refl, sym, ap, ◌∙◌, arith, eq_iff, String, Bool, true,
  false, List, [], ◌∷◌, Option, none, some, ◌==◌, string_eq, if◌then◌else◌, Bool-cases, ltb,
}
use subgen.Mihomo.ProxyGroup.{RuleProvider}
use subgen.Render.Providers.{rule_set_ext, provider_url}
use Prim.Native.String.{◌++◌, [] as empty, ◌∷◌ as rune}
use Prim.Native.Nat.{◌*◌, ◌-◌, ◌%◌}
use subgen.Ruleset.Mirror.{
  Bytes, Source, Entry, Mirror, replied, ext_for, content_type_for, seconds, interval_of, file_of,
  add_sources, new_mirror, get, limited, limit, download, put_copy, fetch, fetched, Reach, here,
  next, rules_file, two_63, of_residue, two_64,
}
use subgen.Ruleset.Sources.{
  IsSource, IsCopy, Reach-Sound, add_sources-IsSource, has_source, still_there,
}

source_of_provider :
    (rps : List RuleProvider) (file : String) (src : Source)
    → lookup file (new_mirror rps).sources ≡ some src
    → IsSource rps (file, src)
unfolding new_mirror
source_of_provider rps file src at =
    All-lookup (IsSource rps) file src (add_sources rps [])
      (add_sources-IsSource rps rps [] (λ rp i. i) tt) at

no_entries :
    (rps : List RuleProvider) → All (IsCopy (new_mirror rps).sources) (new_mirror rps).entries
unfolding new_mirror
no_entries rps = tt

-- After any steps from a new mirror, whatever upstream answers and in whatever order, a file that the
-- mirror serves is that of a mirrored provider of the list, its bytes are some and at most 64 MiB, and its
-- content type is that of the provider's format.
pub get-IsCopy :
    (rps : List RuleProvider) (m : Mirror) (file : String) (e : Entry)
    → Reach (new_mirror rps) m
    → get file m ≡ some e
    → (rp : RuleProvider) × In rp rps
      × (rp.mirror ≡ true)
      × (file ≡ file_of rp)
      × (e.content_type ≡ content_type_for (ext_for rp.format))
      × (e.bytes ≢ [])
      × (length e.bytes ≤ limit)
unfolding get
get-IsCopy rps m file e r at =
    let sound = Reach-Sound (no_entries rps) r in
    let (src, from, some_bytes, small, typed) =
      All-lookup (IsCopy (new_mirror rps).sources) file e m.entries sound.1 at in
    let (rp, i, on, key, is) = source_of_provider rps file src from in
    (rp, i, on, key, typed ∙ ap (λ s. content_type_for s.ext) is, some_bytes, small)

put_copy_lem :
    (file j : String) (src : Source) (body : Option Bytes) (m : Mirror)
    → get j m ≢ none
    → get j (put_copy file src body m) ≢ none
unfolding get
put_copy_lem file j src none m h = h
put_copy_lem file j src (some []) m h = h
put_copy_lem file j src (some (b ∷ bs)) m h =
    still_there file j (record { bytes = b ∷ bs; content_type = content_type_for src.ext })
      m.entries h

-- A file that is served in some state of the mirror is served in every state that steps lead to from it:
-- a failed or empty download does not remove it.
pub Reach-get : (m n : Mirror) (file : String) → Reach m n → get file m ≢ none → get file n ≢ none
unfolding fetch
Reach-get m _ file here h = h
Reach-get m _ file (next r (fetched k j src reply at)) h =
    put_copy_lem j file src (download reply) k (Reach-get m k file r h)

abbrev Fits : ℤ → Type 0
Fits (pos n) = n < two_63
Fits (negsuc n) = Unit

of_residue-Fits : (r : ℕ) → Fits (of_residue r)
of_residue-Fits r = elim (Bool-cases (ltb r two_63)) [
  | inl low ↦ rw low (ground arith)
  | inr high ↦ rw high tt
]

seconds-Fits : (i : ℤ) → Fits (seconds i)
unfolding seconds
seconds-Fits (pos n) = of_residue-Fits ((n * 1000000000) % two_64)
seconds-Fits (negsuc n) = of_residue-Fits ((two_64 - (suc n * 1000000000) % two_64) % two_64)

-- From 1 to the largest int64.
abbrev pub IsInterval : ℤ → Type 0
IsInterval z = (n : ℕ) × (z ≡ pos n) × (1 ≤ n) × (n < two_63)

interval_of-IsInterval : (z : ℤ) → Fits z → IsInterval (interval_of z)
interval_of-IsInterval (pos zero) h = (86400000000000, refl, omega arith, omega arith)
interval_of-IsInterval (pos (suc n)) h = (suc n, ground arith, omega arith, h)
interval_of-IsInterval (negsuc n) h = (86400000000000, refl, omega arith, omega arith)

-- The interval of every source of a new mirror is from 1 to the largest int64, whatever the stored number
-- of seconds is, the wrap-around of its product included.
pub new_mirror-interval :
    (rps : List RuleProvider) (file : String) (src : Source)
    → lookup file (new_mirror rps).sources ≡ some src
    → IsInterval src.interval
new_mirror-interval rps file src at =
    let (rp, i, on, key, is) = source_of_provider rps file src at in
    let (n, e, low, high) =
      interval_of-IsInterval (seconds rp.mirror_interval) (seconds-Fits rp.mirror_interval) in
    (n, ap (λ s. s.interval) is ∙ e, low, high)

ext-agrees : (format : String) → ext_for format ≡ rule_set_ext format
unfolding ext_for rule_set_ext
ext-agrees format = refl

concat-file_of :
    (base : String) (rp : RuleProvider)
    → concat (base ∷ "/rules/" ∷ rp.name ∷ rule_set_ext rp.format ∷ [])
      ≡ concat (base ∷ "/rules/" ∷ file_of rp ∷ [])
unfolding concat file_of
concat-file_of base rp =
    rw (sym (ext-agrees rp.format), append-nil (rp.name ++ (ext_for rp.format ++ ""))) refl

provider_url-file_of :
    (base : String) (rp : RuleProvider)
    → rp.mirror ≡ true
    → base ≢ ""
    → provider_url base rp ≡ concat (base ∷ "/rules/" ∷ file_of rp ∷ [])
unfolding provider_url file_of
provider_url-file_of base rp on ne = elim (Bool-cases (base == "")) [
  | inl blank ↦ absurd (ne ((eq_iff base "").0 blank))
  | inr given ↦ rw (on, given) (concat-file_of base rp)
]

if_ne : (b : Bool) (s t : String) → s ≢ "" → t ≢ "" → (if b then s else t) ≢ ""
if_ne true s t h j = h
if_ne false s t h j = j

append_ne : (s t : String) → t ≢ "" → s ++ t ≢ ""
append_ne empty t h e = h (sym (nil t) ∙ e)
append_ne (rune c s) t h e = absurd (nil≢cons (sym e ∙ cons c s t))

ext_for-ne : (format : String) → ext_for format ≢ ""
unfolding ext_for
ext_for-ne format =
    if_ne (lower_is format "mrs") ".mrs" _ (λ e. cc)
      (if_ne (lower_is format "yaml") ".yaml" ".txt" (λ e. cc) (λ e. cc))

file_of-ne : (rp : RuleProvider) → file_of rp ≢ ""
unfolding file_of concat
file_of-ne rp =
    append_ne rp.name (ext_for rp.format ++ "")
      (λ e. ext_for-ne rp.format (sym (append-nil (ext_for rp.format)) ∙ e))

present : {V : Type 0} (o : Option V) → o ≢ none → (v : V) × (o ≡ some v)
present none h = absurd (h refl)
present (some v) h = (v, refl)

-- One good reply, and the file is served.
served :
    (file : String) (src : Source) (b : ℕ) (bs : Bytes) (m : Mirror)
    → file ≢ ""
    → rules_file (fetch file src (replied (pos 200) (b ∷ bs)) m) file
      ≡ some (limited limit (b ∷ bs))
unfolding rules_file get fetch download limited
served file src b bs m ne =
    let copy : Entry = record {
      bytes = limited limit (b ∷ bs);
      content_type = content_type_for src.ext;
    } in
    let e = lookup-insert file file copy m.entries in
    elim (Bool-cases (file == "")) [
      | inl blank ↦ absurd (ne ((eq_iff file "").0 blank))
      | inr given ↦ rw (given, e, (eq_iff file file).1 refl) refl
    ]

-- For a mirrored provider of the list and a public base that is not empty, the URL that the document gives
-- is the base, /rules/ and the provider's file; and after any steps from a new mirror there is a source
-- for that file, and one reply of upstream to it with the status 200 and some bytes makes the handler
-- serve the bytes up to the limit.
pub provider_url-served :
    (rps : List RuleProvider) (rp : RuleProvider) (base : String) (m : Mirror)
    → In rp rps
    → rp.mirror ≡ true
    → base ≢ ""
    → Reach (new_mirror rps) m
    → (provider_url base rp ≡ concat (base ∷ "/rules/" ∷ file_of rp ∷ []))
      × ((src : Source) × (lookup (file_of rp) m.sources ≡ some src)
          × ((b : ℕ) (bs : Bytes)
              → rules_file (fetch (file_of rp) src (replied (pos 200) (b ∷ bs)) m) (file_of rp)
                ≡ some (limited limit (b ∷ bs))))
unfolding new_mirror
provider_url-served rps rp base m i on ne r =
    let sound = Reach-Sound (no_entries rps) r in
    let there = has_source rp rps [] i on in
    let (src, at) = present (lookup (file_of rp) (add_sources rps [])) there in
    (
      provider_url-file_of base rp on ne,
      (
        src,
        ap (lookup (file_of rp)) sound.0 ∙ at,
        (λ b bs. served (file_of rp) src b bs m (file_of-ne rp)),
      ),
    )
