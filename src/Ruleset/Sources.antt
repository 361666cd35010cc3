-- ===== src/Ruleset/Sources.antt =====
-- internal/service/ruleset/mirror.go: the sources of the mirror, and the copies that any steps leave.
use subgen.Prelude.Int.{pos, int_eq}
use subgen.Prelude.Lists.{In, All, length}
use subgen.Prelude.Maps.{lookup, insert, lookup-insert, All-insert}
use subgen.Prelude.{
  ℕ, zero, suc, ◌≤◌, ◌≡◌, ◌≢◌, inl, inr, refl, sym, ap, ◌∙◌, subst, arith, eq_iff, String, true,
  List, [], ◌∷◌, Option, none, some, ◌==◌, string_eq, if◌then◌else◌, Bool-cases,
}
use subgen.Mihomo.ProxyGroup.{RuleProvider}
use subgen.Ruleset.Mirror.{
  Bytes, Source, Entry, Mirror, Reply, replied, content_type_for, file_of, source_of, add_sources,
  limited, limit, download, put_copy, fetch, fetched, Reach, here, next,
}

-- A source of the mirror belongs to a mirrored provider of the list.
abbrev pub IsSource : List RuleProvider → String × Source → Type 0
IsSource rps entry =
    (rp : RuleProvider) × In rp rps
    × (rp.mirror ≡ true)
    × (entry.0 ≡ file_of rp)
    × (entry.1 ≡ source_of rp)

-- A copy is not empty, not above the limit, and has the content type of its file's source.
abbrev pub IsCopy : List (String × Source) → String × Entry → Type 0
IsCopy sources entry =
    (src : Source) × (lookup entry.0 sources ≡ some src)
    × (entry.1.bytes ≢ [])
    × (length entry.1.bytes ≤ limit)
    × (entry.1.content_type ≡ content_type_for src.ext)

length-limited : (n : ℕ) (bs : Bytes) → length (limited n bs) ≤ n
unfolding limited
length-limited n [] = omega arith
length-limited zero (b ∷ bs) = omega arith
length-limited (suc n) (b ∷ bs) = let h = length-limited n bs in omega arith

pub add_sources-IsSource :
    (all rps : List RuleProvider) (sources : List (String × Source))
    → ((rp : RuleProvider) → In rp rps → In rp all)
    → All (IsSource all) sources
    → All (IsSource all) (add_sources rps sources)
unfolding add_sources
add_sources-IsSource all [] sources sub h = h
add_sources-IsSource all (rp ∷ rps) sources sub h = elim (Bool-cases rp.mirror) [
  | inl on ↦ rw on (
      add_sources-IsSource all rps (insert (file_of rp) (source_of rp) sources)
        (λ r i. sub r (inr i))
        (All-insert (IsSource all) (file_of rp) (source_of rp) sources h
          (rp, sub rp (inl refl), on, refl, refl)))
  | inr off ↦ rw off (add_sources-IsSource all rps sources (λ r i. sub r (inr i)) h)
]

pub still_there :
    {V : Type 0} (k j : String) (v : V) (m : List (String × V))
    → lookup j m ≢ none
    → lookup j (insert k v m) ≢ none
still_there k j v m h =
    let e = lookup-insert k j v m in
    elim (Bool-cases (k == j)) [ inl same ↦ rw (e, same) (λ f. cc) | inr other ↦ rw (e, other) h ]

-- A key that is in the map stays in it.
sources_kept :
    (file : String) (rps : List RuleProvider) (sources : List (String × Source))
    → lookup file sources ≢ none
    → lookup file (add_sources rps sources) ≢ none
unfolding add_sources
sources_kept file [] sources h = h
sources_kept file (rp ∷ rps) sources h = elim (Bool-cases rp.mirror) [
  | inl on ↦ rw on (
      sources_kept file rps (insert (file_of rp) (source_of rp) sources)
        (still_there (file_of rp) file (source_of rp) sources h))
  | inr off ↦ rw off (sources_kept file rps sources h)
]

new_there :
    {V : Type 0} (k : String) (v : V) (m : List (String × V)) → lookup k (insert k v m) ≢ none
new_there k v m = let e = lookup-insert k k v m in rw (e, (eq_iff k k).1 refl) (λ f. cc)

pub has_source :
    (rp : RuleProvider) (rps : List RuleProvider) (sources : List (String × Source))
    → In rp rps
    → rp.mirror ≡ true
    → lookup (file_of rp) (add_sources rps sources) ≢ none
unfolding add_sources
has_source rp [] sources i on = absurd i
has_source rp (x ∷ rps) sources (inl e) on =
    let there : lookup (file_of x) (insert (file_of x) (source_of x) sources) ≢ none =
      new_there (file_of x) (source_of x) sources in
    let kept = sources_kept (file_of x) rps (insert (file_of x) (source_of x) sources) there in
    let on' : x.mirror ≡ true = ap (λ p. p.mirror) e ∙ on in
    subst (λ p. lookup (file_of p) (add_sources (x ∷ rps) sources) ≢ none) e (rw on' kept)
has_source rp (x ∷ rps) sources (inr i) on =
    has_source rp rps (if x.mirror then insert (file_of x) (source_of x) sources else sources) i on

-- The invariant of the mirror's state.
abbrev pub Sound : Mirror → Mirror → Type 0
Sound start m = (m.sources ≡ start.sources) × All (IsCopy start.sources) m.entries

-- A downloaded body is not above the limit.
abbrev Fits : Option Bytes → Type 0
Fits none = Unit
Fits (some bs) = length bs ≤ limit

download_limit : (reply : Reply) → Fits (download reply)
unfolding download
download_limit Reply.no_response = tt
download_limit (Reply.broken status) = tt
download_limit (replied status body) = elim (Bool-cases (status == pos 200)) [
  | inl fine ↦ rw fine (length-limited limit body)
  | inr other ↦ rw other tt
]

put-Sound :
    (start m : Mirror) (file : String) (src : Source) (body : Option Bytes)
    → Fits body
    → lookup file m.sources ≡ some src
    → Sound start m
    → Sound start (put_copy file src body m)
put-Sound start m file src none fits at h = h
put-Sound start m file src (some []) fits at h = h
put-Sound start m file src (some (b ∷ bs)) fits at h =
    let at' : lookup file start.sources ≡ some src = ap (lookup file) (sym h.0) ∙ at in
    (
      h.0,
      All-insert (IsCopy start.sources) file
          (record { bytes = b ∷ bs; content_type = content_type_for src.ext }) m.entries h.1
          (src, at', (λ e. cc), fits, refl),
    )

fetch-Sound :
    (start m : Mirror) (file : String) (src : Source) (reply : Reply)
    → lookup file m.sources ≡ some src
    → Sound start m
    → Sound start (fetch file src reply m)
unfolding fetch
fetch-Sound start m file src reply at h =
    put-Sound start m file src (download reply) (download_limit reply) at h

pub Reach-Sound :
    {start m : Mirror} → All (IsCopy start.sources) start.entries → Reach start m → Sound start m
Reach-Sound h here = (refl, h)
Reach-Sound {start} h (next r (fetched m file src reply at)) =
    fetch-Sound start m file src reply at (Reach-Sound h r)
