-- ===== src/Tests/Mirrored.antt =====
-- A mirror of two files, its steps and what it serves.
use subgen.Prelude.Int.{pos, negsuc}
use subgen.Prelude.Lists.{In, length}
use subgen.Prelude.Maps.{lookup}
use subgen.Prelude.Text.{concat}
use subgen.Prelude.{ℕ, ◌≤◌, ◌≡◌, ◌≢◌, refl, inl, inr, true, false, [], ◌∷◌, none, some, string_eq}
use subgen.Mihomo.ProxyGroup.{RuleProvider}
use subgen.Render.Providers.{provider_url}
use subgen.Ruleset.Mirror.{
  Bytes, Source, Entry, Mirror, replied, ext_for, content_type_for, file_of, source_of, new_mirror,
  get, limited, limit, fetch, fetched, Reach, here, next, rules_file, seconds,
}
use subgen.Ruleset.Served.{
  IsInterval, get-IsCopy, Reach-get, new_mirror-interval, provider_url-served,
}

abbrev ads : RuleProvider
ads = record {
  id = pos 1;
  name = "ads";
  behavior = "domain";
  format = "yaml";
  mirror = true;
  url = "https://a.example/ads.yaml";
  interval = pos 3600;
  mirror_interval = pos 0;
}

abbrev direct : RuleProvider
direct = record ads { name = "direct"; mirror = false }

abbrev start : Mirror
start = new_mirror (direct ∷ ads ∷ [])

-- The download fails, then it gives two bytes, then it is empty.
abbrev middle : Mirror
middle =
    fetch "ads.yaml" (source_of ads) (replied (pos 200) (7 ∷ 8 ∷ []))
      (fetch "ads.yaml" (source_of ads) (replied (pos 404) (1 ∷ [])) start)

abbrev after : Mirror
after = fetch "ads.yaml" (source_of ads) (replied (pos 200) []) middle

abbrev copy : Entry
copy = record { bytes = 7 ∷ 8 ∷ []; content_type = "application/yaml; charset=utf-8" }

mirror_runs :
    (rules_file start "ads.yaml" ≡ none)
    × (get "ads.yaml" after ≡ some copy)
    × (rules_file after "ads.yaml" ≡ some (7 ∷ 8 ∷ []))
    × (rules_file after "direct.yaml" ≡ none)
    × (lookup "ads.yaml" start.sources ≡ some (source_of ads))
unfolding rules_file get fetch new_mirror source_of
mirror_runs = (refl, refl, refl, refl, refl)

-- The product of the seconds wraps around.
seconds_runs :
    (seconds (pos 2) ≡ pos 2000000000)
    × (seconds (negsuc 0) ≡ negsuc 999999999)
    × (seconds (pos 9223372037) ≡ negsuc 9223372036709551615)
unfolding seconds
seconds_runs = (refl, refl, refl)

source_run : lookup "ads.yaml" start.sources ≡ some (source_of ads)
source_run = mirror_runs.4

steps : Reach start after
unfolding fetch new_mirror
steps =
    next
      (next
        (next here
          (fetched start "ads.yaml" (source_of ads) (replied (pos 404) (1 ∷ [])) source_run))
        (fetched _ "ads.yaml" (source_of ads) (replied (pos 200) (7 ∷ 8 ∷ [])) source_run))
      (fetched _ "ads.yaml" (source_of ads) (replied (pos 200) []) source_run)

get-IsCopy_example :
    (rp : RuleProvider) × In rp (direct ∷ ads ∷ [])
    × (rp.mirror ≡ true)
    × ("ads.yaml" ≡ file_of rp)
    × (copy.content_type ≡ content_type_for (ext_for rp.format))
    × (copy.bytes ≢ [])
    × (length copy.bytes ≤ limit)
get-IsCopy_example = get-IsCopy (direct ∷ ads ∷ []) after "ads.yaml" copy steps mirror_runs.1

middle_run : get "ads.yaml" middle ≡ some copy
unfolding get fetch new_mirror
middle_run = refl

get_run : get "ads.yaml" middle ≢ none
get_run e = let h = middle_run in cc

last_step : Reach middle after
unfolding fetch new_mirror
last_step = next here (fetched middle "ads.yaml" (source_of ads) (replied (pos 200) []) source_run)

Reach-get_example : get "ads.yaml" after ≢ none
Reach-get_example = Reach-get middle after "ads.yaml" last_step get_run

new_mirror-interval_example : IsInterval (source_of ads).interval
new_mirror-interval_example =
    new_mirror-interval (direct ∷ ads ∷ []) "ads.yaml" (source_of ads) source_run

provider_url-served_example :
    (provider_url "https://s.example" ads
      ≡ concat ("https://s.example" ∷ "/rules/" ∷ file_of ads ∷ []))
    × ((src : Source) × (lookup (file_of ads) after.sources ≡ some src)
        × ((b : ℕ) (bs : Bytes)
            → rules_file (fetch (file_of ads) src (replied (pos 200) (b ∷ bs)) after) (file_of ads)
              ≡ some (limited limit (b ∷ bs))))
provider_url-served_example =
    provider_url-served (direct ∷ ads ∷ []) ads "https://s.example" after (inr (inl refl)) refl
      (λ e. cc) steps
