-- ===== src/Store/Cloned.antt =====
-- internal/repository/routing/clone_config.go: the copy of a config is that config under other ids.
use subgen.Prelude.Int.{ℤ, int_eq, int_eqb_iff}
use subgen.Prelude.Lists.{All, append_nil}
use subgen.Prelude.Maps.{lookup, insert, lookup-insert}
use subgen.Prelude.{
  ℕ, String, Bool, true, not, List, [], ◌∷◌, ◌++◌, map, none, some, ok, ◌≡◌, refl, sym, subst,
  reject-eq-ok, nat_eq, string_eq, nat_eqb_iff, nat_eqb, Bool-cases, Option-cases, inl, inr,
}
use subgen.Store.Tables.{MemberRow, Db, select, order_by, place}
use subgen.Store.Save.{one_of, members_fit, id_or_zero}
use subgen.Store.Load.{profile, setting}
use subgen.Store.Clone.{
  Ids, mapped, clone_members, clone_settings, clone_profile, violated, copy_members,
}
use subgen.Store.Copies.{members_of, Carries}

-- The id is carried to some id.
abbrev pub Keyed : Ids → ℕ → Type 0
Keyed ids o = (n : ℕ) × (lookup o ids ≡ some n)

pub Carries-Keyed : (ids : Ids) (old new : List ℕ) → Carries ids old new → All (Keyed ids) old
Carries-Keyed ids [] new h = tt
Carries-Keyed ids (o ∷ old) [] h = absurd cc
Carries-Keyed ids (o ∷ old) (n ∷ new) h = ((n, cc), Carries-Keyed ids old new cc)

All-place_back :
    {A : Type 0} (P : A → Type 0) (le : A → A → Bool) (x : A) (xs : List A)
    → All P (place le x xs)
    → P x × All P xs
unfolding place
All-place_back P le x [] h = h
All-place_back P le x (y ∷ ys) h = elim (Bool-cases (le x y)) [
  | inl hit ↦ rw hit at h
  | inr miss ↦
      let (here, there) = (rw miss at h) in
      let (own, rest) = All-place_back P le x ys there in (own, (here, rest))
]

-- What holds of the sorted rows holds of the rows.
pub All-order_by_back :
    {A : Type 0} (P : A → Type 0) (le : A → A → Bool) (xs : List A)
    → All P (order_by le xs)
    → All P xs
unfolding order_by
All-order_by_back P le [] h = tt
All-order_by_back P le (x ∷ xs) h =
    let (own, rest) = All-place_back P le x (order_by le xs) h in
    (own, All-order_by_back P le xs rest)

pub All-unmap :
    {A B : Type 0} (f : A → B) (P : B → Type 0) (xs : List A)
    → All P (map f xs)
    → All (λ x. P (f x)) xs
All-unmap f P [] h = tt
All-unmap f P (x ∷ xs) h = (h.0, All-unmap f P xs h.1)

one_of-Keyed :
    (ids : Ids) (os : List ℕ) (x : ℕ) → All (Keyed ids) os → one_of os x ≡ true → Keyed ids x
unfolding one_of
one_of-Keyed ids [] x h e = cc
one_of-Keyed ids (o ∷ os) x h e = elim (Bool-cases (nat_eqb o x)) [
  | inl same ↦ subst (Keyed ids) ((nat_eqb_iff o x).0 same) h.0
  | inr other ↦ one_of-Keyed ids os x h.1 (rw other at e)
]

-- A member under the new ids of its group and of the group that it refers to.
abbrev pub carry_member : Ids → MemberRow → MemberRow
carry_member ids m = record m {
  group_id = id_or_zero (lookup m.group_id ids);
  ref_group_id = mapped ids m.ref_group_id;
}

copy_members-carry :
    (ids : Ids) (ms : List MemberRow)
    → All (λ m. Keyed ids m.group_id) ms
    → copy_members ids ms ≡ map (carry_member ids) ms
unfolding copy_members
copy_members-carry ids [] h = refl
copy_members-carry ids (m ∷ ms) h = rw (h.0.1, copy_members-carry ids ms h.1) refl

pub select-Keyed :
    (ids : Ids) (os : List ℕ) (ms : List MemberRow)
    → All (Keyed ids) os
    → All (λ m. Keyed ids m.group_id) (select (λ m. one_of os m.group_id) ms)
unfolding select
select-Keyed ids os [] h = tt
select-Keyed ids os (m ∷ ms) h = elim (Bool-cases (one_of os m.group_id)) [
  | inl own ↦ rw own (one_of-Keyed ids os m.group_id h own, select-Keyed ids os ms h)
  | inr other ↦ rw other (select-Keyed ids os ms h)
]

nothing-Keyed : (ms : List MemberRow) → All (λ m. Keyed [] m.group_id) ms → ms ≡ []
unfolding lookup
nothing-Keyed [] h = refl
nothing-Keyed (m ∷ ms) h = let e = h.0.1 in absurd cc

pub clone_members-copies :
    (src : ℤ) (ids : Ids) (db d : Db)
    → All (λ m. Keyed ids m.group_id) (members_of src db)
    → clone_members src ids db ≡ ok d
    → record db { members = db.members ++ map (carry_member ids) (members_of src db) } ≡ d
unfolding clone_members
clone_members-copies src [] db d keyed h =
    let e : db ≡ d = cc in rw (nothing-Keyed (members_of src db) keyed, append_nil db.members) e
clone_members-copies src (entry ∷ ids) db d keyed h =
    let rows = copy_members (entry ∷ ids) (members_of src db) in
    let (fit, e) = reject-eq-ok (not (members_fit db.inbounds rows)) violated _ d h in
    let all : rows ≡ map (carry_member (entry ∷ ids)) (members_of src db) =
      copy_members-carry (entry ∷ ids) (members_of src db) keyed in
    rw (sym all) cc

pub profile-clone_profile :
    (src dst : ℤ) (db d : Db)
    → lookup dst db.profiles ≡ none
    → clone_profile src dst db ≡ ok d
    → profile d dst ≡ profile db src
unfolding clone_profile profile
profile-clone_profile src dst db d absent h = elim (Option-cases (lookup src db.profiles)) [
  | inl no_row ↦
      let e = (rw no_row at h) in
      let same : db ≡ d = cc in
      subst (λ x. profile x dst ≡ profile db src) same (rw (no_row, absent) refl)
  | inr (p, at) ↦
      let e = (rw (at, absent) at h) in
      let same : record db { profiles = insert dst p db.profiles } ≡ d = cc in
      subst (λ x. profile x dst ≡ profile db src) same
        (rw (at, lookup-insert dst dst p db.profiles, (int_eqb_iff dst dst).1 refl) refl)
]

pub setting-clone_settings :
    (src dst : ℤ) (db d : Db)
    → lookup dst db.settings ≡ none
    → clone_settings src dst db ≡ ok d
    → ((key : String) → setting d dst key ≡ setting db src key)
unfolding clone_settings setting
setting-clone_settings src dst db d absent h key = elim (Option-cases (lookup src db.settings)) [
  | inl no_row ↦
      let e = (rw no_row at h) in
      let same : db ≡ d = cc in
      subst (λ x. setting x dst key ≡ setting db src key) same (rw (no_row, absent) refl)
  | inr (m, at) ↦
      let e = (rw (at, absent) at h) in
      let same : record db { settings = insert dst m db.settings } ≡ d = cc in
      subst (λ x. setting x dst key ≡ setting db src key) same
        (rw (at, lookup-insert dst dst m db.settings, (int_eqb_iff dst dst).1 refl) refl)
]
