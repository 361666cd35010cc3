-- ===== src/Serve/Offered.antt =====
-- internal/service/sublinks/sublinks.go: the title of a link, and the set of the users with a custom config.
use subgen.Prelude.Int.{ℤ, int_eq, int_eqb_iff}
use subgen.Prelude.Lists.{All, In, In-map}
use subgen.Prelude.{
  ◌≡◌, ◌≢◌, refl, subst, arith, String, Bool, true, false, ◌&&◌, not, List, [], ◌∷◌, map, Option,
  none, some, ◌==◌, string_eq, inl, inr, Bool-cases,
}
use subgen.Store.Tables.{select, order_by}
use subgen.Store.Order.{All-order_by}
use subgen.Store.Consistent.{In-order_by}
use subgen.Configs.{
  ConfigRow, is_null, same_user, is_custom, owner, custom_of, by_owner, user_config_id,
  user_config_user_ids,
}
use subgen.Serve.Links.{is_in}

-- A row of a custom config of the kind, against the test for one user.
one_user :
    (user_id : Option ℤ) (u : ℤ) (same : Bool)
    → (not (is_null user_id) && same) ≡ true
    → (same_user user_id u && same) ≡ false
    → owner user_id ≢ u
one_user none u same h k e = cc
one_user (some x) u true h k e = let t = (int_eqb_iff x u).1 e in ground arith
one_user (some x) u false h k e = cc

this_user :
    (user_id : Option ℤ) (u : ℤ) (same : Bool)
    → (same_user user_id u && same) ≡ true
    → ((not (is_null user_id) && same) ≡ true) × (owner user_id ≡ u)
this_user none u same h = cc
this_user (some x) u same h = elim (Bool-cases (x == u)) [
  | inl is ↦ (let k = rw is at h in k, (int_eqb_iff x u).0 is)
  | inr other ↦ let k = rw other at h in cc
]

module _ (u : ℤ) (kind : String) where
  no_custom :
      (rows : List ConfigRow)
      → user_config_id u kind rows ≡ none
      → All (λ r. owner r.user_id ≢ u) (select (custom_of kind) rows)
  unfolding user_config_id select
  no_custom [] h = tt
  no_custom (r ∷ rs) h = elim (Bool-cases (is_custom u kind r)) [
    | inl is ↦ let k = rw is at h in cc
    | inr other ↦
        let rest = no_custom rs (rw other at h) in
        elim (Bool-cases (custom_of kind r)) [
          | inl custom ↦ rw custom (one_user r.user_id u (r.kind == kind) custom other, rest)
          | inr base ↦ rw base rest
        ]
  ]

  some_custom :
      (rows : List ConfigRow) (id : ℤ)
      → user_config_id u kind rows ≡ some id
      → (r : ConfigRow) × In r (select (custom_of kind) rows) × (owner r.user_id ≡ u)
  unfolding user_config_id select
  some_custom [] id h = cc
  some_custom (r ∷ rs) id h = elim (Bool-cases (is_custom u kind r)) [
    | inl is ↦
        let (custom, own) = this_user r.user_id u (r.kind == kind) is in
        (r, rw custom (inl refl), own)
    | inr other ↦
        let (x, i, own) = some_custom rs id (rw other at h) in
        (
          x,
          elim (Bool-cases (custom_of kind r)) [
            | inl custom ↦ rw custom (inr i)
            | inr base ↦ rw base i
          ],
          own,
        )
  ]

is_in-In : (ids : List ℤ) (id : ℤ) → In id ids → is_in ids id ≡ true
unfolding is_in
is_in-In [] id h = absurd h
is_in-In (i ∷ is) id (inl e) = rw ((int_eqb_iff i id).1 e)
is_in-In (i ∷ is) id (inr h) = ground (arith, is_in-In is id h)

is_in-out :
    (rows : List ConfigRow) (u : ℤ)
    → All (λ r. owner r.user_id ≢ u) rows
    → is_in (map (λ r. owner r.user_id) rows) u ≡ false
unfolding is_in
is_in-out [] u h = refl
is_in-out (r ∷ rs) u h = elim (Bool-cases (owner r.user_id == u)) [
  | inl is ↦ absurd (h.0 ((int_eqb_iff (owner r.user_id) u).0 is))
  | inr other ↦ rw other (is_in-out rs u h.1)
]

-- The set of customUsers has a user just when UserConfigID finds a config.
pub custom_in :
    (u : ℤ) (kind : String) (rows : List ConfigRow) (id : ℤ)
    → user_config_id u kind rows ≡ some id
    → is_in (user_config_user_ids kind rows) u ≡ true
unfolding user_config_user_ids
custom_in u kind rows id h =
    let (r, i, own) = some_custom u kind rows id h in
    is_in-In (user_config_user_ids kind rows) u (
      subst (λ x. In x (user_config_user_ids kind rows)) own
        (In-map (λ r. owner r.user_id) r (order_by by_owner (select (custom_of kind) rows))
          (In-order_by by_owner r (select (custom_of kind) rows) i)))

pub custom_out :
    (u : ℤ) (kind : String) (rows : List ConfigRow)
    → user_config_id u kind rows ≡ none
    → is_in (user_config_user_ids kind rows) u ≡ false
unfolding user_config_user_ids
custom_out u kind rows h = is_in-out (order_by by_owner (select (custom_of kind) rows)) u (
    All-order_by by_owner (λ r. owner r.user_id ≢ u) (select (custom_of kind) rows)
      (no_custom u kind rows h))
