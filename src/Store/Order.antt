-- ===== src/Store/Order.antt =====
-- ORDER BY and WHERE: a sorted table stays as it is, and a selection can be made before the sorting.
use subgen.Prelude.{
  Bool, true, false, List, [], ◌∷◌, ◌++◌, ◌≡◌, refl, sym, ap, inl, inr, Bool-cases, if◌then◌else◌,
  suc, ◌∙◌,
}
use subgen.Prelude.Lists.{All, length}
use subgen.Store.Tables.{select, place, order_by}

module _ {A : Type 0} where
  pub All-select : (P : A → Type 0) (t : A → Bool) (xs : List A) → All P xs → All P (select t xs)
  unfolding select
  All-select P t [] h = tt
  All-select P t (x ∷ xs) h = elim (Bool-cases (t x)) [
    | inl hit ↦ rw hit (h.0, All-select P t xs h.1)
    | inr miss ↦ rw miss (All-select P t xs h.1)
  ]

  -- What is selected passes the test.
  pub All-selected :
      (P : A → Type 0) (t : A → Bool) (xs : List A)
      → All P xs
      → All (λ x. (t x ≡ true) × P x) (select t xs)
  unfolding select
  All-selected P t [] h = tt
  All-selected P t (x ∷ xs) h = elim (Bool-cases (t x)) [
    | inl hit ↦ rw hit ((hit, h.0), All-selected P t xs h.1)
    | inr miss ↦ rw miss (All-selected P t xs h.1)
  ]

  pub select-append :
      (t : A → Bool) (xs ys : List A) → select t (xs ++ ys) ≡ select t xs ++ select t ys
  unfolding select
  select-append t [] ys = refl
  select-append t (x ∷ xs) ys = elim (Bool-cases (t x)) [
    | inl hit ↦ rw hit (ap (λ zs. x ∷ zs) (select-append t xs ys))
    | inr miss ↦ rw miss (select-append t xs ys)
  ]

  pub select-All : (t : A → Bool) (xs : List A) → All (λ x. t x ≡ true) xs → select t xs ≡ xs
  unfolding select
  select-All t [] h = refl
  select-All t (x ∷ xs) h = rw (h.0) (ap (λ zs. x ∷ zs) (select-All t xs h.1))

  pub select_no : (t : A → Bool) (xs : List A) → All (λ x. t x ≡ false) xs → select t xs ≡ []
  unfolding select
  select_no t [] h = refl
  select_no t (x ∷ xs) h = rw (h.0) (select_no t xs h.1)

  -- No row of the first test passes the second: they select the same after it.
  pub select-select :
      (s t : A → Bool) (xs : List A)
      → ((x : A) → t x ≡ true → s x ≡ true)
      → select t (select s xs) ≡ select t xs
  unfolding select
  select-select s t [] h = refl
  select-select s t (x ∷ xs) h = elim (Bool-cases (s x)) [
    | inl hit ↦ rw hit elim (Bool-cases (t x)) [
      | inl also ↦ rw also (ap (λ zs. x ∷ zs) (select-select s t xs h))
      | inr miss ↦ rw miss (select-select s t xs h)
    ]
    | inr miss ↦ elim (Bool-cases (t x)) [
      | inl also ↦ let hit = h x also in absurd cc
      | inr fails ↦ rw (miss, fails) (select-select s t xs h)
    ]
  ]

module _ {A : Type 0} (le : A → A → Bool) where
  unfoldable pub Sorted : List A → Type 0
  Sorted [] = Unit
  Sorted (x ∷ xs) = All (λ y. le x y ≡ true) xs × Sorted xs

  place_first : (x : A) (xs : List A) → All (λ y. le x y ≡ true) xs → place le x xs ≡ x ∷ xs
  unfolding place
  place_first x [] h = refl
  place_first x (y ∷ ys) h = rw (h.0) refl

  pub order_by-Sorted : (xs : List A) → Sorted xs → order_by le xs ≡ xs
  unfolding order_by Sorted
  order_by-Sorted [] h = refl
  order_by-Sorted (x ∷ xs) h = rw (order_by-Sorted xs h.1) (place_first x xs h.0)

  length-place : (x : A) (xs : List A) → length (place le x xs) ≡ suc (length xs)
  unfolding place
  length-place x [] = refl
  length-place x (y ∷ ys) = elim (Bool-cases (le x y)) [
    | inl hit ↦ rw hit refl
    | inr miss ↦ rw miss (ap suc (length-place x ys))
  ]

  All-place : (P : A → Type 0) (x : A) (xs : List A) → P x → All P xs → All P (place le x xs)
  unfolding place
  All-place P x [] p h = (p, tt)
  All-place P x (y ∷ ys) p h = elim (Bool-cases (le x y)) [
    | inl hit ↦ rw hit (p, h)
    | inr miss ↦ rw miss (h.0, All-place P x ys p h.1)
  ]

  pub All-order_by : (P : A → Type 0) (xs : List A) → All P xs → All P (order_by le xs)
  unfolding order_by
  All-order_by P [] h = tt
  All-order_by P (x ∷ xs) h = All-place P x (order_by le xs) h.0 (All-order_by P xs h.1)

  module _ (total : (a b : A) → le a b ≡ false → le b a ≡ true)
      (trans : (a b c : A) → le a b ≡ true → le b c ≡ true → le a c ≡ true) where
    above :
        (a b : A) (xs : List A)
        → le a b ≡ true
        → All (λ y. le b y ≡ true) xs
        → All (λ y. le a y ≡ true) xs
    above a b [] e h = tt
    above a b (x ∷ xs) e h = (trans a b x e h.0, above a b xs e h.1)

    place-Sorted : (x : A) (xs : List A) → Sorted xs → Sorted (place le x xs)
    unfolding place Sorted
    place-Sorted x [] h = (tt, tt)
    place-Sorted x (y ∷ ys) h = elim (Bool-cases (le x y)) [
      | inl hit ↦ rw hit ((hit, above x y ys hit h.0), h)
      | inr miss ↦
          rw miss (All-place (λ z. le y z ≡ true) x ys (total x y miss) h.0, place-Sorted x ys h.1)
    ]

    pub sorted : (xs : List A) → Sorted (order_by le xs)
    unfolding order_by Sorted
    sorted [] = tt
    sorted (x ∷ xs) = place-Sorted x (order_by le xs) (sorted xs)

    select-place :
        (t : A → Bool) (x : A) (xs : List A)
        → Sorted xs
        → select t (place le x xs) ≡ (if t x then place le x (select t xs) else select t xs)
    unfolding select place Sorted
    select-place t x [] h = elim (Bool-cases (t x)) [
      | inl hit ↦ rw hit refl
      | inr miss ↦ rw miss refl
    ]
    select-place t x (y ∷ ys) h = elim (Bool-cases (le x y)) [
      | inl first ↦ rw first elim (Bool-cases (t x)) [
        | inl hit ↦ rw hit (
            sym (
              place_first x (select t (y ∷ ys))
                (All-select (λ z. le x z ≡ true) t (y ∷ ys) (first, above x y ys first h.0))))
        | inr miss ↦ rw miss refl
      ]
      | inr later ↦
          let rest = select-place t x ys h.1 in
          elim (Bool-cases (t y)) [
            | inl kept ↦
                rw (later, kept, rest)
                  elim (Bool-cases (t x)) [
                    | inl hit ↦ rw (hit, later) refl
                    | inr miss ↦ rw miss refl
                  ]
            | inr passed ↦ rw (later, passed) rest
          ]
    ]

    pub select-order_by :
        (t : A → Bool) (xs : List A) → select t (order_by le xs) ≡ order_by le (select t xs)
    unfolding select order_by
    select-order_by t [] = refl
    select-order_by t (x ∷ xs) = elim (Bool-cases (t x)) [
      | inl hit ↦ rw (select-place t x (order_by le xs) (sorted xs), hit, select-order_by t xs) refl
      | inr miss ↦ rw (select-place t x (order_by le xs) (sorted xs), miss) (select-order_by t xs)
    ]

  pub length-order_by : (xs : List A) → length (order_by le xs) ≡ length xs
  unfolding order_by
  length-order_by [] = refl
  length-order_by (x ∷ xs) = length-place x (order_by le xs) ∙ ap suc (length-order_by xs)
