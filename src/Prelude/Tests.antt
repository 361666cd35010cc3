-- ===== src/Prelude/Tests.antt =====
-- Boolean tests on native numbers, decidable equality as an instance, and results of fallible code.
use Prim.Native.Nat.{ℕ, compare, Ordering}
use Prim.Native.String.{String}
use mathlib.Core.Path.{◌≡◌, refl}
use mathlib.Core.Logic.{◌↔◌, ◌⊎◌, inl, inr}
use mathlib.Core.Bool.{Bool, true, false, ◌||◌}
use mathlib.Core.Option.{Option, none, some}
use native.Mathlib.Omega.{arith}
use text.Mathlib.Text.{◌==◌ as str_eq}
use text.Mathlib.TextEquality.{eq_iff}

abbrev pub ltb : ℕ → ℕ → Bool
ltb a b = elim (compare a b) [ Ordering.lt ↦ true | _ ↦ false ]

abbrev pub leb : ℕ → ℕ → Bool
leb a b = elim (compare a b) [ Ordering.gt ↦ false | _ ↦ true ]

abbrev pub nat_eqb : ℕ → ℕ → Bool
nat_eqb a b = elim (compare a b) [ Ordering.eq ↦ true | _ ↦ false ]

pub nat_eqb_iff : (a b : ℕ) → (nat_eqb a b ≡ true) ↔ (a ≡ b)
nat_eqb_iff a b = ground arith

infix 1 if◌then◌else◌
abbrev pub if◌then◌else◌ {ℓ} : {A : Type ℓ} → Bool → A → A → A
if true then x else y = x
if false then x else y = y

-- A type whose values Go compares with `==`.
pub record Eq {ℓ} (K : Type ℓ) : Type ℓ where
  pub eqb : K → K → Bool
  pub eqb_iff : (j k : K) → (eqb j k ≡ true) ↔ (j ≡ k)

instance abbrev pub string_eq : Eq String
string_eq = record { eqb_iff = eq_iff; eqb = str_eq }

instance abbrev pub nat_eq : Eq ℕ
nat_eq = record { eqb_iff = nat_eqb_iff; eqb = nat_eqb }

infix 50 ◌==◌
abbrev pub ◌==◌ {ℓ} : {K : Type ℓ} ⦃keys : Eq K⦄ → K → K → Bool
◌==◌ ⦃keys⦄ j k = keys.eqb j k

-- To split on a computed value and keep the equation.
pub Bool-cases : (b : Bool) → (b ≡ true) ⊎ (b ≡ false)
Bool-cases true = inl refl
Bool-cases false = inr refl

pub Option-cases {ℓ} : {A : Type ℓ} (o : Option A) → (o ≡ none) ⊎ ((a : A) × (o ≡ some a))
Option-cases none = inl refl
Option-cases (some a) = inr (a, refl)

-- A Go function that returns a value and an `error`: the value, or the error that is not nil.
pub data Result {ℓ κ} (E : Type ℓ) (A : Type κ) : Type (ℓ ⊔ κ) where
  ok : A → Result E A
  err : E → Result E A

-- `err` is returned at once: `m >>= f` goes on with the value of `m`, and `m >> k` without it.
infixl 5 ◌>>◌ ◌>>=◌
abbrev pub ◌>>◌ {ℓ κ} : {E : Type ℓ} {B : Type κ} → Result E (Unit {0}) → Result E B → Result E B
err e >> k = err e
ok u >> k = k

abbrev pub ◌>>=◌ {ℓ κ μ} :
    {E : Type ℓ} {A : Type κ} {B : Type μ} → Result E A → (A → Result E B) → Result E B
err e >>= f = err e
ok a >>= f = f a

-- `if b { return err }`, and otherwise go on.
abbrev pub reject_if {ℓ} : {E : Type ℓ} → Bool → E → Result E (Unit {0})
reject_if true e = err e
reject_if false e = ok tt

-- A sequence of checks passes when each of them does.
pub >>-eq-ok {ℓ} :
    {E : Type ℓ} (m k : Result E (Unit {0})) → ((m >> k) ≡ ok tt) ↔ ((m ≡ ok tt) × (k ≡ ok tt))
>>-eq-ok (ok tt) k = ((λ h. (refl, h)), (λ h. h.1))
>>-eq-ok (err e) k = ((λ h. cc), (λ h. cc (h.0)))

-- A sequence that succeeds has run its parts.
pub >>=-eq-ok {ℓ κ μ} :
    {E : Type ℓ} {A : Type κ} {B : Type μ} (m : Result E A) (f : A → Result E B) (b : B)
    → (m >>= f) ≡ ok b
    → (a : A) × (m ≡ ok a) × (f a ≡ ok b)
>>=-eq-ok (ok a) f b h = (a, refl, h)
>>=-eq-ok (err e) f b h = cc

pub reject-eq-ok {ℓ κ} :
    {E : Type ℓ} {B : Type κ} (b : Bool) (e : E) (m : Result E B) (a : B)
    → (reject_if b e >> m) ≡ ok a
    → (b ≡ false) × (m ≡ ok a)
reject-eq-ok true e m a h = cc
reject-eq-ok false e m a h = (refl, h)

-- What a test decides, for the connectives and for a check that rejects by the test.
pub ||_iff :
    {P Q : Type 0} (a b : Bool) → (a ≡ true) ↔ P → (b ≡ true) ↔ Q → ((a || b) ≡ true) ↔ (P ⊎ Q)
||_iff true b p q = ((λ h. inl (p.0 refl)), (λ h. refl))
||_iff false b p q = ((λ h. inr (q.0 h)), (λ h. elim h [ inl x ↦ cc (p.1 x) | inr y ↦ q.1 y ]))

pub reject_iff {ℓ} :
    {E : Type ℓ} {P : Type 0} (b : Bool) (e : E) → (b ≡ true) ↔ P → (reject_if b e ≡ ok tt) ↔ (¬ P)
reject_iff true e p = ((λ h. cc), (λ h. absurd (h (p.0 refl))))
reject_iff false e p = ((λ h x. cc (p.1 x)), (λ h. refl))
