-- ===== src/Provision/Keeps.antt =====
-- What the calls of an action satisfy, part by part.
use subgen.Prelude.Lists.{All}
use subgen.Prelude.{Bool, true, false, Result, ok, err, if◌then◌else◌, ◌≡◌, refl}
use subgen.Provision.Act.{
  State, Act, Call, Error, pure, lift, attempt, silently, random, recorded, continue, ◌>>=◌,
}

module _ (P : Call → Type 0) where
  -- Every call that the action adds satisfies P.
  unfoldable pub Keeps : {W A : Type 0} → Act W A → Type 0
  Keeps {W = W} m = (s : State W) → All P s.calls → All P ((m s).1).calls

  pub Keeps-pure : (W : Type 0) {A : Type 0} (a : A) → Keeps (pure {W = W} a)
  unfolding Keeps pure
  Keeps-pure W a s h = h

  pub Keeps-lift : (W : Type 0) {A : Type 0} (r : Result Error A) → Keeps (lift {W = W} r)
  unfolding Keeps lift
  Keeps-lift W r s h = h

  pub Keeps-attempt : {W A : Type 0} (m : Act W A) → Keeps m → Keeps (attempt m)
  unfolding Keeps attempt
  Keeps-attempt m k s h = k s h

  pub Keeps-silently : {W A : Type 0} (run : W → Result Error A × W) → Keeps (silently run)
  unfolding Keeps silently
  Keeps-silently run s h = h

  pub Keeps-random : {W A : Type 0} (run : W → A × W) → Keeps (random run)
  unfolding Keeps random
  Keeps-random run s h = h

  pub Keeps-recorded :
      {W A : Type 0} (c : Call) (run : W → Result Error A × W) → P c → Keeps (recorded c run)
  unfolding Keeps recorded
  Keeps-recorded c run p s h = (p, h)

  pub Keeps-continue :
      {W A B : Type 0} (r : Result Error A × State W) (f : A → Act W B)
      → ((a : A) → Keeps (f a))
      → All P (r.1).calls
      → All P ((continue r f).1).calls
  unfolding Keeps
  Keeps-continue (ok a, s) f k h = k a s h
  Keeps-continue (err e, s) f k h = h

  pub Keeps-bind :
      {W A B : Type 0} (m : Act W A) (f : A → Act W B)
      → Keeps m
      → ((a : A) → Keeps (f a))
      → Keeps (m >>= f)
  unfolding Keeps ◌>>=◌
  Keeps-bind m f k l s h = Keeps-continue (m s) f l (k s h)

  -- A check, whose outcome the rest may use.
  pub Keeps-check :
      {W A B : Type 0} (r : Result Error A) (f : A → Act W B)
      → ((a : A) → r ≡ ok a → Keeps (f a))
      → Keeps (lift r >>= f)
  unfolding Keeps lift ◌>>=◌
  Keeps-check (ok a) f k s h = k a refl s h
  Keeps-check (err e) f k s h = h

  pub Keeps-if :
      {W A : Type 0} (b : Bool) (m n : Act W A) → Keeps m → Keeps n → Keeps (if b then m else n)
  Keeps-if true m n k l = k
  Keeps-if false m n k l = l
