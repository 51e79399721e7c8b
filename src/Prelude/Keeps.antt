-- ===== src/Prelude/Keeps.antt =====
-- A logic for methods that change a state and may return an error: what they keep of the state, and
-- what holds of the results that they return.
use mathlib.Core.Path.{◌≡◌, refl, subst}
use mathlib.Core.Bool.{Bool, true, false}
use renku_gateway.Prelude.Tests.{if◌then◌else◌}
use renku_gateway.Prelude.Effects.{
  Result, ok, err, Error, Exec, pure, raise, lift, attempt, continue, ◌>>=◌,
}

pub record Keeps {S A : Type 0} (I : S → Type 0) (m : Exec S A) (Q : A → Type 0) : Type 0 where
  pub after : (s : S) → I s → I (m s).1
  pub returns : (s : S) (a : A) → I s → (m s).0 ≡ ok a → Q a

abbrev pub Any : {A : Type 0} → A → Type 0
Any a = Unit {0}

-- What an operation gives where it is tried: the result of one that succeeds meets `Q`.
abbrev pub Tried : {A : Type 0} → (A → Type 0) → Result A → Type 0
Tried {A} Q r = (a : A) → r ≡ ok a → Q a

module _ {S : Type 0} (I : S → Type 0) where
  continue-state :
      {A C : Type 0} (r : Result A) (f : A → Exec S C) (s : S)
      → I s
      → ((a : A) → r ≡ ok a → I (f a s).1)
      → I (continue r f s).1
  continue-state (ok a) f s k h = h a refl
  continue-state (err e) f s k h = k

  continue-returns :
      {A C : Type 0} (R : C → Type 0) (r : Result A) (f : A → Exec S C) (s : S) (x : C)
      → ((a : A) → r ≡ ok a → (f a s).0 ≡ ok x → R x)
      → (continue r f s).0 ≡ ok x
      → R x
  continue-returns R (ok a) f s x h e = h a refl e
  continue-returns R (err e) f s x h r = cc

  pub chain :
      {A C : Type 0} {Q : A → Type 0} {R : C → Type 0} (m : Exec S A) (f : A → Exec S C)
      → Keeps I m Q
      → ((a : A) → Q a → Keeps I (f a) R)
      → Keeps I (m >>= f) R
  chain {R = R} m f first rest = record {
    after = λ s k.
        continue-state (m s).0 f (m s).1 (first.after s k)
          λ a e. (rest a (first.returns s a k e)).after (m s).1 (first.after s k);
    returns = λ s x k.
        continue-returns R (m s).0 f (m s).1 x
          λ a e. (rest a (first.returns s a k e)).returns (m s).1 x (first.after s k);
  }

  pub return : {A : Type 0} {Q : A → Type 0} (a : A) → Q a → Keeps I (pure a) Q
  return {Q = Q} a q = record {
    after = λ s k. k;
    returns = λ s x k e. let same : a ≡ x = cc e in subst Q same q;
  }

  pub fail : {A : Type 0} {Q : A → Type 0} (e : Error) → Keeps I (raise {A = A} e) Q
  fail e = record { after = λ s k. k; returns = λ s x k r. cc }

  pub either :
      {A : Type 0} {Q : A → Type 0} (b : Bool) (m n : Exec S A)
      → Keeps I m Q
      → Keeps I n Q
      → Keeps I (if b then m else n) Q
  either true m n e f = e
  either false m n e f = f

  -- The same where a branch needs its test.
  pub either_by :
      {A : Type 0} {Q : A → Type 0} (b : Bool) (m n : Exec S A)
      → (b ≡ true → Keeps I m Q)
      → (b ≡ false → Keeps I n Q)
      → Keeps I (if b then m else n) Q
  either_by true m n e f = e refl
  either_by false m n e f = f refl

  pub tried :
      {A : Type 0} {Q : A → Type 0} (m : Exec S A) → Keeps I m Q → Keeps I (attempt m) (Tried Q)
  tried m e = record {
    after = λ s k. e.after s k;
    returns = λ s r k same a is_ok. e.returns s a k (cc (same, is_ok));
  }

  pub lifted : {A : Type 0} {Q : A → Type 0} (r : Result A) → Tried Q r → Keeps I (lift r) Q
  lifted r q = record { after = λ s k. k; returns = λ s a k e. q a e }
