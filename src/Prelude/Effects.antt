-- ===== src/Prelude/Effects.antt =====
-- Errors (gwerrors/errors.go), and methods that change a state and may return an error.
use mathlib.Core.Path.{◌≡◌, refl, ap}
use mathlib.Core.Logic.{◌⊎◌, inl, inr}
use mathlib.Core.Bool.{Bool, true, false}
use Prim.Native.String.{String}

-- The sentinel errors of gwerrors/errors.go, `redis.Nil`, `http.ErrNoCookie`, and any other error
-- by its text: the constant part of the source's message, or what an external package returns.
pub data Error : Type 0 where
  session_parse session_not_found session_expired : Error
  token_parse token_not_found token_expired token_type : Error
  not_found missing_credentials missing_db_resource unsupported_cli : Error
  redis_nil no_cookie : Error
  other : String → Error

pub data Result {ℓ} (A : Type ℓ) : Type ℓ where
  ok : A → Result A
  err : Error → Result A

-- What was written before an error stays written, so the state comes back beside it.
abbrev pub Exec {ℓ} : Type ℓ → Type ℓ → Type ℓ
Exec S A = S → Result A × S

module _ {ℓ} {S A : Type ℓ} where
  abbrev pub pure : A → Exec S A
  pure a s = (ok a, s)

  abbrev pub raise : Error → Exec S A
  raise e s = (err e, s)

  abbrev pub lift : Result A → Exec S A
  lift r s = (r, s)

  abbrev pub gets : (S → A) → Exec S A
  gets f s = (ok (f s), s)

  -- `v, err := m()` where the code goes on after an error
  abbrev pub attempt : Exec S A → Exec S (Result A)
  attempt m s = let (r, s') = m s in (ok r, s')

module _ {ℓ} {S A B : Type ℓ} where
  abbrev pub continue : Result A → (A → Exec S B) → Exec S B
  continue (ok a) f s = f a s
  continue (err e) f s = (err e, s)

  infixl 10 ◌>>=◌ ◌>>◌
  abbrev pub ◌>>=◌ : Exec S A → (A → Exec S B) → Exec S B
  ◌>>=◌ step rest before = let (result, after) = step before in continue result rest after

  abbrev pub ◌>>◌ : Exec S A → Exec S B → Exec S B
  ◌>>◌ step rest = step >>= λ _. rest

-- Inversion of a successful `do` step.
module _ {ℓ} {S A B : Type ℓ} where
  continue-eq-ok :
      (r : Result A) (f : A → Exec S B) (t : S) {b : B} {s' : S}
      → continue r f t ≡ (ok b, s')
      → (a : A) × (r ≡ ok a) × (f a t ≡ (ok b, s'))
  continue-eq-ok (ok a) f t h = (a, refl, h)
  continue-eq-ok (err e) f t h = cc

  pub >>=-eq-ok :
      (m : Exec S A) (f : A → Exec S B) (s : S) {b : B} {s' : S}
      → (m >>= f) s ≡ (ok b, s')
      → (a : A) × (t : S) × (m s ≡ (ok a, t)) × (f a t ≡ (ok b, s'))
  >>=-eq-ok m f s h =
      let (a, p, q) = continue-eq-ok (m s).0 f (m s).1 h in
      (a, (m s).1, ap (λ r. (r, (m s).1)) p, q)

-- What holds of the state after each of two steps holds after both, with or without an error.
module _ {ℓ} {S A B : Type ℓ} (P : S → Type 0) where
  continue-state :
      (r : Result A) (f : A → Exec S B) (t : S)
      → P t
      → ((a : A) → P (f a t).1)
      → P (continue r f t).1
  continue-state (ok a) f t here after = after a
  continue-state (err e) f t here after = here

  pub >>=-state :
      (m : Exec S A) (f : A → Exec S B) (s : S)
      → P (m s).1
      → ((a : A) → P (f a (m s).1).1)
      → P ((m >>= f) s).1
  >>=-state m f s here after = continue-state (m s).0 f (m s).1 here after

abbrev pub modify {ℓ} : {S : Type ℓ} → (S → S) → S → Result (Unit {0}) × S
modify f s = (ok tt, f s)

abbrev pub is_ok {ℓ} : {A : Type ℓ} → Result A → Bool
is_ok (ok a) = true
is_ok (err e) = false

-- errors.Is(err, gwerrors.ErrTokenNotFound)
abbrev pub is_token_not_found : Error → Bool
is_token_not_found token_not_found = true
is_token_not_found _ = false

-- errors.Is(err, gwerrors.ErrMissingDBResource)
abbrev pub is_missing_db_resource : Error → Bool
is_missing_db_resource missing_db_resource = true
is_missing_db_resource _ = false

-- errors.Is(err, redis.Nil)
abbrev pub is_redis_nil : Error → Bool
is_redis_nil redis_nil = true
is_redis_nil _ = false

abbrev pub and_then {ℓ κ} : {A : Type ℓ} {B : Type κ} → Result A → (A → Result B) → Result B
and_then (ok a) f = f a
and_then (err e) f = err e

-- To split on a computed result and keep the equation.
pub Result-cases {ℓ} :
    {A : Type ℓ} (r : Result A) → ((a : A) × (r ≡ ok a)) ⊎ ((e : Error) × (r ≡ err e))
Result-cases (ok a) = inl (a, refl)
Result-cases (err e) = inr (e, refl)
