-- ===== src/Prelude/Outcome.antt =====
-- What a call of the program does: return, leave the process by `exit`, fail an `assert`,
-- have undefined behaviour, or run for ever.
use mathlib.Core.Path.{◌≡◌, refl}
use mathlib.Core.Bool.{Bool, true, false}

pub data Fault : Type 0 where
  exits asserts undefined diverges : Fault

pub data Run {ℓ} (T : Type ℓ) : Type ℓ where
  fault : Fault → Run T
  ok : T → Run T

-- `assert(b)`, and the tests that end in `exit`.
abbrev pub guard : Bool → Fault → Run (Unit {0})
guard false why = fault why
guard true why = ok tt

module _ {ℓ} {T : Type ℓ} where
  -- Total correctness: the call returns, and the result meets `P`.
  abbrev pub Returns {κ} : Run T → (T → Type κ) → Type (ℓ ⊔ κ)
  Returns call P = (result : T) × (call ≡ ok result) × P result

  infixl 5 ◌>>=◌ ◌>>◌
  abbrev pub ◌>>=◌ {κ} : {B : Type κ} → Run T → (T → Run B) → Run B
  fault why >>= next = fault why
  ok t >>= next = next t

  abbrev pub ◌>>◌ : Run (Unit {0}) → Run T → Run T
  fault why >> after = fault why
  ok done >> after = after

  pub >>=-eq-ok {κ} :
      {B : Type κ} (call : Run T) (next : T → Run B) {b : B}
      → call >>= next ≡ ok b
      → (t : T) × (call ≡ ok t) × (next t ≡ ok b)
  >>=-eq-ok (fault why) next e = cc
  >>=-eq-ok (ok t) next e = (t, refl, e)

pub >>=-assoc {ℓ κ ι} :
    {T : Type ℓ} {B : Type κ} {C : Type ι} (call : Run T) (next : T → Run B) (last : B → Run C)
    → call >>= (λ t. next t >>= last) ≡ call >>= next >>= last
>>=-assoc (fault why) next last = refl
>>=-assoc (ok t) next last = refl
