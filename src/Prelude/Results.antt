-- ===== src/Prelude/Results.antt =====
-- Results with an error value, as Rust's `Result` with `?`.
use mathlib.Core.Path.{◌≡◌, refl}

-- `err` leaves a chain at once.
pub data Result {ℓ} (E A : Type ℓ) : Type ℓ where
  err : (error : E) → Result E A
  ok : (value : A) → Result E A

infixl 5 ◌>>=◌
abbrev pub ◌>>=◌ {ℓ} : {E A B : Type ℓ} → Result E A → (A → Result E B) → Result E B
err error >>= next = err error
ok value >>= next = next value

-- A successful chain has a successful first step.
pub >>=-eq-ok {ℓ} :
    {E A B : Type ℓ} (m : Result E A) (next : A → Result E B) {b : B}
    → (m >>= next) ≡ ok b
    → (a : A) × (m ≡ ok a) × (next a ≡ ok b)
>>=-eq-ok (err error) next h = cc
>>=-eq-ok (ok value) next h = (value, refl, h)
