-- ===== src/Types/Reading.antt =====
-- What a `Read` implementation does with a buffer (`bytes::Buf`): it returns a value and leaves the
-- rest of the buffer, it returns an error, or it panics.
use sahya_net.Prelude.{Bytes, ◌≡◌, Option, none, some}

pub data Reading {ℓ} (A : Type ℓ) : Type ℓ where
  done : A → Bytes → Reading A
  invalid : Reading A
  panic : Reading A

-- `?` on a result, and the fall of a panic through the caller.
abbrev pub then_read {ℓ κ} :
    {A : Type ℓ} {B : Type κ} → Reading A → (A → Bytes → Reading B) → Reading B
then_read (done a rest) f = f a rest
then_read invalid f = invalid
then_read panic f = panic

-- An optional value of a library's reader, which does not panic.
abbrev pub of_option {ℓ} : {A : Type ℓ} → Option (A × Bytes) → Reading A
of_option none = invalid
of_option (some (a, rest)) = done a rest

pub then_read-eq-done {ℓ κ} :
    {A : Type ℓ} {B : Type κ} (r : Reading A) (f : A → Bytes → Reading B) {b : B} {rest : Bytes}
    → then_read r f ≡ done b rest
    → (a : A) × (mid : Bytes) × (r ≡ done a mid) × (f a mid ≡ done b rest)
then_read-eq-done (done a mid) f h = (a, mid, λ _. done a mid, h)
then_read-eq-done invalid f h = cc
then_read-eq-done panic f h = cc
