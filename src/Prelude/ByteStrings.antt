-- ===== src/Prelude/ByteStrings.antt =====
-- Byte strings: big-endian words of any width, and the equality test of byte strings.
use Prim.Native.Nat.{ℕ, zero, suc, ◌+◌, ◌*◌, ◌/◌, ◌%◌, ◌^◌, ◌<◌}
use mathlib.Core.Path.{◌≡◌, refl, ◌∙◌}
use mathlib.Core.Logic.{◌↔◌}
use mathlib.Core.Bool.{Bool, true, false, ◌&&◌}
use mathlib.Core.List.{List, [], ◌∷◌, ◌++◌}
use native.Mathlib.Omega.{arith}
use native.Mathlib.Nat.{pow-suc}
use sahya_net.Prelude.Tests.{◌==◌}
use sahya_net.Prelude.Lists.{length, length-append}

abbrev pub Bytes : Type 0
Bytes = List ℕ

-- `x.to_be_bytes()` of a word of `w` bytes.
unfoldable pub be_bytes : ℕ → ℕ → Bytes
be_bytes zero n = []
be_bytes (suc w) n = be_bytes w (n / 256) ++ (n % 256) ∷ []

be_fold : ℕ → Bytes → ℕ
be_fold acc [] = acc
be_fold acc (b ∷ ys) = be_fold (acc * 256 + b) ys

-- `from_be_bytes`
unfoldable pub from_be_bytes : Bytes → ℕ
unfolding be_fold
from_be_bytes bs = be_fold 0 bs

be_fold-append :
    (acc : ℕ) (bs : Bytes) (b : ℕ) → be_fold acc (bs ++ b ∷ []) ≡ be_fold acc bs * 256 + b
unfolding be_fold
be_fold-append acc [] b = refl
be_fold-append acc (c ∷ bs) b = be_fold-append (acc * 256 + c) bs b

pub from_be_bytes-be_bytes : (w n : ℕ) → n < 256 ^ w → from_be_bytes (be_bytes w n) ≡ n
unfolding from_be_bytes be_bytes
from_be_bytes-be_bytes zero n h = omega arith
from_be_bytes-be_bytes (suc w) n h =
    be_fold-append 0 (be_bytes w (n / 256)) (n % 256)
    ∙ omega (arith, from_be_bytes-be_bytes w (n / 256) (omega (arith, pow-suc 256 w)))

pub length-be_bytes : (w n : ℕ) → length (be_bytes w n) ≡ w
unfolding be_bytes
length-be_bytes zero n = refl
length-be_bytes (suc w) n =
    omega
      (arith, length-append (be_bytes w (n / 256)) ((n % 256) ∷ []), length-be_bytes w (n / 256))

unfoldable pub bytes_eq : Bytes → Bytes → Bool
bytes_eq [] [] = true
bytes_eq [] (b ∷ ys) = false
bytes_eq (a ∷ xs) [] = false
bytes_eq (a ∷ xs) (b ∷ ys) = (a == b) && bytes_eq xs ys

pub bytes_eq_iff : (xs ys : Bytes) → (bytes_eq xs ys ≡ true) ↔ (xs ≡ ys)
unfolding bytes_eq
bytes_eq_iff [] [] = (λ _. refl, λ _. refl)
bytes_eq_iff [] (b ∷ ys) = (λ h. cc, λ h. cc)
bytes_eq_iff (a ∷ xs) [] = (λ h. cc, λ h. cc)
bytes_eq_iff (a ∷ xs) (b ∷ ys) =
    (λ h. ground (arith, bytes_eq_iff xs ys), λ h. ground (arith, bytes_eq_iff xs ys))

pub bytes_eq_refl : (xs : Bytes) → bytes_eq xs xs ≡ true
bytes_eq_refl xs = (bytes_eq_iff xs xs).1 refl
