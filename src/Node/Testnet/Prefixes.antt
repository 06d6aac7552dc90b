-- ===== src/Node/Testnet/Prefixes.antt =====
-- The nodes of a local network have different prefixes for their storage.
use sahya_net.Prelude.{
  ℕ, zero, suc, ◌+◌, ◌/◌, ◌%◌, ◌<◌, ◌≡◌, refl, sym, ap, ◌∙◌, inl, inr, [], ◌∷◌, ◌++◌, Bytes, ltb,
  Bool-cases, ltb→lt, arith,
}
use mathlib.Core.Path.{ap₂}
use sahya_net.Node.Testnet.{digit, text_from, decimal_from, db_prefix_of}
use sahya_net.Node.Testnet.Separate.{decimal_injective}
use text.Mathlib.TextLemmas.{nil-append, cons-append, append_cancel_right}
use Prim.Native.Char.{code}
use Prim.Native.String.{String}
use Prim.Native.String as Text

-- The bytes of a text of digits.
unfoldable bytes_of : String → Bytes
bytes_of String.[] = []
bytes_of (String.◌∷◌ c s) = code c ∷ bytes_of s

bytes_of-append : (s t : String) → bytes_of (Text.◌++◌ s t) ≡ bytes_of s ++ bytes_of t
unfolding bytes_of
bytes_of-append String.[] t = ap bytes_of (nil-append t)
bytes_of-append (String.◌∷◌ c s) t =
    ap bytes_of (cons-append c s t) ∙ ap (λ l. code c ∷ l) (bytes_of-append s t)

code-digit : (n : ℕ) → n < 10 → code (digit n) ≡ 48 + n
unfolding digit
code-digit zero h = refl
code-digit (suc zero) h = refl
code-digit (suc (suc zero)) h = refl
code-digit (suc (suc (suc zero))) h = refl
code-digit (suc (suc (suc (suc zero)))) h = refl
code-digit (suc (suc (suc (suc (suc zero))))) h = refl
code-digit (suc (suc (suc (suc (suc (suc zero)))))) h = refl
code-digit (suc (suc (suc (suc (suc (suc (suc zero))))))) h = refl
code-digit (suc (suc (suc (suc (suc (suc (suc (suc zero)))))))) h = refl
code-digit (suc (suc (suc (suc (suc (suc (suc (suc (suc zero))))))))) h = refl
code-digit (suc (suc (suc (suc (suc (suc (suc (suc (suc (suc n)))))))))) h = absurd (omega arith)

-- The two ways to print a number agree.
bytes_of-text_from : (left n : ℕ) → bytes_of (text_from left n) ≡ decimal_from left n
unfolding bytes_of text_from decimal_from
bytes_of-text_from zero n = refl
bytes_of-text_from (suc left) n = elim (Bool-cases (ltb n 10)) [
  | inl small ↦ rw small (ap (λ c. c ∷ []) (code-digit n (ltb→lt n 10 small)))
  | inr large ↦ rw large (
      bytes_of-append (text_from left (n / 10)) (String.◌∷◌ (digit (n % 10)) "")
      ∙ ap₂ (λ l c. l ++ c ∷ []) (bytes_of-text_from left (n / 10))
          (code-digit (n % 10) (omega arith)))
]

pub db_prefix_of-injective : (n m : ℕ) → db_prefix_of n ≡ db_prefix_of m → n ≡ m
unfolding db_prefix_of
db_prefix_of-injective n m h =
    let same = append_cancel_right (text_from (suc n) n) (text_from (suc m) m) "-quarts" h in
    decimal_injective n m
      (sym (bytes_of-text_from (suc n) n) ∙ ap bytes_of same ∙ bytes_of-text_from (suc m) m)
