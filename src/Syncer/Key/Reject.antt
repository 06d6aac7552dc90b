-- ===== src/Syncer/Key/Reject.antt =====
-- Keys that no node builds. `Read` accepts any 33 bytes, and `to_value` panics on a tag above 2.
use sahya_net.Prelude.{
  ℕ, zero, suc, ◌<◌, ◌≡◌, refl, ◌↔◌, none, some, [], ◌∷◌, Bytes, length, drop, take_all, arith,
  le→leb,
}
use sahya_net.Syncer.Key.{MultiIndex, size, to_value, read_cfg}

-- `to_value` panics on a key exactly when its first byte is above 2.
pub to_value-none_iff : (tag : ℕ) (rest : Bytes) → (to_value (tag ∷ rest) ≡ none) ↔ (2 < tag)
unfolding to_value
to_value-none_iff zero rest = (λ h. cc, λ h. absurd (omega arith))
to_value-none_iff (suc zero) rest = (λ h. cc, λ h. absurd (omega arith))
to_value-none_iff (suc (suc zero)) rest = (λ h. cc, λ h. absurd (omega arith))
to_value-none_iff (suc (suc (suc n))) rest = (λ h. omega arith, λ h. refl)

drop_all : (xs : Bytes) (n : ℕ) → length xs ≡ n → drop n xs ≡ []
drop_all [] zero h = refl
drop_all [] (suc n) h = refl
drop_all (x ∷ xs) zero h = absurd (omega arith)
drop_all (x ∷ xs) (suc n) h = drop_all xs n (omega arith)

-- Any 33 bytes from a peer that begin with a tag above 2 are accepted by `Read`, and the decoding of
-- the key that they give panics.
pub read_cfg-to_value_panics :
    (tag : ℕ) (rest : Bytes)
    → length rest ≡ 32
    → 2 < tag
    → (k : MultiIndex) × (read_cfg (tag ∷ rest) ≡ some (k, [])) × (to_value k ≡ none)
unfolding read_cfg
read_cfg-to_value_panics tag rest h t = (
  tag ∷ rest,
  rw (le→leb size (suc (length rest)) (omega arith))
      (rw (take_all (tag ∷ rest) size (omega arith), drop_all (tag ∷ rest) size (omega arith))),
  (to_value-none_iff tag rest).1 t,
)
