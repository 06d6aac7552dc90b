-- ===== src/Syncer/Key/Tests.antt =====
-- Runs of syncer/src/key.rs at concrete keys.
use sahya_net.Prelude.{◌≡◌, refl, some, [], ◌∷◌, ◌++◌, be_bytes, from_be_bytes, replicate}
use sahya_net.Syncer.Key.{notarized, finalized, new, to_value}

height_key : new (finalized 258) ≡ 1 ∷ (0 ∷ 0 ∷ 0 ∷ 0 ∷ 0 ∷ 0 ∷ 1 ∷ 2 ∷ []) ++ replicate 24 0
unfolding new be_bytes
height_key = refl

value_of_view_key : to_value (new (notarized 258)) ≡ some (notarized 258)
unfolding new be_bytes to_value from_be_bytes
value_of_view_key = refl
