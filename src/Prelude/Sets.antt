-- ===== src/Prelude/Sets.antt =====
-- `BTreeSet<u64>`: an ascending list with no repetition.
use Prim.Native.Nat.{ℕ}
use mathlib.Core.Path.{◌≡◌, refl}
use mathlib.Core.Bool.{Bool, false, ◌&&◌, ◌||◌}
use mathlib.Core.List.{List, [], ◌∷◌}
use native.Mathlib.Omega.{arith}
use sahya_net.Prelude.Tests.{ltb, ◌==◌, if◌then◌else◌}

unfoldable pub contains : List ℕ → ℕ → Bool
contains [] n = false
contains (m ∷ s) n = (m == n) || contains s n

unfoldable pub insert : ℕ → List ℕ → List ℕ
insert n [] = n ∷ []
insert n (m ∷ s) =
    let rest = insert n s in if ltb n m then n ∷ m ∷ s else if n == m then m ∷ s else m ∷ rest

-- What `retain` keeps.
unfoldable pub retain : (ℕ → Bool) → List ℕ → List ℕ
retain p [] = []
retain p (m ∷ s) = let rest = retain p s in if p m then m ∷ rest else rest

pub contains-insert : (n m : ℕ) (s : List ℕ) → contains (insert n s) m ≡ ((n == m) || contains s m)
unfolding contains insert
contains-insert n m [] = ground arith
contains-insert n m (k ∷ s) = ground (arith, contains-insert n m s)

pub contains-retain :
    (p : ℕ → Bool) (s : List ℕ) (n : ℕ) → contains (retain p s) n ≡ (contains s n && p n)
unfolding contains retain
contains-retain p [] n = refl
contains-retain p (m ∷ s) n = ground (arith, contains-retain p s n)
