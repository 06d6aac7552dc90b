-- ===== src/Syncer/Registry/Fresh.antt =====
-- `Registry::new`: the map of the first view gives every participant its index.
use sahya_net.Prelude.{
  ℕ, zero, suc, ◌+◌, ◌%◌, ◌^◌, ◌<◌, ◌≡◌, ◌↔◌, refl, Option, none, some, List, [], ◌∷◌, length,
  get_elem?, if◌then◌else◌, arith,
}
use sahya_net.Prelude.Maps
use sahya_net.Prelude.Maps.{Eq, get-put}
use sahya_net.Syncer.Registry.{enumerate_from, new, latest, peers}
use sahya_net.Syncer.Registry.Index.{IsIndexed}

-- An index that was found behind the first item, or the first item's, if that is what is looked for.
abbrev behind : Option ℕ → Option ℕ → Option ℕ
behind none first = first
behind (some j) first = some (suc j)

abbrev shifted : ℕ → Option ℕ → Option ℕ → Option ℕ
shifted i none other = other
shifted i (some j) other = some (i + j)

module _ {K : Type 0} (e : Eq K) where
  -- Where an item stands last.
  unfoldable pub last_index : K → List K → Option ℕ
  last_index k [] = none
  last_index k (x ∷ l) = behind (last_index k l) (if e.eq x k then some 0 else none)

  -- No item stands twice.
  abbrev pub IsDistinct : List K → Type 0
  IsDistinct [] = Unit
  IsDistinct (x ∷ l) = (last_index x l ≡ none) × IsDistinct l

  get-enumerate_from :
      (k : K) (i : ℕ) (l : List K) (m : List (K × ℕ))
      → i + length l < 2 ^ 32
      → Maps.get e k (enumerate_from e i l m) ≡ shifted i (last_index k l) (Maps.get e k m)
  unfolding enumerate_from last_index
  get-enumerate_from k i [] m h = refl
  get-enumerate_from k i (x ∷ l) m h =
      let low : i % 2 ^ 32 ≡ i = omega arith in
      let below = get-enumerate_from k (suc i) l (Maps.put e x (i % 2 ^ 32) m) (omega arith) in
      let first = get-put e x k (i % 2 ^ 32) m in ground (arith, below, first)

  last_index-IsDistinct :
      (k : K) (j : ℕ) (l : List K)
      → IsDistinct l
      → (last_index k l ≡ some j) ↔ (get_elem? l j ≡ some k)
  unfolding last_index
  last_index-IsDistinct k j [] d = (λ h. cc, λ h. cc)
  last_index-IsDistinct k zero (x ∷ l) d = ground (arith, e.eq_iff x k, d.0)
  last_index-IsDistinct k (suc j) (x ∷ l) d =
      let rest = last_index-IsDistinct k j l d.1 in ground (arith, rest)

  -- If no participant occurs twice and a u32 can count them, the first view of a new registry has the
  -- given participants, and its map gives each its index and knows no other key.
  pub new_lem :
      {P I S : Type 0} (public : P → I) (evaluate_all : P → ℕ → List I) (participants : List K)
      (polynomial : P) (share : S)
      → IsDistinct participants
      → length participants < 2 ^ 32
      → (peers (new e public evaluate_all participants polynomial share) ≡ participants)
        × IsIndexed e (latest (new e public evaluate_all participants polynomial share))
  unfolding new latest peers Maps.get Maps.put Maps.remove
  new_lem public evaluate_all participants polynomial share d room = (
    refl,
    λ k i.
        let got = get-enumerate_from k 0 participants [] (omega arith) in
        let at = last_index-IsDistinct k i participants d in rw got (ground (arith, at)),
  )
