-- ===== src/Node/Storage/Apart.antt =====
-- Two partitions have one name only if they are the same partition of the same prefix.
use sahya_net.Prelude.{
  ℕ, zero, suc, ◌+◌, ◌-◌, ◌≡◌, refl, sym, ap, ◌∙◌, ◌⊎◌, inl, inr, Bool, true, false, not, ◌&&◌,
  ◌||◌, some, List, [], ◌∷◌, map, leb, get_elem?, arith,
}
use sahya_net.Node.Storage.{partitions}
use text.Mathlib.Text.{◌==◌}
use text.Mathlib.TextBridge.{IsSuffix}
use text.Mathlib.TextPositions.{eq_refl, len-append, slice-append_right}
use text.Mathlib.TextLemmas.{nil-append, cons-append, append_cancel_right}
use Prim.Native.String.{String, len, slice, ◌++◌}

-- The first text ends the second.
unfoldable ends : String → String → Bool
ends s t = leb (len s) (len t) && (slice t (len t - len s) (len t) == s)

unfoldable any_ends : String → List String → Bool
unfolding ends
any_ends s [] = false
any_ends s (t ∷ l) = (ends s t || ends t s) || any_ends s l

-- No text of the list ends another one.
unfoldable no_ends : List String → Bool
unfolding any_ends
no_ends [] = true
no_ends (s ∷ l) = not (any_ends s l) && no_ends l

-- Of two texts that end the same text one ends the other.
share_end : (p q s t : String) → p ++ s ≡ q ++ t → IsSuffix s t ⊎ IsSuffix t s
share_end String.[] q s t h = inr (q, sym h ∙ nil-append s)
share_end (String.◌∷◌ c p) String.[] s t h = inl (String.◌∷◌ c p, h ∙ nil-append t)
share_end (String.◌∷◌ c p) (String.◌∷◌ d q) s t h =
    share_end p q s t (let same = sym (cons-append c p s) ∙ h ∙ cons-append d q t in cc)

IsSuffix-ends : (s t : String) → IsSuffix s t → ends s t ≡ true
unfolding ends
IsSuffix-ends s t (u, h) =
    let fits : leb (len s) (len u + len s) ≡ true = ground arith in
    let start : len u + len s - len s ≡ len u = omega arith in
    rw (← h, len-append u s, fits, start, slice-append_right u s) (eq_refl s)

-- A text of the list that ends another or is ended by it is found.
any_ends-finds :
    (l : List String) (j : ℕ) (s t : String)
    → get_elem? l j ≡ some t
    → IsSuffix s t ⊎ IsSuffix t s
    → any_ends s l ≡ true
unfolding any_ends
any_ends-finds [] j s t at h = absurd cc
any_ends-finds (r ∷ l) zero s t at h =
    let same : r ≡ t = cc in
    rw same (elim h [
      | inl e ↦ rw (IsSuffix-ends s t e) refl
      | inr e ↦ let found = IsSuffix-ends t s e in ground arith
    ])
any_ends-finds (r ∷ l) (suc j) s t at h = let found = any_ends-finds l j s t at h in ground arith

any_ends-elsewhere :
    (l : List String) (j : ℕ) (p q s t : String)
    → no_ends (s ∷ l) ≡ true
    → get_elem? l j ≡ some t
    → p ++ s ≡ q ++ t
    → ⊥
unfolding no_ends
any_ends-elsewhere l j p q s t fresh at same =
    let found = any_ends-finds l j s t at (share_end p q s t same) in ground arith

names_apart :
    (l : List String) (p q s t : String) (i j : ℕ)
    → no_ends l ≡ true
    → get_elem? l i ≡ some s
    → get_elem? l j ≡ some t
    → p ++ s ≡ q ++ t
    → (p ≡ q) × (i ≡ j)
names_apart [] p q s t i j fresh at_i at_j same = absurd cc
names_apart (r ∷ l) p q s t zero zero fresh at_i at_j same =
    let one : s ≡ t = cc in (append_cancel_right p q t (rw one at same), refl)
names_apart (r ∷ l) p q s t zero (suc j) fresh at_i at_j same =
    let first : r ≡ s = cc in absurd (any_ends-elsewhere l j p q s t (rw first at fresh) at_j same)
names_apart (r ∷ l) p q s t (suc i) zero fresh at_i at_j same =
    let first : r ≡ t = cc in
    absurd (any_ends-elsewhere l i q p t s (rw first at fresh) at_i (sym same))
names_apart (r ∷ l) p q s t (suc i) (suc j) fresh at_i at_j same =
    let (prefix, index) =
      names_apart l p q s t i j (unfold no_ends in ground (arith, fresh)) at_i at_j same in
    (prefix, ap suc index)

abbrev suffixes : List String
suffixes =
    "-finalizer_metadata" ∷ "-verified-archive" ∷ "-notarized-archive" ∷ "-finalized-metadata"
    ∷ "-finalized-table" ∷ "-finalized-journal" ∷ "-finalized-ordinal" ∷ "-block-metadata"
    ∷ "-block-table" ∷ "-block-journal" ∷ "-block-ordinal" ∷ "-summit" ∷ []

suffixes-no_ends : no_ends suffixes ≡ true
unfolding no_ends
suffixes-no_ends = refl

-- An element of the mapped list comes from one of the list.
get_elem?-prefixed :
    (p : String) (l : List String) (i : ℕ) (n : String)
    → get_elem? (map (λ s. p ++ s) l) i ≡ some n
    → (s : String) × (get_elem? l i ≡ some s) × (p ++ s ≡ n)
get_elem?-prefixed p [] i n h = absurd cc
get_elem?-prefixed p (s ∷ l) zero n h = (s, refl, cc)
get_elem?-prefixed p (s ∷ l) (suc i) n h = get_elem?-prefixed p l i n h

-- If a partition of one node has the name of a partition of another, or of the same, node, then
-- the prefixes of the two nodes are equal and it is the same partition: the twelve partitions of a
-- node are different, and nodes with different prefixes share none, whatever the prefixes are.
pub partitions-AreApart :
    (p q : String) (i j : ℕ) (name : String)
    → get_elem? (partitions p) i ≡ some name
    → get_elem? (partitions q) j ≡ some name
    → (p ≡ q) × (i ≡ j)
partitions-AreApart p q i j name at_p at_q =
    let (s, at_i, is_p) = get_elem?-prefixed p suffixes i name at_p in
    let (t, at_j, is_q) = get_elem?-prefixed q suffixes j name at_q in
    names_apart suffixes p q s t i j suffixes-no_ends at_i at_j (is_p ∙ sym is_q)
