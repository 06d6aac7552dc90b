-- ===== src/Syncer/Registry/Swap.antt =====
-- The items of a vector by their index, after a push and after a `swap_remove`.
use sahya_net.Prelude.{
  ℕ, zero, suc, ◌-◌, ◌<◌, ◌≡◌, refl, ◌∙◌, none, some, List, [], ◌∷◌, ◌++◌, length, get_elem?, set,
  ltb, ◌==◌, if◌then◌else◌, arith, ltb→lt, Bool-cases, Option-cases, inl, inr,
}
use sahya_net.Syncer.Registry.{last?, drop_last, swap_remove}

module _ {A : Type 0} where
  pub get_elem?-push :
      (l : List A) (a : A) (j : ℕ)
      → get_elem? (l ++ a ∷ []) j ≡ (if j == length l then some a else get_elem? l j)
  get_elem?-push [] a zero = refl
  get_elem?-push [] a (suc j) = ground arith
  get_elem?-push (x ∷ l) a zero = ground arith
  get_elem?-push (x ∷ l) a (suc j) = ground (arith, get_elem?-push l a j)

  get_elem?-set :
      (l : List A) (i : ℕ) (v : A) (j : ℕ)
      → i < length l
      → get_elem? (set l i v) j ≡ (if j == i then some v else get_elem? l j)
  get_elem?-set [] i v j h = absurd (omega arith)
  get_elem?-set (x ∷ l) zero v zero h = refl
  get_elem?-set (x ∷ l) zero v (suc j) h = ground arith
  get_elem?-set (x ∷ l) (suc i) v zero h = ground arith
  get_elem?-set (x ∷ l) (suc i) v (suc j) h = ground (arith, get_elem?-set l i v j)

  length-set : (l : List A) (i : ℕ) (v : A) → length (set l i v) ≡ length l
  length-set [] i v = refl
  length-set (x ∷ l) zero v = refl
  length-set (x ∷ l) (suc i) v = omega (arith, length-set l i v)

  get_elem?-drop_last :
      (l : List A) (j : ℕ)
      → get_elem? (drop_last l) j ≡ (if ltb (suc j) (length l) then get_elem? l j else none)
  get_elem?-drop_last [] j = ground arith
  get_elem?-drop_last (x ∷ []) j = ground arith
  get_elem?-drop_last (x ∷ y ∷ l) zero = ground arith
  get_elem?-drop_last (x ∷ y ∷ l) (suc j) = ground (arith, get_elem?-drop_last (y ∷ l) j)

  get_elem?-pred :
      (y x : A) (l : List A)
      → get_elem? (y ∷ l) (length (y ∷ l) - 1) ≡ get_elem? (x ∷ y ∷ l) (length (x ∷ y ∷ l) - 1)
  get_elem?-pred y x l = ground arith

  last?-eq : (l : List A) → last? l ≡ get_elem? l (length l - 1)
  last?-eq [] = refl
  last?-eq (x ∷ []) = ground arith
  last?-eq (x ∷ y ∷ l) = last?-eq (y ∷ l) ∙ get_elem?-pred y x l

  last?-none : (x : A) (l : List A) → last? (x ∷ l) ≡ none → ⊥
  last?-none x [] h = cc
  last?-none x (y ∷ l) h = last?-none y l h

  last?-found : (l : List A) (i : ℕ) (a : A) → get_elem? l i ≡ some a → last? l ≡ none → ⊥
  last?-found [] i a h e = cc
  last?-found (x ∷ l) i a h e = last?-none x l e

  pub get_elem?-within : (l : List A) (j : ℕ) → get_elem? l j ≡ none → length l < suc j
  get_elem?-within [] j h = omega arith
  get_elem?-within (x ∷ l) zero h = cc
  get_elem?-within (x ∷ l) (suc j) h = omega (arith, get_elem?-within l j h)

  pub get_elem?-none : (l : List A) (j : ℕ) → length l < suc j → get_elem? l j ≡ none
  get_elem?-none [] j h = refl
  get_elem?-none (x ∷ l) zero h = absurd (omega arith)
  get_elem?-none (x ∷ l) (suc j) h = get_elem?-none l j (omega arith)

  -- After a `swap_remove` of an item the last one stands at its place, and the list ends before it.
  pub get_elem?-swap_remove :
      (l : List A) (i : ℕ) (a : A)
      → get_elem? l i ≡ some a
      → (left : List A) × (swap_remove i l ≡ some left)
        × ((j : ℕ)
            → get_elem? left j ≡ (
                if ltb (suc j) (length l)
                then (if j == i then get_elem? l (length l - 1) else get_elem? l j)
                else none))
  unfolding swap_remove
  get_elem?-swap_remove l i a h = elim (Bool-cases (ltb i (length l))) [
    | inr out ↦ absurd (ground (arith, get_elem?-none l i))
    | inl within ↦ elim (Option-cases (last? l)) [
      | inl empty ↦ absurd (last?-found l i a h empty)
      | inr (x, last) ↦ (
        drop_last (set l i x),
        rw (within, last) refl,
        λ j.
            rw
              (
                get_elem?-drop_last (set l i x) j,
                length-set l i x,
                get_elem?-set l i x j (ltb→lt i (length l) within),
              )
              (ground (arith, last?-eq l)),
      )
    ]
  ]
