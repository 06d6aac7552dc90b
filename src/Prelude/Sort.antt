-- ===== src/Prelude/Sort.antt =====
-- `slice::sort` by a total order, as insertion sort: the result of a stable sort is the same whatever
-- its algorithm.
use mathlib.Core.Path.{◌≡◌, refl, ap, ◌∙◌}
use mathlib.Core.Logic.{inl, inr}
use mathlib.Core.Bool.{Bool, true, false}
use mathlib.Core.List.{List, [], ◌∷◌, Permᴰ}
use mathlib.Core.List.Permᴰ as PermD
use native.Mathlib.Omega.{arith}
use Prim.Native.Nat.{suc}
use sahya_net.Prelude.Lists.{length, All}
use sahya_net.Prelude.Tests.{if◌then◌else◌, Bool-cases}

pub record Order (A : Type 0) : Type 0 where
  pub leb : A → A → Bool
  pub leb_total : (a b : A) → leb a b ≡ false → leb b a ≡ true
  pub leb_trans : (a b c : A) → leb a b ≡ true → leb b c ≡ true → leb a c ≡ true
  pub leb_antisym : (a b : A) → leb a b ≡ true → leb b a ≡ true → a ≡ b

module _ {A : Type 0} (o : Order A) where
  unfoldable pub insert_sorted : A → List A → List A
  insert_sorted a [] = a ∷ []
  insert_sorted a (b ∷ l) =
      let rest = insert_sorted a l in if o.leb a b then a ∷ b ∷ l else b ∷ rest

  unfoldable pub sort : List A → List A
  sort [] = []
  sort (a ∷ l) = insert_sorted a (sort l)

  insert_sorted_comm :
      (a b : A) (l : List A)
      → insert_sorted a (insert_sorted b l) ≡ insert_sorted b (insert_sorted a l)
  unfolding insert_sorted
  insert_sorted_comm a b [] = ground (arith, o.leb_total a b, o.leb_antisym a b)
  insert_sorted_comm a b (c ∷ l) = ground (
    arith,
    insert_sorted_comm a b l,
    o.leb_total a b,
    o.leb_antisym a b,
    o.leb_trans a b c,
    o.leb_trans b a c,
    o.leb_total a c,
    o.leb_total b c,
  )

  -- The order of the input does not matter.
  pub sort-Permᴰ : {l m : List A} → Permᴰ l m → sort l ≡ sort m
  unfolding sort
  sort-Permᴰ Permᴰ.nil = refl
  sort-Permᴰ (Permᴰ.cons {b = b} e p) = cc (e, sort-Permᴰ p)
  sort-Permᴰ (Permᴰ.swap {a = a} {b = b} {l = l} e d) = cc (e, d, insert_sorted_comm a b (sort l))
  sort-Permᴰ (Permᴰ.trans p q) = sort-Permᴰ p ∙ sort-Permᴰ q

  insert_sorted-Permᴰ : (a : A) (l : List A) → Permᴰ (insert_sorted a l) (a ∷ l)
  unfolding insert_sorted
  insert_sorted-Permᴰ a [] = PermD.refl (a ∷ [])
  insert_sorted-Permᴰ a (b ∷ l) = elim (Bool-cases (o.leb a b)) [
    | inl le ↦ rw le (PermD.refl (a ∷ b ∷ l))
    | inr gt ↦
        rw gt (Permᴰ.trans (Permᴰ.cons refl (insert_sorted-Permᴰ a l)) (Permᴰ.swap refl refl))
  ]

  -- Nothing is lost.
  pub Permᴰ-sort : (l : List A) → Permᴰ (sort l) l
  unfolding sort
  Permᴰ-sort [] = Permᴰ.nil
  Permᴰ-sort (a ∷ l) = Permᴰ.trans (insert_sorted-Permᴰ a (sort l)) (Permᴰ.cons refl (Permᴰ-sort l))

  abbrev pub IsSorted : List A → Type 0
  IsSorted [] = Unit
  IsSorted (a ∷ []) = Unit
  IsSorted (a ∷ b ∷ l) = (o.leb a b ≡ true) × IsSorted (b ∷ l)

  insert_sorted-IsSorted : (a : A) (l : List A) → IsSorted l → IsSorted (insert_sorted a l)
  unfolding insert_sorted
  insert_sorted-IsSorted a [] h = tt
  insert_sorted-IsSorted a (b ∷ []) h = ground (arith, o.leb_total a b)
  insert_sorted-IsSorted a (b ∷ c ∷ l) h = elim (Bool-cases (o.leb a b)) [
    | inl le ↦ rw le (le, h)
    | inr gt ↦ elim (Bool-cases (o.leb a c)) [
      | inl le ↦ rw (gt, le) (o.leb_total a b gt, (le, h.1))
      | inr gt' ↦
          (let below = insert_sorted-IsSorted a (c ∷ l) h.1 in rw (gt, gt') (h.0, rw gt' at below))
    ]
  ]

  pub sort-IsSorted : (l : List A) → IsSorted (sort l)
  unfolding sort
  sort-IsSorted [] = tt
  sort-IsSorted (a ∷ l) = insert_sorted-IsSorted a (sort l) (sort-IsSorted l)

  -- What is in order stays so.
  pub sort_sorted : (l : List A) → IsSorted l → sort l ≡ l
  unfolding sort insert_sorted
  sort_sorted [] h = refl
  sort_sorted (a ∷ []) h = refl
  sort_sorted (a ∷ b ∷ l) h = rw (sort_sorted (b ∷ l) h.1, h.0) refl

  length-insert_sorted : (a : A) (l : List A) → length (insert_sorted a l) ≡ suc (length l)
  unfolding insert_sorted
  length-insert_sorted a [] = refl
  length-insert_sorted a (b ∷ l) = ground (arith, length-insert_sorted a l)

  pub length-sort : (l : List A) → length (sort l) ≡ length l
  unfolding sort
  length-sort [] = refl
  length-sort (a ∷ l) = length-insert_sorted a (sort l) ∙ ap suc (length-sort l)

  All-insert_sorted :
      (P : A → Type 0) (a : A) (l : List A) → P a → All P l → All P (insert_sorted a l)
  unfolding insert_sorted
  All-insert_sorted P a [] p h = (p, tt)
  All-insert_sorted P a (b ∷ l) p h = elim (Bool-cases (o.leb a b)) [
    | inl le ↦ rw le (p, h)
    | inr gt ↦ rw gt (h.0, All-insert_sorted P a l p h.1)
  ]

  pub All-sort : (P : A → Type 0) (l : List A) → All P l → All P (sort l)
  unfolding sort
  All-sort P [] h = tt
  All-sort P (a ∷ l) h = All-insert_sorted P a (sort l) h.0 (All-sort P l h.1)

-- Pairs are compared by the first item, and then by the second.
abbrev pub pair_leb : {A B : Type 0} → Order A → Order B → A × B → A × B → Bool
pair_leb o p (a, b) (a', b') =
    if o.leb a a' then (if o.leb a' a then p.leb b b' else true) else false

abbrev pub pair_order : {A B : Type 0} → Order A → Order B → Order (A × B)
pair_order o p = record {
  leb = pair_leb o p;
  leb_total = λ (a, b) (a', b') h. ground (arith, o.leb_total a a', p.leb_total b b');
  leb_trans = λ (a, b) (a', b') (a'', b'') h k. ground (
    arith,
    o.leb_trans a a' a'',
    o.leb_trans a'' a a',
    o.leb_trans a' a'' a,
    p.leb_trans b b' b'',
  );
  leb_antisym = λ (a, b) (a', b') h k. ground (arith, o.leb_antisym a a', p.leb_antisym b b');
}
