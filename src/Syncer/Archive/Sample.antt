-- ===== src/Syncer/Archive/Sample.antt =====
-- A concrete archive for tests, as a list of its items. It meets the laws of an immutable archive.
use sahya_net.Prelude.{
  ℕ, ◌<◌, ◌≡◌, refl, ◌⊎◌, inl, inr, Option, none, some, List, [], ◌∷◌, ltb, ◌==◌, if◌then◌else◌,
  arith, bytes_eq, bytes_eq_iff, Bool-cases, Option-cases,
}
use sahya_net.Types.Digest.{Digest}
use sahya_net.Syncer.Archive.{Archive, ArchiveLaws, ImmutableLaws, Put, stored}

abbrev Items : Type 0 → Type 0
Items V = List (ℕ × Digest × V)

abbrev least : ℕ → Option ℕ → Option ℕ
least j none = some j
least j (some g) = if ltb j g then some j else some g

module _ {V : Type 0} where
  abbrev at_index : ℕ → Items V → Option V
  at_index i [] = none
  at_index i ((j, k, v) ∷ l) = if i == j then some v else at_index i l

  abbrev at_key : Digest → Items V → Option V
  at_key d [] = none
  at_key d ((j, k, v) ∷ l) = if bytes_eq k d then some v else at_key d l

  abbrev insert_new : ℕ → Digest → V → Items V → Option V → Items V
  insert_new i k v l none = (i, k, v) ∷ l
  insert_new i k v l (some w) = l

  abbrev put : ℕ → Digest → V → Items V → Put (Items V)
  put i k v l = stored (insert_new i k v l (at_index i l))

  abbrev prune : ℕ → Items V → Items V
  prune m [] = []
  prune m ((j, k, v) ∷ l) = let rest = prune m l in if ltb j m then rest else (j, k, v) ∷ rest

  -- the least index above `n`
  abbrev least_above : ℕ → Items V → Option ℕ
  least_above n [] = none
  least_above n ((j, k, v) ∷ l) = if ltb n j then least j (least_above n l) else least_above n l

  abbrev Has : Items V → ℕ → Digest → V → Type 0
  Has [] j d w = ⊥
  Has ((i, k, v) ∷ l) j d w = ((j ≡ i) × (d ≡ k) × (w ≡ v)) ⊎ Has l j d w

abbrev pub list_archive : (V : Type 0) → Archive V
list_archive V = record {
  Store = Items V;
  put = put;
  get_index = at_index;
  get_key = at_key;
  prune = prune;
  next_gap = λ n l. (none, least_above n l);
  Holds = Has;
}

module _ {V : Type 0} where
  at_index-Has : (i : ℕ) (l : Items V) (v : V) → at_index i l ≡ some v → (k : Digest) × Has l i k v
  at_index-Has i [] v h = cc
  at_index-Has i ((j, k, w) ∷ l) v h = elim (Bool-cases (i == j)) [
    | inl e ↦ (k, inl (ground arith, refl, ground arith))
    | inr e ↦ let (d, m) = at_index-Has i l v (ground arith) in (d, inr m)
  ]

  at_key-Has : (d : Digest) (l : Items V) (v : V) → at_key d l ≡ some v → (i : ℕ) × Has l i d v
  at_key-Has d [] v h = cc
  at_key-Has d ((j, k, w) ∷ l) v h = elim (Bool-cases (bytes_eq k d)) [
    | inl e ↦ (j, inl (refl, ground (arith, bytes_eq_iff k d), ground arith))
    | inr e ↦ let (i, m) = at_key-Has d l v (ground arith) in (i, inr m)
  ]

  insert_new-Has :
      (i : ℕ) (k : Digest) (v : V) (l : Items V) (o : Option V) (j : ℕ) (d : Digest) (w : V)
      → Has (insert_new i k v l o) j d w
      → ((j ≡ i) × (d ≡ k) × (w ≡ v)) ⊎ Has l j d w
  insert_new-Has i k v l none j d w h = h
  insert_new-Has i k v l (some u) j d w h = inr h

  stored_inj : (l l' : Items V) → stored l ≡ stored l' → l ≡ l'
  stored_inj l l' e = cc

  put-Has :
      (i : ℕ) (k : Digest) (v : V) (l l' : Items V) (j : ℕ) (d : Digest) (w : V)
      → put i k v l ≡ stored l'
      → Has l' j d w
      → ((j ≡ i) × (d ≡ k) × (w ≡ v)) ⊎ Has l j d w
  put-Has i k v l l' j d w e h =
      insert_new-Has i k v l (at_index i l) j d w
        (rw (← stored_inj (insert_new i k v l (at_index i l)) l' e) at h)

  prune-Has :
      (m : ℕ) (l : Items V) (j : ℕ) (d : Digest) (w : V) → Has (prune m l) j d w → Has l j d w
  prune-Has m [] j d w h = h
  prune-Has m ((i, k, v) ∷ l) j d w h = elim (Bool-cases (ltb i m)) [
    | inl e ↦ inr (prune-Has m l j d w (rw e at h))
    | inr e ↦ kept (rw e at h) (prune-Has m l j d w)
  ]
    where
      kept :
          ((j ≡ i) × (d ≡ k) × (w ≡ v)) ⊎ Has (prune m l) j d w
          → (Has (prune m l) j d w → Has l j d w)
          → ((j ≡ i) × (d ≡ k) × (w ≡ v)) ⊎ Has l j d w
      kept (inl n) f = inl n
      kept (inr o) f = inr (f o)

  at_index-insert_new :
      (i : ℕ) (k : Digest) (v : V) (l : Items V) (j : ℕ) (w : V)
      → at_index j l ≡ some w
      → at_index j (insert_new i k v l (at_index i l)) ≡ some w
  at_index-insert_new i k v l j w h = elim (Option-cases (at_index i l)) [
    | inl e ↦ rw e (ground arith)
    | inr (u, e) ↦ rw e h
  ]

  insert_new-fills :
      (i : ℕ) (k : Digest) (v : V) (l : Items V)
      → (w : V) × (at_index i (insert_new i k v l (at_index i l)) ≡ some w)
  insert_new-fills i k v l = elim (Option-cases (at_index i l)) [
    | inl e ↦ (v, rw e (ground arith))
    | inr (u, e) ↦ (u, rw (e, e))
  ]

  least_above-cases :
      (n g j : ℕ) (k : Digest) (v : V) (l : Items V)
      → least_above n ((j, k, v) ∷ l) ≡ some g
      → ((n < j) × (j ≡ g)) ⊎ (least_above n l ≡ some g)
  least_above-cases n g j k v l h = ground arith

  at_index-cons :
      (g j : ℕ) (k : Digest) (v : V) (l : Items V) {w : V}
      → at_index g l ≡ some w
      → (u : V) × (at_index g ((j, k, v) ∷ l) ≡ some u)
  at_index-cons g j k v l {w} h = elim (Bool-cases (g == j)) [
    | inl e ↦ (v, rw e)
    | inr e ↦ (w, rw e h)
  ]

  least_above-found :
      (n g : ℕ) (l : Items V)
      → least_above n l ≡ some g
      → (n < g) × ((w : V) × (at_index g l ≡ some w))
  least_above-found n g [] h = cc
  least_above-found n g ((j, k, v) ∷ l) h = elim (least_above-cases n g j k v l h) [
    | inl new ↦ (ground arith, (v, ground arith))
    | inr old ↦
        let (above, (w, found)) = least_above-found n g l old in
        (above, at_index-cons g j k v l found)
  ]

at_index-above :
    {V : Type 0} (h n : ℕ) (l : Items V) → least_above n l ≡ none → n < h → at_index h l ≡ none
at_index-above h n [] e lt = refl
at_index-above h n ((j, k, v) ∷ l) e lt = ground (arith, at_index-above h n l)

at_index-least :
    {V : Type 0} (n g h : ℕ) (l : Items V)
    → least_above n l ≡ some g
    → n < h
    → h < g
    → at_index h l ≡ none
at_index-least n g h [] e lo hi = refl
at_index-least n g h ((j, k, v) ∷ l) e lo hi = elim (Option-cases (least_above n l)) [
  | inl alone ↦ ground (arith, at_index-above h n l)
  | inr (m, rest) ↦ ground (arith, at_index-least n m h l)
]

pub list_archive_laws : (V : Type 0) → ArchiveLaws (list_archive V)
list_archive_laws V = record {
  get_index-Holds = at_index-Has;
  get_key-Holds = at_key-Has;
  put-Holds = put-Has;
  prune-Holds = prune-Has;
}

pub list_archive_immutable : (V : Type 0) → ImmutableLaws (list_archive V)
list_archive_immutable V = record {
  put-keeps = λ i k v s s' j w e h.
      rw (← stored_inj (insert_new i k v s (at_index i s)) s' e)
        (at_index-insert_new i k v s j w h);
  put-fills = λ i k v s s' e.
      rw (← stored_inj (insert_new i k v s (at_index i s)) s' e) (insert_new-fills i k v s);
  next_gap-start = λ n g s h. least_above-found n g s h;
  next_gap-least = λ n g h s missing e lo hi. at_index-least n g h s e lo hi;
  next_gap-some = λ n h s w missing above stands. elim (Option-cases (least_above n s)) [
    | inl nothing ↦ cc (at_index-above h n s nothing above, stands)
    | inr (g, starts) ↦ (g, starts)
  ];
}
