-- ===== src/Node/Committee/Agreed.antt =====
-- Nodes agree on the committee, and on the index of each of its members.
use mathlib.Core.Path.{subst}
use sahya_net.Prelude.{
  ◌≡◌, refl, sym, ap, inl, inr, Option, none, some, List, [], ◌∷◌, Option-cases,
}
use sahya_net.Prelude.Sort.{sort-Permᴰ}
use mathlib.Core.List.{Permᴰ}
use mathlib.Core.List.Permᴰ as PermD
use sahya_net.Types.Genesis.{Validator, Genesis, try_into}
use sahya_net.Node.Host.{Host}
use sahya_net.Node.Committee.{expect_entry, cons_all, Entry, entry_order, convert_all, committee_of}

module _ (h : Host) where
  cons_all-some :
      {A : Type 0} (o : Option A) (l : Option (List A)) {m : List A}
      → cons_all o l ≡ some m
      → (a : A) × (rest : List A) × (o ≡ some a) × (l ≡ some rest) × (m ≡ a ∷ rest)
  cons_all-some none l e = cc
  cons_all-some (some a) none e = cc
  cons_all-some (some a) (some rest) e = (a, rest, refl, refl, cc)

  convert_all-Permᴰ :
      {vs ws : List Validator} {l : List (Entry h)}
      → Permᴰ vs ws
      → convert_all h vs ≡ some l
      → (m : List (Entry h)) × (convert_all h ws ≡ some m) × Permᴰ l m
  unfolding convert_all
  convert_all-Permᴰ {l = l} Permᴰ.nil e =
      (let same : [] ≡ l = cc e in ([], refl, subst (λ m. Permᴰ m []) same Permᴰ.nil))
  convert_all-Permᴰ (Permᴰ.cons {a = v} {b = w} {l₁ = vs} same p) e =
      let (a, rest, e1, e2, split) =
        cons_all-some (expect_entry (try_into h.formats v)) (convert_all h vs) e in
      let (m, c, q) = convert_all-Permᴰ p e2 in
      (a ∷ m, rw (sym same, e1, c) refl, rw split (Permᴰ.cons refl q))
  convert_all-Permᴰ (Permᴰ.swap {a = v} {b = w} {l = vs} d f) e =
      let (a, rest, e1, e2, split) =
        cons_all-some (expect_entry (try_into h.formats v)) (convert_all h (w ∷ vs)) e in
      let (b, rest', e3, e4, split') =
        cons_all-some (expect_entry (try_into h.formats w)) (convert_all h vs) e2 in
      (b ∷ a ∷ rest', rw (sym d, sym f, e1, e3, e4) refl, rw (split, split') (Permᴰ.swap refl refl))
  convert_all-Permᴰ (Permᴰ.trans p q) e =
      let (m, c, r) = convert_all-Permᴰ p e in
      let (n, d, t) = convert_all-Permᴰ q c in (n, d, Permᴰ.trans r t)

  -- Two nodes whose genesis files list the same validators, in whatever order, have the same committee
  -- in the same order, and so give each member the same index; or both panic.
  pub committee_of-Permᴰ :
      (g g' : Genesis) → Permᴰ g.validators g'.validators → committee_of h g ≡ committee_of h g'
  unfolding committee_of
  committee_of-Permᴰ g g' p = elim (Option-cases (convert_all h g.validators)) [
    | inr (l, e) ↦
        let (m, c, q) = convert_all-Permᴰ p e in rw (e, c) (ap some (sort-Permᴰ (entry_order h) q))
    | inl bad ↦ elim (Option-cases (convert_all h g'.validators)) [
      | inl bad' ↦ rw (bad, bad') refl
      | inr (m, c) ↦ let (l, e, q) = convert_all-Permᴰ (PermD.symm p) c in cc (e, bad)
    ]
  ]
