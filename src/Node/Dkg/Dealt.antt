-- ===== src/Node/Dkg/Dealt.antt =====
-- The share that a node is dealt is the one of its index in the committee.
use mathlib.Core.Path.{subst}
use sahya_net.Prelude.{
  suc, ◌≡◌, ◌≢◌, refl, sym, ap, ◌∙◌, inl, inr, true, false, some, List, [], ◌∷◌, Bytes, map, length,
  All, ◌==◌, ==→eq, Bool-cases, arith, ok,
}
use sahya_net.Prelude.Sort.{
  length-sort, All-sort, pair_order, pair_leb, IsSorted, sort-IsSorted, sort_sorted,
}
use sahya_net.Types.Genesis.{Validator, Genesis, try_into}
use sahya_net.Node.Host.{Host, done, >>=-done, done-injective}
use sahya_net.Node.Committee.{Entry, entry_order, convert_all, committee_of}
use sahya_net.Node.Dkg.{NodeFiles, Dealer, sorted_keys, deal, main}

module _ (h : Host) (d : Dealer h) where
  -- No two neighbours are equal.
  abbrev pub Differ : List (h.Key × h.PrivateKey) → Type 0
  Differ [] = Unit
  Differ (a ∷ []) = Unit
  Differ (a ∷ b ∷ l) = (a.0 ≢ b.0) × Differ (b ∷ l)

  abbrev pub HasAddress : Validator → Type 0
  HasAddress v = (a : h.Addr) × (h.formats.parse_addr v.ip_address ≡ some a)

  -- Place by place: the committee's key is that of the private key in the node's folder, and the share
  -- there is the one that was dealt for the place.
  abbrev pub IsDealt : List (Entry h) → List NodeFiles → List h.Share → Type 0
  IsDealt [] [] shares = Unit
  IsDealt (v ∷ l) (f ∷ fs) (s ∷ shares) =
      ((k : h.PrivateKey) × (v.0 ≡ h.public_key k)
        × (f.key ≡ d.private_key_hex k)
        × (f.share ≡ d.share_hex s))
      × IsDealt l fs shares
  IsDealt l fs shares = true ≡ false

  -- The dealer's public keys are read back.
  abbrev pub IsHex : Type 0
  IsHex =
      (k : h.PrivateKey)
      → (bytes : Bytes) × (h.formats.from_hex_formatted (d.key_hex (h.public_key k)) ≡ some bytes)
        × (h.formats.decode_key bytes ≡ some (h.public_key k))

  -- Every pair is a key pair.
  abbrev ArePairs : List (h.Key × h.PrivateKey) → Type 0
  ArePairs l = All (λ p. p.0 ≡ h.public_key p.1) l

  -- The first entry has the first key, and the entries are in order.
  abbrev StartsAs : List (h.Key × h.PrivateKey) → List (Entry h) → Type 0
  StartsAs [] [] = Unit
  StartsAs (k ∷ keys) (v ∷ l) = v.0 ≡ k.0
  StartsAs keys l = true ≡ false

  pair_order-IsSorted :
      (keys : List h.PrivateKey)
      → IsSorted (pair_order h.key_order d.private_key_order) (sorted_keys h d keys)
  pair_order-IsSorted keys = sort-IsSorted (pair_order h.key_order d.private_key_order) _

  converts :
      IsHex
      → (k : h.Key × h.PrivateKey) (v : Validator) → k.0 ≡ h.public_key k.1
      → HasAddress v
      → (a : h.Addr) × (try_into h.formats
            (record { public_key = d.key_hex k.0; ip_address = v.ip_address })
          ≡ ok (k.0, a))
  unfolding try_into
  converts hex k v own (a, parses) =
      let (bytes, is_hex, decodes) = hex k.1 in (a, rw (own, is_hex, decodes, parses) refl)

  tail-IsSorted :
      (k : h.Key × h.PrivateKey) (keys : List (h.Key × h.PrivateKey))
      → IsSorted (pair_order h.key_order d.private_key_order) (k ∷ keys)
      → IsSorted (pair_order h.key_order d.private_key_order) keys
  tail-IsSorted k [] s = tt
  tail-IsSorted k (j ∷ keys) s = s.1

  tail-Differ :
      (k : h.Key × h.PrivateKey) (keys : List (h.Key × h.PrivateKey))
      → Differ (k ∷ keys)
      → Differ keys
  tail-Differ k [] f = tt
  tail-Differ k (j ∷ keys) f = f.1

  strictly_below :
      (k j : h.Key × h.PrivateKey)
      → pair_leb h.key_order d.private_key_order k j ≡ true
      → k.0 ≢ j.0
      → (h.key_order.leb k.0 j.0 ≡ true) × (h.key_order.leb j.0 k.0 ≡ false)
  strictly_below k j s f = elim (Bool-cases (h.key_order.leb k.0 j.0)) [
    | inr gt ↦ cc (s, gt)
    | inl le ↦ elim (Bool-cases (h.key_order.leb j.0 k.0)) [
      | inl ge ↦ absurd (f (h.key_order.leb_antisym k.0 j.0 le ge))
      | inr strict ↦ (le, strict)
    ]
  ]

  prepend-IsSorted :
      (k : h.Key × h.PrivateKey) (keys : List (h.Key × h.PrivateKey)) (a : h.Addr)
      (l : List (Entry h))
      → IsSorted (pair_order h.key_order d.private_key_order) (k ∷ keys)
      → Differ (k ∷ keys)
      → StartsAs keys l
      → IsSorted (entry_order h) l
      → IsSorted (entry_order h) ((k.0, a) ∷ l)
  prepend-IsSorted k [] a [] s f e t = tt
  prepend-IsSorted k [] a (v ∷ l) s f e t = cc
  prepend-IsSorted k (j ∷ keys) a [] s f e t = cc
  prepend-IsSorted k (j ∷ keys) a (v ∷ l) s f e t =
      (let below = strictly_below k j s.0 f.0 in (rw (e, below.0, below.1) refl, t))

  abbrev IsWritten :
      List (h.Key × h.PrivateKey) → List h.Share → List Validator × List NodeFiles → Type 0
  IsWritten keys shares r =
      (l : List (Entry h)) × (convert_all h r.0 ≡ some l)
      × IsSorted (entry_order h) l
      × StartsAs keys l
      × IsDealt l r.1 shares

  -- What the loop leaves behind is a genesis file that every node converts.
  deal-IsDealt :
      IsHex
      → (keys : List (h.Key × h.PrivateKey)) (shares : List h.Share) (vs ws : List Validator)
        (fs : List NodeFiles)
      → length vs ≡ length keys
      → All HasAddress vs
      → ArePairs keys
      → IsSorted (pair_order h.key_order d.private_key_order) keys
      → Differ keys
      → deal h d keys shares vs ≡ done (ws, fs)
      → IsWritten keys shares (ws, fs)
  unfolding deal convert_all
  deal-IsDealt hex [] shares [] ws fs same parse pairs sorted differ e =
      subst (IsWritten [] shares) (done-injective e) ([], refl, tt, tt, tt)
  deal-IsDealt hex [] shares (v ∷ vs) ws fs same parse pairs sorted differ e = absurd (omega arith)
  deal-IsDealt hex (k ∷ keys) [] vs ws fs same parse pairs sorted differ e = cc
  deal-IsDealt hex (k ∷ keys) (share ∷ shares) [] ws fs same parse pairs sorted differ e = cc
  deal-IsDealt hex (k ∷ keys) (share ∷ shares) (v ∷ vs) ws fs same parse pairs sorted differ e0 =
      let ((ws', fs'), rest, e1) = >>=-done (deal h d keys shares vs) _ e0 in
      let (l, c, in_order, starts, dealt) =
        deal-IsDealt hex keys shares vs ws' fs' (omega arith) parse.1 pairs.1
          (tail-IsSorted k keys sorted) (tail-Differ k keys differ) rest in
      let (a, converted) = converts hex k v pairs.0 parse.0 in
      subst (IsWritten (k ∷ keys) (share ∷ shares)) (done-injective e1) (
        (k.0, a) ∷ l,
        rw (converted, c) refl,
        prepend-IsSorted k keys a l sorted differ starts in_order,
        refl,
        ((k.1, pairs.0, refl, refl), dealt),
      )

  pairs_of : (keys : List h.PrivateKey) → ArePairs (map (λ k. (h.public_key k, k)) keys)
  pairs_of [] = tt
  pairs_of (k ∷ keys) = (refl, pairs_of keys)

  length-keys :
      (keys : List h.PrivateKey)
      → length {A = h.Key × h.PrivateKey} (map (λ k. (h.public_key k, k)) keys) ≡ length keys
  length-keys [] = refl
  length-keys (k ∷ keys) = ap suc (length-keys keys)

  -- Suppose that the public keys are read back from their hex texts, that every address of the genesis
  -- file parses, and that no two of the sorted public keys that stand side by side are equal. Then
  -- every node reads a committee off the file that the dealer leaves, and for each index of the
  -- committee the folder of that number has the private key of the member and the share that was dealt
  -- for the index.
  pub main-IsDealt :
      IsHex
      → (keys : List h.PrivateKey) (polynomial : h.Poly) (shares : List h.Share)
        (genesis g : Genesis) (fs : List NodeFiles)
      → All HasAddress genesis.validators
      → Differ (sorted_keys h d keys)
      → main h d keys polynomial shares genesis ≡ done (g, fs)
      → (l : List (Entry h)) × (committee_of h g ≡ some l) × IsDealt l fs shares
  unfolding main committee_of
  main-IsDealt hex keys polynomial shares genesis g fs parse differ e0 =
      elim (Bool-cases (length genesis.validators == length keys)) [
        | inr other ↦ cc (rw other at e0)
        | inl same ↦
            let ((ws, fs'), rest, e1) =
              >>=-done (deal h d (sorted_keys h d keys) shares genesis.validators) _
                (rw same at e0) in
            let own = map (λ k. (h.public_key k, k)) keys in
            let order = pair_order h.key_order d.private_key_order in
            let len : length genesis.validators ≡ length (sorted_keys h d keys) =
              ==→eq _ _ same ∙ sym (length-sort order own ∙ length-keys keys) in
            let pairs = All-sort order (λ p. p.0 ≡ h.public_key p.1) own (pairs_of keys) in
            let (l, c, in_order, starts, dealt) =
              deal-IsDealt hex (sorted_keys h d keys) shares genesis.validators ws fs' len parse
                pairs (pair_order-IsSorted keys) differ rest in
            subst
              (λ r. (l' : List (Entry h)) × (committee_of h r.0 ≡ some l') × IsDealt l' r.1 shares)
              (done-injective e1)
              (l, rw c (ap some (sort_sorted (entry_order h) l in_order)), dealt)
      ]
