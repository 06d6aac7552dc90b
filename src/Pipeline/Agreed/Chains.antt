-- ===== src/Pipeline/Agreed/Chains.antt =====
-- The chains that two nodes have committed: one is the beginning of the other.
use sahya_net.Prelude.{
  ℕ, zero, suc, ◌-◌, ◌^◌, ◌<◌, ◌≤◌, ◌≡◌, refl, ◌∙◌, List, [], ◌∷◌, ◌++◌, All, length, drop, map,
  arith,
}
use mathlib.Core.Path.{ap₂}
use sahya_net.Types.Digest.{Digest}
use sahya_net.Types.Block.{Block}
use sahya_net.Syncer.Environment.{Environment, EnvironmentLaws}
use sahya_net.Syncer.Key.{MultiIndex}
use sahya_net.Syncer.Opening.{Storage}
use sahya_net.Syncer.Agreement.{Network}
use sahya_net.Pipeline.{Pipeline}
use sahya_net.Pipeline.Consistent.{Descends}
use sahya_net.Pipeline.Restart.{Life-in_order}
use sahya_net.Pipeline.Agreed.{Membership, Membership-Life}
use sahya_net.Pipeline.Agreed.Final.{IsFinal, All-append, Membership-CommitsFinal}
use Prim.Native.String.{String}

module _ {e : Environment} (laws : EnvironmentLaws e) (net : Network e) where
  abbrev digests : List (Block e.prim) → List Digest
  digests = map (λ (b : Block e.prim). b.digest)

  -- Final blocks at the heights 1, 2, 3 and so on, newest first.
  record IsChain (l : List (Block e.prim)) : Type 0 where
    pub in_order : Descends e 0 l
    pub final : All (IsFinal laws net) l

  IsChain-tail : (b : Block e.prim) (l : List (Block e.prim)) → IsChain (b ∷ l) → IsChain l
  IsChain-tail b l c = record { in_order = c.in_order.1; final = c.final.1 }

  IsChain-drop : (n : ℕ) (l : List (Block e.prim)) → IsChain l → IsChain (drop n l)
  IsChain-drop zero l c = c
  IsChain-drop (suc n) [] c = c
  IsChain-drop (suc n) (b ∷ l) c = IsChain-drop n l (IsChain-tail b l c)

  length-drop : (n : ℕ) (l : List (Block e.prim)) → length (drop n l) ≡ length l - n
  length-drop zero l = omega arith
  length-drop (suc n) [] = omega arith
  length-drop (suc n) (b ∷ l) = length-drop n l ∙ omega arith

  -- Two chains of one length are the same chain.
  IsChain-unique :
      (l m : List (Block e.prim))
      → IsChain l
      → IsChain m
      → length l ≡ length m
      → digests l ≡ digests m
  IsChain-unique [] [] c c' same = refl
  IsChain-unique [] (b ∷ m) c c' same = absurd (omega (arith, same))
  IsChain-unique (b ∷ l) [] c c' same = absurd (omega (arith, same))
  IsChain-unique (b ∷ l) (b' ∷ m) c c' same =
      let head : b.digest ≡ b'.digest =
        net.one_at_height b b' c.final.0.0 c'.final.0.0 c.final.0.1 c'.final.0.1
          (omega (arith, same, c.in_order.0, c'.in_order.0)) in
      let tail =
        IsChain-unique l m (IsChain-tail b l c) (IsChain-tail b' m c') (omega (arith, same)) in
      ap₂ (λ d ds. d ∷ ds) head tail

  -- The blocks of a node's whole life.
  Membership-IsChain :
      (d : Storage e) (prefix : String) (genesis_hash : Digest) {p : Pipeline e}
      {past : List (Block e.prim)} {keys : List MultiIndex}
      → Membership net d prefix genesis_hash p past keys
      → length (p.committed ++ past) < 2 ^ 64
      → IsChain (p.committed ++ past)
  Membership-IsChain d prefix genesis_hash {p} {past} m range =
      let c = Membership-CommitsFinal laws net m in
      record {
        in_order = (Life-in_order laws d prefix genesis_hash (Membership-Life m) range).0;
        final = All-append laws net p.committed past c.committed c.past_committed;
      }

  -- Suppose that the consensus is safe, as `Network` says, that it reports only finalizations that
  -- verify, that the application stores only blocks with the digest of their fields, and that the
  -- resolver delivers only for keys that were fetched, whatever bytes a peer sends. Take any two
  -- nodes, each of which starts over coherent archives of final blocks only, empty ones, say, and no
  -- stored height, and takes any steps of its syncer and finalizer, any stops, and restarts over
  -- storage that may have lost items of the archives but holds no others. While the heights fit a
  -- u64, the chain of digests that the one which has committed no more blocks than the other has
  -- committed, with their heights stored, in its whole life is the beginning of the other's.
  pub chains_agree :
      (d d' : Storage e) (prefix prefix' : String) (genesis_hash genesis_hash' : Digest)
      {p q : Pipeline e} {past past' : List (Block e.prim)} {keys keys' : List MultiIndex}
      → Membership net d prefix genesis_hash p past keys
      → Membership net d' prefix' genesis_hash' q past' keys'
      → length (p.committed ++ past) ≤ length (q.committed ++ past')
      → length (q.committed ++ past') < 2 ^ 64
      → map (λ (b : Block e.prim). b.digest) (p.committed ++ past)
        ≡ map
            (λ (b : Block e.prim). b.digest)
            (drop
              (length (q.committed ++ past') - length (p.committed ++ past))
              (q.committed ++ past'))
  chains_agree d d' prefix prefix' genesis_hash genesis_hash' {p} {q} {past} {past'} m m' fewer
        range =
      let mine = p.committed ++ past in
      let all = q.committed ++ past' in
      let n = length all - length mine in
      IsChain-unique mine (drop n all)
        (Membership-IsChain d prefix genesis_hash m (omega (arith, fewer, range)))
        (IsChain-drop n all (Membership-IsChain d' prefix' genesis_hash' m' range))
        (omega (arith, fewer, length-drop n all))
