-- ===== src/Pipeline/Repair/Finds.antt =====
-- The rounds of `get` and `repair` (application/src/finalizer.rs) find the next block.
use sahya_net.Prelude.{
  le_or_lt, ℕ, zero, suc, ◌+◌, ◌<◌, ◌≤◌, ◌≡◌, refl, sym, ap, ◌∙◌, inl, inr, true, lt→ltb, Option,
  none, some, [], ◌∷◌, ◌++◌, Option-cases, arith,
}
use sahya_net.Types.Digest.{Digest}
use sahya_net.Types.Block.{Block}
use sahya_net.Syncer.Environment.{Environment, EnvironmentLaws}
use sahya_net.Syncer.Archive.{Stores, expect, expect-some, Stores-expect}
use sahya_net.Syncer.State.{
  State, respond_bool, Buffer, or_else, block_of, or_else-some, block_of-some,
}
use sahya_net.Syncer.Orchestrate.{
  repair_parent, repair_or_fetch, repair_gap, on_repair, on_orchestration,
}
use sahya_net.Syncer.Actor.{orchestrator, cancel_useless, on_input, turn}
use sahya_net.Pipeline.{repair_answer, orchestrator_repair}
use sahya_net.Pipeline.Repair.{found, repairs, LinksBy, IsLinked}
use sahya_net.Pipeline.Repair.Moves.{cancel-answer, found-LinksBy, gapped-height}
use sahya_net.Pipeline.Repair.Ends.{repairs-suc}

module _ (e : Environment) where
  -- Where a repair looks for a parent.
  abbrev pub stored_block : Digest → State e → Option (Block e.prim)
  stored_block d s =
      or_else (e.verified.get_key d s.verified) (block_of e (e.notarized.get_key d s.notarized))

  abbrev HasParent : ℕ → State e → Block e.prim → Type 0
  HasParent next s b = next < b.height → (p : Block e.prim) × (stored_block b.parent s ≡ some p)

  -- The parent of every stored block above the next height is verified or notarized.
  pub record HasParents (next : ℕ) (s : State e) : Type 0 where
    pub verified : Stores e.verified (λ i k b. HasParent next s b) s.verified
    pub notarized : Stores e.notarized (λ i k n. HasParent next s n.block) s.notarized
    pub blocks : Stores e.blocks (λ i k b. HasParent next s b) s.blocks

  -- No `put` of a finalized block fails.
  abbrev pub CanPut : Type 0
  CanPut =
      (i : ℕ) (k : Digest) (b : Block e.prim) (bs : e.blocks.Store)
      → (bs' : e.blocks.Store) × (expect (e.blocks.put i k b bs) ≡ some bs')

  -- The state behind a round that stores a block.
  abbrev moved_to : State e → e.blocks.Store → State e
  moved_to s bs = record (cancel_useless e (cancel_useless e s).0).0 { blocks = bs }

  repair-stores :
      (buffer : Buffer e) (next g : ℕ) (s : State e) (gapped p : Block e.prim) (bs : e.blocks.Store)
      → 0 < next
      → (e.blocks.next_gap next s.blocks).1 ≡ some g
      → e.blocks.get_index g s.blocks ≡ some gapped
      → stored_block gapped.parent s ≡ some p
      → expect (e.blocks.put p.height gapped.parent p s.blocks) ≡ some bs
      → turn e buffer (orchestrator (orchestrator_repair next)) (cancel_useless e s).0
        ≡ some
            (moved_to s bs, (cancel_useless e (cancel_useless e s).0).1 ++ respond_bool true ∷ [])
  unfolding turn on_input on_orchestration on_repair repair_gap repair_or_fetch repair_parent
      cancel_useless orchestrator_repair
  repair-stores buffer next g s gapped p bs positive starts at_g parent ok =
      rw (starts, lt→ltb 0 next positive, at_g, parent, ok) refl

module _ (e : Environment) (laws : EnvironmentLaws e) (height_of : Digest → ℕ) where
  -- What a repair finds has a parent itself.
  stored_block-HasParent :
      (next : ℕ) (d : Digest) (s : State e) (b : Block e.prim)
      → HasParents e next s
      → stored_block e d s ≡ some b
      → HasParent e next s b
  stored_block-HasParent next d s b h is = elim (or_else-some _ _ b is) [
    | inl v ↦ let (i, held) = laws.verified.get_key-Holds d s.verified b v in h.verified i d b held
    | inr n ↦
        let (c, got, same) = block_of-some e (e.notarized.get_key d s.notarized) b n in
        let (i, held) = laws.notarized.get_key-Holds d s.notarized c got in
        rw (sym same) (h.notarized i d c held)
  ]

  moved_to-HasParents :
      (next : ℕ) (d : Digest) (s : State e) (b : Block e.prim) (bs : e.blocks.Store)
      → HasParents e next s
      → stored_block e d s ≡ some b
      → expect (e.blocks.put b.height d b s.blocks) ≡ some bs
      → HasParents e next (moved_to e s bs)
  unfolding cancel_useless
  moved_to-HasParents next d s b bs h is ok = record {
    verified = h.verified;
    notarized = h.notarized;
    blocks =
        Stores-expect e.blocks laws.blocks (λ i k c. HasParent e next s c) b.height d b s.blocks bs
          ok (stored_block-HasParent next d s b h is) h.blocks;
  }

  moved_to-IsLinked :
      (d : Digest) (s : State e) (b : Block e.prim) (bs : e.blocks.Store)
      → IsLinked e height_of s
      → stored_block e d s ≡ some b
      → expect (e.blocks.put b.height d b s.blocks) ≡ some bs
      → IsLinked e height_of (moved_to e s bs)
  unfolding cancel_useless
  moved_to-IsLinked d s b bs l is ok = record {
    verified = l.verified;
    notarized = l.notarized;
    blocks =
        Stores-expect e.blocks laws.blocks (λ i k c. (c.height ≡ i) × LinksBy e height_of k c)
          b.height d b s.blocks bs ok (refl, found-LinksBy e laws height_of d s b l is) l.blocks;
  }

  repair-true :
      (s : State e) → repair_answer e ((cancel_useless e s).1 ++ respond_bool true ∷ []) ≡ some true
  unfolding repair_answer
  repair-true s = cancel-answer e laws height_of s (respond_bool true ∷ [])

  -- One round above a gap stores a block one lower, and goes on.
  round-stores :
      (n next h : ℕ) (buffer : Buffer e) (s : State e) (w : Block e.prim)
      → 0 < next
      → CanPut e
      → IsLinked e height_of s
      → HasParents e next s
      → e.blocks.get_index next s.blocks ≡ none
      → next < h
      → h ≤ next + suc n
      → e.blocks.get_index h s.blocks ≡ some w
      → (s' : State e) × (repairs e (suc (suc n)) next buffer s ≡ repairs e (suc n) next buffer s')
        × IsLinked e height_of s'
        × HasParents e next s'
        × ((j : ℕ) × (next ≤ j)
            × (j ≤ next + n)
            × ((v : Block e.prim) × (e.blocks.get_index j s'.blocks ≡ some v)))
  round-stores n next h buffer s w positive can l hp missing above within stands =
      let (g, starts) =
        laws.blocks_immutable.next_gap-some next h s.blocks w missing above stands in
      let (behind, (gapped, at_g)) = laws.blocks_immutable.next_gap-start next g s.blocks starts in
      let (k, held) = laws.blocks.get_index-Holds g s.blocks gapped at_g in
      let high = (l.blocks g k gapped held).0 in
      let (p, parent) = hp.blocks g k gapped held (omega arith) in
      let (bs, ok) = can p.height gapped.parent p s.blocks in
      let low = gapped-height e laws height_of g s gapped l at_g in
      let linked = found-LinksBy e laws height_of gapped.parent s p l parent in
      let (v, filled) =
        laws.blocks_immutable.put-fills p.height gapped.parent p s.blocks bs
          (expect-some (e.blocks.put p.height gapped.parent p s.blocks) bs ok) in
      let turned = repair-stores e buffer next g s gapped p bs positive starts at_g parent ok in
      let near : g ≤ h = elim (le_or_lt g h) [
        | inl le ↦ le
        | inr far ↦ cc (
          laws.blocks_immutable.next_gap-least next g h s.blocks missing starts above far,
          stands,
        )
      ] in
      (
        moved_to e s bs,
        repairs-suc e laws height_of (suc n) next buffer s
            ∙ rw (missing, turned, repair-true (cancel_useless e s).0) refl,
        moved_to-IsLinked gapped.parent s p bs l parent ok,
        moved_to-HasParents next gapped.parent s p bs hp parent ok,
        (p.height, omega (arith, linked.0, low), omega (arith, linked.0, low), (v, filled)),
      )

  -- Suppose that a digest belongs to one height, that every stored block stands one height above its
  -- parent, that above the next height the parent of every stored block is verified or notarized, and
  -- that no `put` of a finalized block fails. If a finalized block stands at most `n` heights above the
  -- next height, which is not 0, then the rounds of `get` and `repair` find the block of the next height
  -- within `n + 1` looks, if no other message comes between.
  pub repairs_find :
      (n next h : ℕ) (buffer : Buffer e) (s : State e) (w : Block e.prim)
      → 0 < next
      → CanPut e
      → IsLinked e height_of s
      → HasParents e next s
      → next ≤ h
      → h ≤ next + n
      → e.blocks.get_index h s.blocks ≡ some w
      → (b : Block e.prim) × (repairs e (suc n) next buffer s ≡ found b)
  repairs_find zero next h buffer s w positive can l hp above within stands =
      let same : next ≡ h = omega arith in
      (w, repairs-suc e laws height_of zero next buffer s ∙ rw (same, stands) refl)
  repairs_find (suc n) next h buffer s w positive can l hp above within stands =
      elim (Option-cases (e.blocks.get_index next s.blocks)) [
        | inr (b, here) ↦ (b, repairs-suc e laws height_of (suc n) next buffer s ∙ rw here refl)
        | inl missing ↦
            let (s', goes_on, l', hp', (j, lo, hi, (v, at_j))) =
              round-stores n next h buffer s w positive can l hp missing
                (elim (le_or_lt h next) [
                  | inl le ↦
                      let same : next ≡ h = omega arith in
                      cc (ap (λ i. e.blocks.get_index i s.blocks) same, missing, stands)
                  | inr lt ↦ lt
                ])
                within stands in
            let (b, ends) = repairs_find n next j buffer s' v positive can l' hp' lo hi at_j in
            (b, goes_on ∙ ends)
      ]
