-- ===== src/Syncer/Agreement/Orchestrate.antt =====
-- The messages of the finalizer: a repair moves or fetches the parent of a final block.
use sahya_net.Prelude.{
  ℕ, ◌≡◌, refl, inl, inr, Option, none, some, false, List, [], ◌∷◌, All, Option-cases, Bool-cases,
  ltb,
}
use sahya_net.Types.Digest.{Digest}
use sahya_net.Types.Block.{Block}
use sahya_net.Syncer.Environment.{Environment, EnvironmentLaws}
use sahya_net.Syncer.Archive.{Stores-expect, expect}
use sahya_net.Syncer.Messages.{Orchestration, get_next, processed, repair}
use sahya_net.Syncer.State.{State, Effect, respond_bool, or_else, block_of, or_else-some}
use sahya_net.Syncer.Orchestrate.{
  on_get_next, on_processed, fetch_heights, enqueue, repair_parent, repair_or_fetch, repair_gap,
  on_repair, on_orchestration,
}
use sahya_net.Syncer.Coherence.{IsCoherent}
use sahya_net.Syncer.Agreement.{
  Network, IsGenuine, OnlyFinal, FetchesFinal, Ends, digest-IsFinalKey, finalized-IsFinalKey,
}
use sahya_net.Syncer.Agreement.Consensus.{verified-IsGenuine, notarized-IsGenuine}

module _ {e : Environment} (laws : EnvironmentLaws e) (net : Network e) where
  fetch_heights-fetches :
      (heights : List ℕ) (last : List (Effect e))
      → All (FetchesFinal net) last
      → All (FetchesFinal net) (fetch_heights e heights last)
  fetch_heights-fetches [] last h = h
  fetch_heights-fetches (height ∷ rest) last h =
      (finalized-IsFinalKey net height, fetch_heights-fetches rest last h)

  enqueue-fetches :
      (next start_next : ℕ) (s : State e) → All (FetchesFinal net) (enqueue e next start_next s).1
  unfolding enqueue
  enqueue-fetches next start_next s = fetch_heights-fetches _ (respond_bool false ∷ []) (tt, tt)

  enqueue-OnlyFinal :
      (next start_next : ℕ) (s : State e)
      → OnlyFinal net s
      → OnlyFinal net (enqueue e next start_next s).0
  unfolding enqueue
  enqueue-OnlyFinal next start_next s c = record {
    verified = c.verified;
    notarized = c.notarized;
    blocks = c.blocks;
  }

  repair_or_fetch-Ends :
      (next start_next : ℕ) (target : Digest) (o : Option (Block e.prim)) (s : State e)
      → net.Final target
      → ((b : Block e.prim) → o ≡ some b → IsGenuine e b)
      → OnlyFinal net s
      → Ends net (repair_or_fetch e next start_next target o s)
  unfolding repair_or_fetch repair_parent
  repair_or_fetch-Ends next start_next target none s final genuine c = (
    enqueue-OnlyFinal next start_next s c,
    (digest-IsFinalKey net target final, enqueue-fetches next start_next s),
  )
  repair_or_fetch-Ends next start_next target (some b) s final genuine c =
      elim (Option-cases (expect (e.blocks.put b.height target b s.blocks))) [
        | inl failed ↦ rw failed tt
        | inr (bs, ok) ↦ rw ok (
          record {
            verified = c.verified;
            notarized = c.notarized;
            blocks =
                Stores-expect e.blocks laws.blocks (λ i k b. IsGenuine e b × net.Final k) b.height
                  target b s.blocks bs ok (genuine b refl, final) c.blocks;
          },
          (tt, tt),
        )
      ]

  -- The parent of a stored block is final.
  parent-Final :
      (i : ℕ) (s : State e) (b : Block e.prim)
      → IsCoherent e s
      → OnlyFinal net s
      → e.blocks.get_index i s.blocks ≡ some b
      → net.Final b.parent
  parent-Final i s b coherent c found =
      let (k, held) = laws.blocks.get_index-Holds i s.blocks b found in
      let (genuine, final) = c.blocks i k b held in
      net.ancestors b genuine (rw (coherent.blocks i k b held).1 final)

  repair_gap-Ends :
      (next : ℕ) (start : Option ℕ) (s : State e)
      → IsCoherent e s
      → OnlyFinal net s
      → Ends net (repair_gap e next start s)
  unfolding repair_gap
  repair_gap-Ends next none s coherent c = (c, (tt, tt))
  repair_gap-Ends next (some start_next) s coherent c = elim (Bool-cases (ltb 0 next)) [
    | inr genesis ↦
        rw genesis (enqueue-OnlyFinal next start_next s c, enqueue-fetches next start_next s)
    | inl above ↦ elim (Option-cases (e.blocks.get_index start_next s.blocks)) [
      | inl missing ↦ rw (above, missing) tt
      | inr (gapped, found) ↦
          let target = gapped.parent in
          let checked = e.verified.get_key target s.verified in
          let certified = block_of e (e.notarized.get_key target s.notarized) in
          rw (above, found)
            (repair_or_fetch-Ends next start_next target (or_else checked certified) s
              (parent-Final start_next s gapped coherent c found)
              (λ b h. elim (or_else-some checked certified b h) [
                | inl h0 ↦ verified-IsGenuine laws net s target b c h0
                | inr h1 ↦ notarized-IsGenuine laws net s target b c h1
              ])
              c)
    ]
  ]

  pub on_orchestration-Ends :
      (o : Orchestration) (s : State e)
      → IsCoherent e s
      → OnlyFinal net s
      → Ends net (on_orchestration e o s)
  unfolding on_orchestration on_get_next on_processed on_repair
  on_orchestration-Ends (get_next height) s coherent c = (c, (tt, tt))
  on_orchestration-Ends (processed height d) s coherent c =
      (record { verified = c.verified; notarized = c.notarized; blocks = c.blocks }, (tt, (tt, tt)))
  on_orchestration-Ends (repair next) s coherent c =
      repair_gap-Ends next (e.blocks.next_gap next s.blocks).1 s coherent c
