-- ===== src/Syncer/Coherence/Orchestrate.antt =====
-- The messages of the finalizer keep the archives coherent.
use sahya_net.Prelude.{ℕ, ◌≡◌, refl, inl, inr, Option, none, some, Option-cases, Bool-cases, ltb}
use sahya_net.Types.Digest.{Digest}
use sahya_net.Types.Block.{Block}
use sahya_net.Syncer.Environment.{Environment, EnvironmentLaws}
use sahya_net.Syncer.Archive.{Stores-expect, expect}
use sahya_net.Syncer.Messages.{Orchestration, get_next, processed, repair}
use sahya_net.Syncer.State.{State, or_else, block_of, or_else-some}
use sahya_net.Syncer.Orchestrate.{
  on_get_next, on_processed, enqueue, repair_parent, repair_or_fetch, repair_gap, on_repair,
  on_orchestration,
}
use sahya_net.Syncer.Coherence.{IsBlockAt, IsCoherent, Ensures}
use sahya_net.Syncer.Coherence.Consensus.{verified-digest, notarized-digest}

module _ (e : Environment) (laws : EnvironmentLaws e) where
  repair_parent-IsCoherent :
      (target : Digest) (b : Block e.prim) (s : State e)
      → b.digest ≡ target
      → IsCoherent e s
      → Ensures e (IsCoherent e) (repair_parent e target b s)
  unfolding repair_parent
  repair_parent-IsCoherent target b s same c =
      elim (Option-cases (expect (e.blocks.put b.height target b s.blocks))) [
        | inl failed ↦ rw failed tt
        | inr (bs, ok) ↦ rw ok (record {
          verified = c.verified;
          notarized = c.notarized;
          finalized = c.finalized;
          blocks =
              Stores-expect e.blocks laws.blocks (IsBlockAt e) b.height target b s.blocks bs ok
                (refl, same) c.blocks;
        })
      ]

  enqueue-IsCoherent :
      (next start_next : ℕ) (s : State e)
      → IsCoherent e s
      → IsCoherent e (enqueue e next start_next s).0
  unfolding enqueue
  enqueue-IsCoherent next start_next s c = record {
    verified = c.verified;
    notarized = c.notarized;
    finalized = c.finalized;
    blocks = c.blocks;
  }

  repair_or_fetch-IsCoherent :
      (next start_next : ℕ) (target : Digest) (o : Option (Block e.prim)) (s : State e)
      → ((b : Block e.prim) → o ≡ some b → b.digest ≡ target)
      → IsCoherent e s
      → Ensures e (IsCoherent e) (repair_or_fetch e next start_next target o s)
  unfolding repair_or_fetch
  repair_or_fetch-IsCoherent next start_next target none s h c =
      enqueue-IsCoherent next start_next s c
  repair_or_fetch-IsCoherent next start_next target (some b) s h c =
      repair_parent-IsCoherent target b s (h b refl) c

  repair_gap-IsCoherent :
      (next : ℕ) (start : Option ℕ) (s : State e)
      → IsCoherent e s
      → Ensures e (IsCoherent e) (repair_gap e next start s)
  unfolding repair_gap
  repair_gap-IsCoherent next none s c = c
  repair_gap-IsCoherent next (some start_next) s c = elim (Bool-cases (ltb 0 next)) [
    | inr genesis ↦ rw genesis (enqueue-IsCoherent next start_next s c)
    | inl above ↦ elim (Option-cases (e.blocks.get_index start_next s.blocks)) [
      | inl missing ↦ rw (above, missing) tt
      | inr (gapped, found) ↦
          let checked = e.verified.get_key gapped.parent s.verified in
          let certified = block_of e (e.notarized.get_key gapped.parent s.notarized) in
          rw (above, found)
            (repair_or_fetch-IsCoherent next start_next gapped.parent (or_else checked certified) s
              (λ b h. elim (or_else-some checked certified b h) [
                | inl h0 ↦ verified-digest e laws s gapped.parent b c h0
                | inr h1 ↦ notarized-digest e laws s gapped.parent b c h1
              ])
              c)
    ]
  ]

  pub on_orchestration-IsCoherent :
      (o : Orchestration) (s : State e)
      → IsCoherent e s
      → Ensures e (IsCoherent e) (on_orchestration e o s)
  unfolding on_orchestration on_get_next on_processed on_repair
  on_orchestration-IsCoherent (get_next height) s c = c
  on_orchestration-IsCoherent (processed height d) s c = record {
    verified = c.verified;
    notarized = c.notarized;
    finalized = c.finalized;
    blocks = c.blocks;
  }
  on_orchestration-IsCoherent (repair next) s c =
      repair_gap-IsCoherent next (e.blocks.next_gap next s.blocks).1 s c
