-- ===== src/Pipeline/Repair/Moves.antt =====
-- What a repair that is answered with `true` has done (syncer/src/actor.rs): it has moved the block
-- below the gap's end to the finalized blocks.
use sahya_net.Prelude.{
  le_or_lt, ℕ, suc, ◌+◌, ◌-◌, ◌≡◌, refl, sym, ap, ◌∙◌, inl, inr, true, ltb, Option, none, some,
  List, ◌++◌, Option-cases, Bool-cases, arith,
}
use sahya_net.Types.Digest.{Digest}
use sahya_net.Types.Block.{Block}
use sahya_net.Syncer.Environment.{Environment, EnvironmentLaws}
use sahya_net.Syncer.Archive.{expect, expect-some, Stores-expect}
use sahya_net.Syncer.Key.{digest, new}
use sahya_net.Syncer.State.{
  State, Effect, Turn, Buffer, or_else, block_of, or_else-some, block_of-some,
}
use sahya_net.Syncer.Orchestrate.{
  enqueue, repair_parent, repair_or_fetch, repair_gap, on_repair, on_orchestration,
}
use sahya_net.Syncer.Actor.{orchestrator, cancel_useless, on_input, turn}
use sahya_net.Pipeline.{repair_answer, orchestrator_repair}
use sahya_net.Pipeline.Repair.{LinksBy, IsLinked, GapWithin}
use sahya_net.Pipeline.Repair.Answers.{
  repair_answer-append, enqueue-false, fetch-answer, same_answer, same_state,
}

module _ (e : Environment) where
  -- A repair moves the parent of the gap's end to the finalized blocks.
  pub record Moved (height_of : Digest → ℕ) (next : ℕ) (s s' : State e) : Type 0 where
    pub end : ℕ
    pub block : Block e.prim
    pub target : Digest
    pub at_end : (e.blocks.next_gap next s.blocks).1 ≡ some end
    pub below : block.height ≡ end - 1
    pub links : LinksBy e height_of target block
    pub put : expect (e.blocks.put block.height target block s.blocks) ≡ some s'.blocks
    pub verified_same : s'.verified ≡ s.verified
    pub notarized_same : s'.notarized ≡ s.notarized

module _ (e : Environment) (laws : EnvironmentLaws e) (height_of : Digest → ℕ) where
  -- The block that a repair finds has the digest's height.
  pub found-LinksBy :
      (target : Digest) (s : State e) (b : Block e.prim)
      → IsLinked e height_of s
      → or_else
          (e.verified.get_key target s.verified)
          (block_of e (e.notarized.get_key target s.notarized))
        ≡ some b
      → LinksBy e height_of target b
  found-LinksBy target s b l h = elim (or_else-some _ _ b h) [
    | inl v ↦
        let (i, held) = laws.verified.get_key-Holds target s.verified b v in
        l.verified i target b held
    | inr n ↦
        let (c, got, same) = block_of-some e (e.notarized.get_key target s.notarized) b n in
        let (i, held) = laws.notarized.get_key-Holds target s.notarized c got in
        rw (sym same) (l.notarized i target c held)
  ]

  pub gapped-height :
      (g : ℕ) (s : State e) (b : Block e.prim)
      → IsLinked e height_of s
      → e.blocks.get_index g s.blocks ≡ some b
      → height_of b.parent ≡ g - 1
  gapped-height g s b l h =
      let (k, held) = laws.blocks.get_index-Holds g s.blocks b h in
      let at = l.blocks g k b held in omega (arith, at.0, at.1.1)

  repair_or_fetch-true :
      (next g : ℕ) (target : Digest) (o : Option (Block e.prim)) (s s' : State e)
      (effects : List (Effect e))
      → (e.blocks.next_gap next s.blocks).1 ≡ some g
      → height_of target ≡ g - 1
      → ((b : Block e.prim) → o ≡ some b → LinksBy e height_of target b)
      → repair_or_fetch e next g target o s ≡ some (s', effects)
      → repair_answer e effects ≡ some true
      → Moved e height_of next s s'
  unfolding repair_or_fetch repair_parent
  repair_or_fetch-true next g target none s s' effects at low links t a = cc (
    same_answer e t,
    fetch-answer e (new (digest target)) (enqueue e next g s).1,
    enqueue-false e next g s,
    a,
  )
  repair_or_fetch-true next g target (some b) s s' effects at low links t a =
      elim (Option-cases (expect (e.blocks.put b.height target b s.blocks))) [
        | inl failed ↦ cc
        | inr (bs, ok) ↦
            let same : s' ≡ record s { blocks = bs } = same_state e (rw ok at t) in
            record {
              end = g;
              block = b;
              target = target;
              at_end = at;
              below = (let eq = links b refl in omega (arith, eq.0, low));
              links = links b refl;
              put = ok ∙ ap some (sym (ap (λ r. r.blocks) same));
              verified_same = ap (λ r. r.verified) same;
              notarized_same = ap (λ r. r.notarized) same;
            }
      ]

  repair_gap-true :
      (next : ℕ) (o : Option ℕ) (s s' : State e) (effects : List (Effect e))
      → (e.blocks.next_gap next s.blocks).1 ≡ o
      → IsLinked e height_of s
      → repair_gap e next o s ≡ some (s', effects)
      → repair_answer e effects ≡ some true
      → Moved e height_of next s s'
  unfolding repair_gap repair_answer
  repair_gap-true next none s s' effects at l t a = cc (same_answer e t, a)
  repair_gap-true next (some g) s s' effects at l t a = elim (Bool-cases (ltb 0 next)) [
    | inr genesis ↦ cc (same_answer e (rw genesis at t), enqueue-false e next g s, a)
    | inl above ↦ elim (Option-cases (e.blocks.get_index g s.blocks)) [
      | inl missing ↦ cc
      | inr (gapped, at_g) ↦
          repair_or_fetch-true next g gapped.parent
            (or_else (e.verified.get_key gapped.parent s.verified)
              (block_of e (e.notarized.get_key gapped.parent s.notarized)))
            s s' effects at (gapped-height g s gapped l at_g)
            (λ b h. found-LinksBy gapped.parent s b l h) (rw (above, at_g) at t) a
    ]
  ]

  -- What a turn looks at is not changed by the cancelled requests.
  pub cancel-IsLinked :
      (s : State e) → IsLinked e height_of s → IsLinked e height_of (cancel_useless e s).0
  unfolding cancel_useless
  cancel-IsLinked s l = record { verified = l.verified; notarized = l.notarized; blocks = l.blocks }

  pub cancel-answer :
      (s : State e) (l : List (Effect e))
      → repair_answer e ((cancel_useless e s).1 ++ l) ≡ repair_answer e l
  unfolding cancel_useless
  cancel-answer s l = repair_answer-append e _ l

  pub repair-turn :
      (buffer : Buffer e) (next : ℕ) (s s' : State e) (effects : List (Effect e))
      → IsLinked e height_of s
      → turn e buffer (orchestrator (orchestrator_repair next)) s ≡ some (s', effects)
      → repair_answer e effects ≡ some true
      → Moved e height_of next (cancel_useless e s).0 s'
  unfolding turn on_input on_orchestration on_repair orchestrator_repair
  repair-turn buffer next s s' effects l t a =
      let s1 = (cancel_useless e s).0 in
      elim (Option-cases (repair_gap e next (e.blocks.next_gap next s1.blocks).1 s1)) [
        | inl failed ↦ cc
        | inr (r, ok) ↦
            let done : ◌≡◌ {A = Turn e} (some (r.0, (cancel_useless e s).1 ++ r.1))
                (some (s', effects)) =
              rw ok at t in
            repair_gap-true next (e.blocks.next_gap next s1.blocks).1 s1 s' r.1 refl
              (cancel-IsLinked s l) (ok ∙ ap (λ x. some (x, r.1)) (sym (same_state e done)))
              (cc (cancel-answer s r.1, same_answer e done, a))
      ]

  pub Moved-IsLinked :
      (next : ℕ) (s s' : State e)
      → Moved e height_of next s s'
      → IsLinked e height_of s
      → IsLinked e height_of s'
  Moved-IsLinked next s s' m l = record {
    verified = rw m.verified_same l.verified;
    notarized = rw m.notarized_same l.notarized;
    blocks =
        Stores-expect e.blocks laws.blocks (λ i k b. (b.height ≡ i) × LinksBy e height_of k b)
          m.block.height m.target m.block s.blocks s'.blocks m.put (refl, m.links) l.blocks;
  }

  pub Moved-GapWithin :
      (n next : ℕ) (s s' : State e)
      → Moved e height_of next s s'
      → e.blocks.get_index next s.blocks ≡ none
      → GapWithin e (suc n) next s
      → GapWithin e n next s'
  Moved-GapWithin n next s s' m missing within g' missing' at' =
      let stored' =
        expect-some (e.blocks.put m.block.height m.target m.block s.blocks) s'.blocks m.put in
      let (w, filled) =
        laws.blocks_immutable.put-fills m.block.height m.target m.block s.blocks s'.blocks
          stored' in
      let low = within m.end missing m.at_end in
      let above = (laws.blocks_immutable.next_gap-start next m.end s.blocks m.at_end).0 in
      elim (le_or_lt g' (next + n)) [
        | inl done ↦ done
        | inr far ↦ elim (le_or_lt m.block.height next) [
          | inl at_next ↦
              let here : m.block.height ≡ next = omega (arith, m.below) in
              cc (filled, ap (λ h. e.blocks.get_index h s'.blocks) here, missing')
          | inr behind ↦ cc (
            filled,
            laws.blocks_immutable.next_gap-least next g' m.block.height s'.blocks missing' at'
                behind (omega (arith, m.below)),
          )
        ]
      ]
