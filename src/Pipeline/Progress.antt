-- ===== src/Pipeline/Progress.antt =====
-- A node whose syncer has the next blocks can commit them all.
use sahya_net.Prelude.{
  ℕ, zero, suc, ◌+◌, ◌^◌, ◌<◌, ◌≤◌, ◌≡◌, refl, ap, ◌∙◌, retain, ltb, some, List, [], ◌∷◌, ◌++◌,
  arith,
}
use sahya_net.Types.Digest.{Digest}
use sahya_net.Types.Block.{Block}
use sahya_net.Syncer.Environment.{Environment}
use sahya_net.Syncer.State.{State, Effect, respond_found, Buffer}
use sahya_net.Syncer.Orchestrate.{on_processed, on_orchestration}
use sahya_net.Syncer.Actor.{orchestrator, cancel_useless, on_input, turn}
use sahya_net.Syncer.Coherence.{IsBuffer}
use sahya_net.Application.Finalizer.{Finalizer, commit}
use sahya_net.Pipeline.{
  looking, Pipeline, found_answer, next_height, orchestrator_processed, look, accept, persist,
  report, Reach, here, later,
}
use sahya_net.Pipeline.Consistent.{get-turn, found_answer-append}

module _ (e : Environment) where
  -- A block stands at each of the next heights.
  abbrev pub HasBlocks : ℕ → ℕ → State e → Type 0
  HasBlocks last n s =
      (h : ℕ)
      → last < h
      → h ≤ last + n
      → (b : Block e.prim) × (e.blocks.get_index h s.blocks ≡ some b)

  append-Reach : {p q r : Pipeline e} → Reach e p q → Reach e q r → Reach e p r
  append-Reach a here = a
  append-Reach a (later b st) = later (append-Reach a b) st

  report-turn :
      (buffer : Buffer e) (h : ℕ) (d : Digest) (s : State e)
      → (s' : State e) × (effects : List (Effect e)) × (turn e buffer
            (orchestrator (orchestrator_processed h d))
            s
          ≡ some (s', effects))
        × (s'.blocks ≡ s.blocks)
  unfolding turn on_input on_orchestration on_processed cancel_useless orchestrator_processed
  report-turn buffer h d s = (_, _, refl, refl)

  get-found :
      (h : ℕ) (s : State e) {b : Block e.prim}
      → e.blocks.get_index h s.blocks ≡ some b
      → found_answer e
          ((cancel_useless e s).1 ++ respond_found (e.blocks.get_index h s.blocks) ∷ [])
        ≡ some (some b)
  unfolding cancel_useless found_answer
  get-found h s found =
      found_answer-append e (retain (λ view. ltb view s.latest_view) s.outstanding_notarize)
        (respond_found (e.blocks.get_index h s.blocks) ∷ [])
      ∙ ap some found

  get-blocks : (s : State e) → (cancel_useless e s).0.blocks ≡ s.blocks
  unfolding cancel_useless
  get-blocks s = refl

  commit-last :
      (h : ℕ) (b : Block e.prim) (f : Finalizer) → (commit e.prim h b f).0.last_indexed ≡ h
  unfolding commit
  commit-last h b f = refl

  -- One height: the block is looked up, called valid, committed and reported.
  one_height :
      (buffer : Buffer e) (p : Pipeline e) (b : Block e.prim)
      → IsBuffer e buffer
      → p.phase ≡ looking
      → p.finalizer.last_indexed + 1 < 2 ^ 64
      → e.blocks.get_index (p.finalizer.last_indexed + 1) p.syncer.blocks ≡ some b
      → (q : Pipeline e) × Reach e p q
        × (q.phase ≡ looking)
        × (q.finalizer.last_indexed ≡ p.finalizer.last_indexed + 1)
        × (q.syncer.blocks ≡ p.syncer.blocks)
        × (q.committed ≡ b ∷ p.committed)
  one_height buffer p b hb at range found =
      let h = next_height e p in
      let same : h ≡ p.finalizer.last_indexed + 1 = omega arith in
      let s = (cancel_useless e p.syncer).0 in
      let (s', effects, done, kept) = report-turn buffer h b.digest s in
      let found' : e.blocks.get_index h p.syncer.blocks ≡ some b = rw same found in
      (
        record {
          syncer = s';
          finalizer = (commit e.prim h b p.finalizer).0;
          phase = looking;
          calls = b ∷ p.calls;
          committed = b ∷ p.committed;
        },
        later
            (later
              (later
                (later here (
                  look buffer (some b) hb at (get-turn e buffer h p.syncer)
                    (get-found h p.syncer found')))
                (accept b refl))
              (persist b refl))
            (report buffer h b.digest hb refl done),
        refl,
        commit-last h b p.finalizer ∙ same,
        kept ∙ get-blocks p.syncer,
        refl,
      )

  -- If the finalizer is at the head of its loop and the syncer has a block at each of the next `n`
  -- heights, which fit a u64, then the two can go on, with an execution client that calls the payloads
  -- valid, until the finalizer has indexed all `n` heights and is at the head of its loop again.
  pub catches_up :
      (buffer : Buffer e) (n : ℕ) (p : Pipeline e)
      → IsBuffer e buffer
      → p.phase ≡ looking
      → p.finalizer.last_indexed + n < 2 ^ 64
      → HasBlocks p.finalizer.last_indexed n p.syncer
      → (q : Pipeline e) × Reach e p q
        × (q.phase ≡ looking)
        × (q.finalizer.last_indexed ≡ p.finalizer.last_indexed + n)
  catches_up buffer zero p hb at range has = (p, here, at, omega arith)
  catches_up buffer (suc n) p hb at range has =
      let (b, found) = has (p.finalizer.last_indexed + 1) (omega arith) (omega arith) in
      let (q, r, at', last, kept, rest) = one_height buffer p b hb at (omega arith) found in
      let (q', r', at'', last') = catches_up buffer n q hb at' (omega arith) (λ h above below.
        let (c, stands) = has h (omega arith) (omega arith) in
        (c, ap (λ bs. e.blocks.get_index h bs) kept ∙ stands)) in
      (q', append-Reach r r', at'', omega arith)
