-- ===== src/Pipeline/Consistent.antt =====
-- What holds of a node between two steps of the finalizer or the syncer, and how the syncer answers a
-- request for the next block.
use sahya_net.Prelude.{
  ℕ, ◌+◌, ◌≡◌, refl, ap, Bool, true, false, Option, none, some, List, [], ◌∷◌, ◌++◌, length, All,
  arith,
}
use sahya_net.Types.Block.{Block, eth_block_hash}
use sahya_net.Syncer.Environment.{Environment}
use sahya_net.Syncer.State.{State, Effect, respond_found, Buffer}
use sahya_net.Syncer.Orchestrate.{on_get_next, on_orchestration}
use sahya_net.Syncer.Actor.{orchestrator, cancel_views, cancel_useless, on_input, turn}
use sahya_net.Syncer.Coherence.{IsCoherent}
use sahya_net.Application.Finalizer.{
  Forkchoice, forkchoice_of, Finalizer, Wake, height_notify, new_block, wait,
}
use sahya_net.Pipeline.{
  Phase, looking, checking, persisting, reporting, repairing, waiting, Pipeline, found_answer,
  next_height, after_get, after_repair, orchestrator_get,
}

module _ (e : Environment) where
  -- Newest first, down from a height, and so many that they end above the first one.
  abbrev pub Descends : ℕ → List (Block e.prim) → Type 0
  Descends first [] = Unit
  Descends first (b ∷ rest) = (b.height ≡ first + length (b ∷ rest)) × Descends first rest

  abbrev pub IsStored : State e → Block e.prim → Type 0
  IsStored s b = e.blocks.get_index b.height s.blocks ≡ some b

  -- The forkchoice after the given blocks.
  abbrev pub forkchoice_after : Forkchoice → List (Block e.prim) → Forkchoice
  forkchoice_after f [] = f
  forkchoice_after f (b ∷ rest) = forkchoice_of (eth_block_hash e.prim b)

  abbrev pub PhaseHolds : Pipeline e → Phase e → Type 0
  PhaseHolds p looking = Unit
  PhaseHolds p (checking b) = e.blocks.get_index (next_height e p) p.syncer.blocks ≡ some b
  PhaseHolds p (persisting b) = e.blocks.get_index (next_height e p) p.syncer.blocks ≡ some b
  PhaseHolds p (reporting height d) = Unit
  PhaseHolds p repairing = Unit
  PhaseHolds p waiting = Unit

  -- From a finalizer at the height `first` with the forkchoice `f`.
  pub record IsConsistent (first : ℕ) (f : Forkchoice) (p : Pipeline e) : Type 0 where
    pub coherent : IsCoherent e p.syncer
    pub at_height : p.finalizer.last_indexed ≡ first + length p.committed
    pub in_order : Descends first p.committed
    pub all_stored : All (IsStored p.syncer) p.committed
    pub tip : p.finalizer.forkchoice ≡ forkchoice_after f p.committed
    pub found : PhaseHolds p p.phase

  pub All-stays :
      (s s' : State e) (l : List (Block e.prim))
      → ((b : Block e.prim) → IsStored s b → IsStored s' b)
      → All (IsStored s) l
      → All (IsStored s') l
  All-stays s s' [] f h = tt
  All-stays s s' (b ∷ l) f h = (f b h.0, All-stays s s' l f h.1)

  pub found_answer-append :
      (views : List ℕ) (l : List (Effect e))
      → found_answer e (cancel_views e views ++ l) ≡ found_answer e l
  unfolding found_answer
  found_answer-append [] l = refl
  found_answer-append (v ∷ views) l = found_answer-append views l

  pub get-turn :
      (buffer : Buffer e) (h : ℕ) (s : State e)
      → turn e buffer (orchestrator (orchestrator_get h)) s
        ≡ some (
          (cancel_useless e s).0,
          (cancel_useless e s).1 ++ respond_found (e.blocks.get_index h s.blocks) ∷ [],
        )
  unfolding turn on_input on_orchestration on_get_next cancel_useless orchestrator_get
  get-turn buffer h s = refl

  -- The answer to a request is what stands at the height.
  pub get-answer :
      (buffer : Buffer e) (h : ℕ) (s : State e) (o : Option (Block e.prim)) {s' : State e}
      {effects : List (Effect e)}
      → turn e buffer (orchestrator (orchestrator_get h)) s ≡ some (s', effects)
      → found_answer e effects ≡ some o
      → e.blocks.get_index h s.blocks ≡ o
  unfolding found_answer cancel_useless
  get-answer buffer h s o {s'} {effects} t a =
      let e1 : effects
          ≡ (cancel_useless e s).1 ++ respond_found (e.blocks.get_index h s.blocks) ∷ [] =
        cc (t, get-turn buffer h s) in
      cc (
        ap (found_answer e) e1,
        found_answer-append _ (respond_found (e.blocks.get_index h s.blocks) ∷ []),
        a,
      )

  pub wait_keeps :
      (w : Wake) (f : Finalizer)
      → ((wait e.prim w f).0.last_indexed ≡ f.last_indexed)
        × ((wait e.prim w f).0.forkchoice ≡ f.forkchoice)
  unfolding wait
  wait_keeps new_block f = (refl, refl)
  wait_keeps (height_notify height sender) f = ground arith

  pub after_repair-holds : (p : Pipeline e) (b : Bool) → PhaseHolds p (after_repair e b)
  after_repair-holds p true = tt
  after_repair-holds p false = tt

  pub after_get-holds :
      (p : Pipeline e) (o : Option (Block e.prim))
      → e.blocks.get_index (next_height e p) p.syncer.blocks ≡ o
      → PhaseHolds p (after_get e o)
  after_get-holds p none h = tt
  after_get-holds p (some b) h = h
