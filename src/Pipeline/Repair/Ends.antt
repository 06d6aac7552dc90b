-- ===== src/Pipeline/Repair/Ends.antt =====
-- The rounds of `get` and `repair` (application/src/finalizer.rs) come to an end.
use sahya_net.Prelude.{
  ℕ, zero, suc, ◌≡◌, ◌≢◌, refl, ap, ◌∙◌, inl, inr, true, false, ltb, none, some, [], ◌∷◌,
  Option-cases, arith, retain,
}
use sahya_net.Types.Digest.{Digest}
use sahya_net.Syncer.Environment.{Environment, EnvironmentLaws}
use sahya_net.Syncer.State.{State, respond_found, Buffer}
use sahya_net.Syncer.Actor.{orchestrator, cancel_useless, turn}
use sahya_net.Pipeline.{found_answer, repair_answer, orchestrator_repair}
use sahya_net.Pipeline.Consistent.{get-turn, found_answer-append}
use sahya_net.Pipeline.Repair.{out_of_fuel, looked_at, mended, repairs, IsLinked, GapWithin}
use sahya_net.Pipeline.Repair.Moves.{
  Moved, cancel-IsLinked, repair-turn, Moved-IsLinked, Moved-GapWithin,
}

module _ (e : Environment) (laws : EnvironmentLaws e) (height_of : Digest → ℕ) where
  -- Each round looks at the next height and then repairs.
  pub repairs-suc :
      (fuel next : ℕ) (buffer : Buffer e) (s : State e)
      → repairs e (suc fuel) next buffer s
        ≡ looked_at e
            (λ s'.
              mended e
                (λ s''. repairs e fuel next buffer s'')
                (turn e buffer (orchestrator (orchestrator_repair next)) s'))
            (cancel_useless e s).0
            (some (e.blocks.get_index next s.blocks))
  unfolding repairs found_answer cancel_useless
  repairs-suc fuel next buffer s =
      rw
        (
          get-turn e buffer next s,
          found_answer-append e (retain (λ view. ltb view s.latest_view) s.outstanding_notarize)
              (respond_found (e.blocks.get_index next s.blocks) ∷ []),
        )
        refl

  -- The state in which a repair is handled: what it looks at is as before the round.
  abbrev repairing_from : State e → State e
  repairing_from s = (cancel_useless e (cancel_useless e s).0).0

  -- A round ends the loop or moves a block, and then the rest of the rounds decides.
  round :
      (fuel next : ℕ) (buffer : Buffer e) (s : State e)
      → IsLinked e height_of s
      → ((s' : State e)
          → e.blocks.get_index next s.blocks ≡ none
          → Moved e height_of next (repairing_from s) s'
          → repairs e fuel next buffer s' ≢ out_of_fuel)
      → repairs e (suc fuel) next buffer s ≢ out_of_fuel
  round fuel next buffer s l rest more =
      let s1 = (cancel_useless e s).0 in
      elim (Option-cases (e.blocks.get_index next s.blocks)) [
        | inr (b, stands) ↦ cc (repairs-suc fuel next buffer s, stands, more)
        | inl missing ↦
            elim (Option-cases (turn e buffer (orchestrator (orchestrator_repair next)) s1)) [
              | inl failed ↦ cc (repairs-suc fuel next buffer s, missing, failed, more)
              | inr ((s2, effects), done) ↦ elim (Option-cases (repair_answer e effects)) [
                | inl dropped ↦ cc (repairs-suc fuel next buffer s, missing, done, dropped, more)
                | inr (false, waits) ↦
                    cc (repairs-suc fuel next buffer s, missing, done, waits, more)
                | inr (true, again) ↦
                    rest s2 missing
                      (repair-turn e laws height_of buffer next s1 s2 effects
                        (cancel-IsLinked e laws height_of s l) done again)
                      (cc (repairs-suc fuel next buffer s, missing, done, again, more))
              ]
            ]
      ]

  repairing_from-GapWithin :
      (n next : ℕ) (s : State e) → GapWithin e n next s → GapWithin e n next (repairing_from s)
  unfolding cancel_useless
  repairing_from-GapWithin n next s within = within

  repairing_from-blocks : (s : State e) → (repairing_from s).blocks ≡ s.blocks
  unfolding cancel_useless
  repairing_from-blocks s = refl

  -- Suppose that a digest belongs to one height, that every stored block stands one height above its
  -- parent, and that, if nothing stands at the next height, the blocks above it start at most `fuel`
  -- heights above it. Then the rounds of `get` and `repair` end within `fuel + 1` looks, if no other
  -- message comes between: with the block of the next height, with a wait, or with a panic.
  pub repairs_end :
      (fuel next : ℕ) (buffer : Buffer e) (s : State e)
      → IsLinked e height_of s
      → GapWithin e fuel next s
      → repairs e (suc fuel) next buffer s ≢ out_of_fuel
  repairs_end zero next buffer s l within = round zero next buffer s l (λ s' missing m.
      let at = repairing_from-GapWithin zero next s within in
      let above =
        (laws.blocks_immutable.next_gap-start next m.end (repairing_from s).blocks m.at_end).0 in
      let none_at = ap (λ bs. e.blocks.get_index next bs) (repairing_from-blocks s) ∙ missing in
      absurd (omega (arith, at m.end none_at m.at_end, above)))
  repairs_end (suc n) next buffer s l within = round (suc n) next buffer s l (λ s' missing m.
      let none_at = ap (λ bs. e.blocks.get_index next bs) (repairing_from-blocks s) ∙ missing in
      repairs_end n next buffer s'
        (Moved-IsLinked e laws height_of next (repairing_from s) s' m
          (cancel-IsLinked e laws height_of _ (cancel-IsLinked e laws height_of s l)))
        (Moved-GapWithin e laws height_of n next (repairing_from s) s' m none_at
          (repairing_from-GapWithin (suc n) next s within)))
