-- ===== src/Pipeline/Restart/Tests.antt =====
-- The node of the sample starts again.
use sahya_net.Prelude.{ℕ, ◌≡◌, ◌⊎◌, ◌+◌, refl, none, some, [], ◌∷◌, retain, arith}
use sahya_net.Types.Sample.Blocks.{zero_hash, child}
use sahya_net.Syncer.Environment.Sample.{environment, environment_laws}
use sahya_net.Syncer.Coherence.{IsCoherent}
use sahya_net.Application.Finalizer
use sahya_net.Syncer.Actor.{cancel_useless}
use sahya_net.Syncer.Scenario.{child_buffer, child_buffer-IsBuffer}
use sahya_net.Pipeline.{checking, persisting, Pipeline, Step, look, accept, found_answer}
use sahya_net.Pipeline.Consistent.{Descends, get-turn}
use sahya_net.Pipeline.Restart.Calls.{InTurn, Life-tells}
use sahya_net.Pipeline.Restart.{started, Life, stepped, restarted}
use sahya_net.Pipeline.Restart.Sample.{storage, reopened, told, told-IsLeft, opens}

-- The node is stopped behind the call and in front of the sync; it tells the execution client of the
-- block again.
abbrev reopened_again : Pipeline environment
reopened_again = record (started zero_hash none (child ∷ []) reopened) {
  syncer = (cancel_useless environment reopened).0;
  phase = checking child;
}

look_up_again : Step environment (started zero_hash none (child ∷ []) reopened) reopened_again
unfolding found_answer cancel_useless retain sahya_net.Application.Finalizer.new
look_up_again =
    look child_buffer (some child) child_buffer-IsBuffer refl
      (get-turn environment child_buffer 1 reopened) refl

told_twice :
    Life storage "quartz" zero_hash
      (record reopened_again { phase = persisting child; calls = child ∷ child ∷ [] })
      []
unfolding sahya_net.Application.Finalizer.new
told_twice =
    stepped (stepped (restarted tt told told-IsLeft opens) look_up_again) (accept child refl)

Life-tells_example :
    Descends environment 0 []
    × ◌≡◌ {A = ℕ} 0 0
    × ◌≡◌ {A = ℕ} 0 0
    × IsCoherent environment (cancel_useless environment reopened).0
    × InTurn (child ∷ child ∷ [])
    × ((child.height ≡ 0) ⊎ (child.height ≡ 0 + 1))
unfolding sahya_net.Application.Finalizer.new
Life-tells_example = Life-tells environment_laws storage "quartz" zero_hash told_twice (omega arith)
