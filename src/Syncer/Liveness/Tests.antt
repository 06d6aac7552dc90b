-- ===== src/Syncer/Liveness/Tests.antt =====
-- Four messages, one on each path of the loop.
use sahya_net.Prelude.{refl, List, [], ◌∷◌, arith}
use sahya_net.Types.Certified
use sahya_net.Syncer.Environment.Sample.{environment, environment_laws}
use sahya_net.Syncer.Key.{notarized, finalized, new}
use sahya_net.Syncer.Key.RoundTrip.{to_value-new}
use sahya_net.Syncer.Messages.{finalize, repair, deliver, produce}
use sahya_net.Syncer.State.{Buffer}
use sahya_net.Syncer.Actor.{Input, mailbox, orchestrator, handler, run}
use sahya_net.Syncer.Liveness.{IsHealthy, IsWhole, Returns, run-Returns}
use sahya_net.Syncer.Scenario.{vote, stored, child_buffer}

environment-IsHealthy : IsHealthy environment
environment-IsHealthy = record {
  verified = λ i k v s. (_, refl);
  notarized = λ i k v s. (_, refl);
  finalized = λ i k v s. (_, refl);
  blocks = λ i k v s. (_, refl);
}

nothing-IsWhole : IsWhole environment (notarized 4) []
unfolding Certified.read_cfg
nothing-IsWhole h = cc

abbrev four_messages : List (Buffer environment × Input environment)
four_messages =
    (child_buffer, mailbox (finalize vote))
    ∷ (child_buffer, orchestrator (repair 1))
    ∷ (child_buffer, handler (deliver (new (notarized 4)) []))
    ∷ (child_buffer, handler (produce (new (finalized 1))))
    ∷ []

run-Returns_example : Returns environment (run environment four_messages stored)
run-Returns_example =
    run-Returns environment environment_laws environment-IsHealthy four_messages stored (
      tt,
      (
        tt,
        (
          (notarized 4, to_value-new (notarized 4) (omega arith), nothing-IsWhole),
          ((finalized 1, to_value-new (finalized 1) (omega arith)), tt),
        ),
      ),
    )
