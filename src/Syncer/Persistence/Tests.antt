-- ===== src/Syncer/Persistence/Tests.antt =====
-- A second block and a second finalization for a height that is taken.
use sahya_net.Prelude.{refl, List, [], ◌∷◌}
use sahya_net.Types.Sample.Blocks.{child}
use sahya_net.Syncer.Environment.Sample.{environment, environment_laws}
use sahya_net.Syncer.Messages.{finalize}
use sahya_net.Syncer.State.{Buffer}
use sahya_net.Syncer.Actor.{Input, mailbox, run}
use sahya_net.Syncer.Coherence.{Ensures}
use sahya_net.Syncer.Persistence.{Has}
use sahya_net.Syncer.Persistence.Loop.{run-keeps_finalized}
use sahya_net.Syncer.Scenario.{vote, stored, child_buffer}

abbrev finalized_again : List (Buffer environment × Input environment)
finalized_again =
    (child_buffer, mailbox (finalize (record { view = 9; payload = child.digest }))) ∷ []

run-keeps_finalized_example :
    Ensures environment (Has environment 1 child 1 vote) (run environment finalized_again stored)
run-keeps_finalized_example =
    run-keeps_finalized environment environment_laws 1 child 1 vote finalized_again stored
      (record { block_at = refl; finalization_at = refl })
