-- ===== src/Syncer/Coherence/Tests.antt =====
-- The loop on two messages: a block to store, and a delivery that is refused or panics.
use sahya_net.Prelude.{List, [], ◌∷◌}
use sahya_net.Types.Sample.Blocks.{child}
use sahya_net.Syncer.Environment.Sample.{environment, environment_laws}
use sahya_net.Syncer.Key.{notarized, new}
use sahya_net.Syncer.Messages.{store_verified, deliver}
use sahya_net.Syncer.State.{Buffer}
use sahya_net.Syncer.Actor.{Input, mailbox, handler, run}
use sahya_net.Syncer.Coherence.{IsCoherent, Ensures}
use sahya_net.Syncer.Coherence.Loop.{run-IsCoherent}
use sahya_net.Syncer.Scenario.{stored, stored-IsCoherent, child_buffer, child_buffer-IsBuffer}

abbrev two_messages : List (Buffer environment × Input environment)
two_messages =
    (child_buffer, mailbox (store_verified 4 child))
    ∷ (child_buffer, handler (deliver (new (notarized 4)) (4 ∷ 0 ∷ 9 ∷ 9 ∷ 9 ∷ 9 ∷ [])))
    ∷ []

run-IsCoherent_example :
    Ensures environment (IsCoherent environment) (run environment two_messages stored)
run-IsCoherent_example =
    run-IsCoherent environment environment_laws two_messages stored
      (child_buffer-IsBuffer, (child_buffer-IsBuffer, tt)) stored-IsCoherent
