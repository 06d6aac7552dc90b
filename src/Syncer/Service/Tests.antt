-- ===== src/Syncer/Service/Tests.antt =====
-- The stored block of height 1 travels to a syncer that has nothing.
use sahya_net.Prelude.{true, ◌≡◌, refl, some, [], ◌∷◌, Bytes, arith, bytes_eq_refl}
use sahya_net.Types.Sample.Blocks.{child, child-IsBlock, child-rehash}
use sahya_net.Syncer.Environment.Sample.{environment, environment_laws}
use sahya_net.Syncer.Key.{notarized, finalized, new}
use sahya_net.Syncer.State.{respond_bytes, respond_bool, notify_finalizer}
use sahya_net.Syncer.Consensus.{find_block}
use sahya_net.Syncer.Resolve.{on_deliver, on_produce}
use sahya_net.Syncer.Service.{IsSound, notarized_travels, finalized_travels}
use sahya_net.Syncer.Scenario.{
  vote, notarized_child, start, stored, stored-IsCoherent, child_buffer,
}

child-IsSound : IsSound environment child
child-IsSound = record { range = child-IsBlock; hashed = child-rehash }

child_found : find_block environment child_buffer child.digest stored ≡ some child
unfolding find_block child_buffer
child_found = rw (bytes_eq_refl child.digest)

notarized_travels_example :
    (bytes : Bytes) × (on_produce environment child_buffer (new (notarized 3)) stored
      ≡ some (stored, respond_bytes bytes ∷ []))
    × (on_deliver environment (new (notarized 3)) bytes start
        ≡ some (
          record start { notarized = (3, child.digest, notarized_child) ∷ [] },
          respond_bool true ∷ [],
        ))
notarized_travels_example =
    notarized_travels environment environment_laws child_buffer 3 notarized_child stored start
      (omega arith) stored-IsCoherent refl child-IsSound refl refl

finalized_travels_example :
    (bytes : Bytes) × (on_produce environment child_buffer (new (finalized 1)) stored
      ≡ some (stored, respond_bytes bytes ∷ []))
    × (on_deliver environment (new (finalized 1)) bytes start
        ≡ some (
          record start {
            finalized = (1, child.digest, vote) ∷ [];
            blocks = (1, child.digest, child) ∷ [];
          },
          respond_bool true ∷ notify_finalizer ∷ [],
        ))
finalized_travels_example =
    finalized_travels environment environment_laws child_buffer 1 vote child stored start
      (omega arith) stored-IsCoherent refl refl refl child-IsSound refl refl refl
