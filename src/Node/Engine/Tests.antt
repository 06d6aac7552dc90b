-- ===== src/Node/Engine/Tests.antt =====
-- The node of the sample machine is the first participant.
use sahya_net.Prelude.{ℕ, ◌≡◌, refl, ==_iff, some, [], ◌∷◌, get_elem?, arith}
use sahya_net.Syncer.Registry
use sahya_net.Syncer.Registry.{view_eq}
use sahya_net.Syncer.Registry.Fresh.{last_index}
use sahya_net.Node.Sample.{host}
use sahya_net.Node.Startup.{start}
use sahya_net.Node.Scenario.{one_file, flags, prepared, runtime, any_level, starts}
use sahya_net.Node.Committee.{peers_of}
use sahya_net.Node.Engine.{Engine, new}
use sahya_net.Node.Engine.Knows.{run_node-knows_itself, keys}

abbrev public_of : ℕ → ℕ
public_of p = p

abbrev engine : Engine host ℕ
engine =
    new host (keys host ==_iff public_of (λ p n. p ∷ [])) public_of (λ p n. p ∷ [])
      (start host flags prepared).engine

run_node-knows_itself_example :
    (i : ℕ) × (Registry.is_participant
        (keys host ==_iff public_of (λ p n. p ∷ []))
        (host.public_key engine.simplex.crypto)
        engine.simplex.supervisor
      ≡ some i)
    × (get_elem? (start host flags prepared).peer_set.1 i
        ≡ some (
          host.public_key (start host flags prepared).engine.signer,
          (start host flags prepared).network.dialable,
        ))
unfolding start last_index peers_of
run_node-knows_itself_example =
    run_node-knows_itself host ==_iff public_of (λ p n. p ∷ []) any_level flags one_file runtime
      (start host flags prepared) starts (refl, (refl, tt)) (omega arith)
