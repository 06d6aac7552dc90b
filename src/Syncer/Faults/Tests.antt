-- ===== src/Syncer/Faults/Tests.antt =====
-- Bytes that no honest node sends.
use sahya_net.Prelude.{◌≡◌, refl, ◌++◌, none, some, List, [], ◌∷◌, arith, replicate, false}
use sahya_net.Syncer.Environment.Sample.{environment, environment_laws, vote_certificate}
use sahya_net.Syncer.Key.{MultiIndex, notarized, new, read_cfg}
use sahya_net.Syncer.Key.RoundTrip.{to_value-new}
use sahya_net.Types.Certified
use sahya_net.Syncer.State.{Effect, respond_bool}
use sahya_net.Syncer.Resolve.{refuse, deliver_value, on_deliver, on_produce}
use sahya_net.Syncer.Faults.{refused_unchanged, produce_bad_key_panics, deliver_truncated_panics}
use sahya_net.Syncer.Scenario.{vote, stored, child_buffer}

-- nothing is a certificate here
empty_refused :
    on_deliver environment (new (notarized 3)) [] stored ≡ some (stored, respond_bool false ∷ [])
unfolding on_deliver deliver_value refuse Certified.read_cfg
empty_refused = rw (to_value-new (notarized 3) (omega arith))

abbrev no_effects : List (Effect environment)
no_effects = []

refused_unchanged_example : (stored ≡ stored) × (no_effects ≡ [])
refused_unchanged_example =
    refused_unchanged environment (new (notarized 3)) [] stored stored [] empty_refused

produce_bad_key_panics_example :
    (key : MultiIndex) × (read_cfg (3 ∷ replicate 32 0) ≡ some (key, []))
    × (on_produce environment child_buffer key stored ≡ none)
produce_bad_key_panics_example =
    produce_bad_key_panics environment child_buffer 3 (replicate 32 0) stored refl (omega arith)

deliver_truncated_panics_example :
    on_deliver environment (new (notarized 3)) (vote_certificate.write vote ++ 0 ∷ []) stored ≡ none
deliver_truncated_panics_example =
    deliver_truncated_panics environment environment_laws 3 vote (0 ∷ []) stored (omega arith)
      (omega arith)
