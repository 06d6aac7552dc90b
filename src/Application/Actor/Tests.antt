-- ===== src/Application/Actor/Tests.antt =====
-- A proposal and a vote on the genesis block.
use sahya_net.Prelude.{◌≡◌, refl, ◌⊎◌, true, false, none, some, List, [], ◌∷◌, ◌++◌}
use sahya_net.Types.Digest.{Digest}
use sahya_net.Types.Sample.{sample}
use sahya_net.Types.Sample.Blocks.{zero_hash, root, child}
use sahya_net.Application.Verify.{Extends}
use sahya_net.Application.Proposal.Tests.{answers, on_root}
use sahya_net.Application.Actor.{
  State, Answers, Effect, respond_vote, get, store_verified, request_parent, on_verify,
}
use sahya_net.Application.Actor.Votes.{on_verify_votes}

abbrev fresh : State sample
fresh = record { genesis_hash = zero_hash; built_block = none }

abbrev heard : Answers sample
heard = record {
  proposal = answers none;
  verified_parent = none;
  verified_block = some child;
  aborted = false;
}

abbrev requests : List (Effect sample)
requests = request_parent sample zero_hash (0, zero_hash) ++ get none child.digest ∷ []

on_verify_votes_example :
    (Extends sample child root
      × (on_verify sample 1 (0, zero_hash) child.digest heard fresh
          ≡ some (fresh, requests ++ store_verified 1 child ∷ respond_vote true ∷ [])))
    ⊎ (¬ Extends sample child root
        × (on_verify sample 1 (0, zero_hash) child.digest heard fresh
            ≡ some (fresh, requests ++ respond_vote false ∷ [])))
on_verify_votes_example =
    on_verify_votes sample 1 (0, zero_hash) child.digest heard fresh root child refl on_root refl
