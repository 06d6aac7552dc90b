-- ===== src/Application/EngineClient/Tests.antt =====
-- A client that has one payload to build, calls every payload valid and takes every forkchoice.
use sahya_net.Prelude.{
  ℕ, ◌+◌, ◌≡◌, refl, sym, inr, true, false, Bool, none, some, List, [], ◌∷◌, replicate, bytes_eq,
  arith,
}
use sahya_net.Types.Digest.{Digest}
use sahya_net.Types.Block.{Block, eth_block_hash, eth_parent_hash, compute_digest}
use sahya_net.Types.Sample.{sample}
use sahya_net.Types.Sample.Blocks.{zero_hash}
use sahya_net.Application.Finalizer.{
  Finalizer, forkchoice_of, new_block, commit, idle, wait, turn, turn_on,
}
use sahya_net.Application.Notifier.{notify_up_to, senders_of, split_off}
use sahya_net.Application.Verify.{handle_verify}
use sahya_net.Application.Proposal.{built, parent_of, next_timestamp}
use sahya_net.Application.EngineClient.{
  Provider, ProviderLaws, check_payload, commit_hash, start_building_block, get_payload,
}
use sahya_net.Application.EngineClient.Turns.{Inputs, run_with, turn_with, checked, settle, perform}
use sahya_net.Application.EngineClient.Head.{IsChain, Moves, run_with-Moves}
use sahya_net.Application.EngineClient.Leader.{Leading, propose_with, leader_accepted}

-- The head, and the head of the payload that is being built.
record Client : Type 0 where
  pub head : Digest
  pub building : Digest

abbrev provider : Provider sample
provider = record {
  Client = Client;
  Status = Bool;
  is_valid = λ b. b;
  fork_choice_updated_v3 = λ f attributes c.
      some (record { head = f.head_block_hash; building = f.head_block_hash }, some 0);
  get_payload_v4 = λ id c. some (
    c,
    record {
      execution_payload = c.building ∷ replicate 32 9 ∷ [];
      execution_requests = [];
      block_value = 0;
    },
  );
  new_payload_v4 = λ payload hashes root requests c. some (c, true);
}

abbrev provider_laws : ProviderLaws provider
provider_laws = record {
  head = λ c. c.head;
  IsValid = λ c payload. Unit;
  IsBuilding = λ c id d. c.building ≡ d;
  checks = λ payload hashes root requests c. (c, true, refl, refl, λ valid. tt);
  sets = λ payload c valid on_head. (_, some 0, refl, refl);
  begins = λ f a c c' id h. cc;
  gets = λ id d c c' e building h. cc;
}

abbrev chain : ℕ → Block sample
chain n = record {
  parent = replicate 32 n;
  height = n;
  timestamp = n;
  execution_payload = replicate 32 n ∷ replicate 32 (n + 1) ∷ [];
  execution_requests = [];
  block_value = 0;
  digest = replicate 32 (n + 1);
}

chain_hash : (n : ℕ) → eth_block_hash sample (chain n) ≡ replicate 32 (n + 1)
unfolding eth_block_hash
chain_hash n = ground arith

chain-IsChain : IsChain sample chain
unfolding eth_parent_hash
chain-IsChain = record { height_of = λ n. refl; links = λ n. sym (chain_hash n) }

abbrev inputs : List (Inputs sample)
inputs =
    record { get = λ h. some (chain h); repaired = false; wake = new_block }
    ∷ record { get = λ h. some (chain h); repaired = false; wake = new_block }
    ∷ record { get = λ h. none; repaired = false; wake = new_block }
    ∷ []

answered : (h : ℕ) (b : Block sample) → some (chain h) ≡ some b → b ≡ chain h
answered h b got = cc

unanswered : (h : ℕ) (b : Block sample) → none ≡ some b → b ≡ chain h
unanswered h b got = cc

-- A node that is started again over the stored height 4, whose client has taken height 5.
abbrev restarted : Finalizer
restarted = record {
  last_indexed = 4;
  pending = [];
  metadata = some 4;
  durable = some 4;
  forkchoice = forkchoice_of zero_hash;
}

abbrev ended : Finalizer
ended = record {
  last_indexed = 6;
  pending = [];
  metadata = some 6;
  durable = some 6;
  forkchoice = forkchoice_of (replicate 32 7);
}

abbrev client_at : ℕ → Client
client_at n = record { head = replicate 32 n; building = replicate 32 n }

two_committed : run_with provider inputs restarted (client_at 6) ≡ some (ended, client_at 7)
unfolding run_with turn_with checked check_payload settle perform commit_hash turn turn_on commit
    idle wait notify_up_to senders_of split_off eth_block_hash
two_committed = refl

run_with-Moves_example :
    (s' : Finalizer) × (c' : Client) × (run_with provider inputs restarted (client_at 6)
      ≡ some (s', c'))
    × Moves provider provider_laws chain restarted s' (client_at 6) c'
run_with-Moves_example =
    run_with-Moves provider provider_laws chain chain-IsChain inputs restarted (client_at 6)
      (answered, (answered, (unanswered, tt))) (omega arith) (inr (sym (chain_hash 5)))

abbrev leading : Leading provider
leading = record {
  parent_block = some (chain 6);
  height_reached = true;
  current_millis = 20;
  forkchoice = forkchoice_of (replicate 32 7);
  meanwhile = λ c. c;
}

abbrev proposed_block : Block sample
proposed_block =
    compute_digest sample (replicate 32 7) 7 20 (replicate 32 7 ∷ replicate 32 9 ∷ []) [] 0

on_last : parent_of sample zero_hash (replicate 32 7) (some (chain 6)) ≡ some (chain 6)
unfolding parent_of bytes_eq
on_last = refl

proposes :
    propose_with provider zero_hash (replicate 32 7) leading (client_at 7) ≡ built proposed_block
unfolding propose_with parent_of next_timestamp start_building_block get_payload bytes_eq
proposes = refl

leader_accepted_example : handle_verify sample proposed_block (chain 6) ≡ true
leader_accepted_example =
    leader_accepted provider provider_laws chain inputs restarted ended (client_at 6) (client_at 7)
      zero_hash (replicate 32 7) leading proposed_block chain-IsChain
      (answered, (answered, (unanswered, tt))) (omega arith) (inr (sym (chain_hash 5)))
      two_committed (omega arith) refl (λ c id d building. building) on_last (omega arith) proposes
