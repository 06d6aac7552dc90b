-- ===== src/Pipeline/Tests.antt =====
-- A node that has the finalized block of height 1 commits it.
use sahya_net.Prelude.{
  ◌≡◌, refl, ap, retain, ℕ, ◌+◌, bytes_eq, replicate, if◌then◌else◌, inl, inr, none, some, [], ◌∷◌,
  arith,
}
use sahya_net.Types.Digest.{Digest}
use sahya_net.Types.Block.{Block, compute_digest}
use sahya_net.Types.Sample.{sample}
use sahya_net.Types.Sample.Blocks.{zero_hash, one_hash, child}
use sahya_net.Syncer.Environment.Sample.{environment, environment_laws}
use sahya_net.Syncer.State.{State}
use sahya_net.Syncer.Actor.{cancel_useless}
use sahya_net.Syncer.Scenario.{stored, stored-IsCoherent, child_buffer, child_buffer-IsBuffer}
use sahya_net.Application.Finalizer.{Finalizer, forkchoice_of, commit}
use sahya_net.Pipeline.{
  looking, checking, reporting, Pipeline, found_answer, Step, look, accept, persist, Reach, here,
  later,
}
use sahya_net.Pipeline.Consistent.{IsConsistent, get-turn}
use sahya_net.Pipeline.Safety.{Reach-IsConsistent}
use sahya_net.Pipeline.Progress.{HasBlocks, catches_up}
use sahya_net.Pipeline.Repair.{found, LinksBy, IsLinked, repairs}
use sahya_net.Pipeline.Repair.Finds.{HasParents, CanPut, repairs_find}

abbrev fresh : Finalizer
fresh = record {
  last_indexed = 0;
  pending = [];
  metadata = none;
  durable = none;
  forkchoice = forkchoice_of zero_hash;
}

abbrev begin : Pipeline environment
begin = record { syncer = stored; finalizer = fresh; phase = looking; calls = []; committed = [] }

abbrev looked_up : State environment
looked_up = (cancel_useless environment stored).0

abbrev checked : Pipeline environment
checked = record {
  syncer = looked_up;
  finalizer = fresh;
  phase = checking child;
  calls = [];
  committed = [];
}

abbrev ended : Pipeline environment
ended = record {
  syncer = looked_up;
  finalizer = (commit sample 1 child fresh).0;
  phase = reporting 1 child.digest;
  calls = child ∷ [];
  committed = child ∷ [];
}

look_up : Step environment begin checked
unfolding found_answer cancel_useless retain
look_up =
    look child_buffer (some child) child_buffer-IsBuffer refl
      (get-turn environment child_buffer 1 stored) refl

three_steps : Reach environment begin ended
three_steps = later (later (later here look_up) (accept child refl)) (persist child refl)

stored-HasBlocks : HasBlocks environment 0 1 stored
stored-HasBlocks h above below =
    let one : h ≡ 1 = omega arith in
    (child, ap (λ i. environment.blocks.get_index i stored.blocks) one)

Reach-IsConsistent_example : IsConsistent environment 0 (forkchoice_of zero_hash) ended
Reach-IsConsistent_example =
    Reach-IsConsistent environment environment_laws three_steps stored-IsCoherent refl refl
      (omega arith)

catches_up_example :
    (q : Pipeline environment) × Reach environment begin q
    × (q.phase ≡ looking)
    × (q.finalizer.last_indexed ≡ 0 + 1)
catches_up_example =
    catches_up environment child_buffer 1 begin child_buffer-IsBuffer refl (omega arith)
      stored-HasBlocks

-- Two blocks whose digests differ: that of height 2 is finalized, and that of height 1 only verified.
abbrev first_block : Block sample
first_block = record child { digest = one_hash }

abbrev second_block : Block sample
second_block = record child { parent = one_hash; height = 2; digest = replicate 32 2 }

abbrev gapped : State environment
gapped = record {
  verified = (3, first_block.digest, first_block) ∷ [];
  notarized = [];
  finalized = [];
  blocks = (2, second_block.digest, second_block) ∷ [];
  latest_view = 3;
  requested_blocks = [];
  last_view_processed = 0;
  outstanding_notarize = [];
}

unfoldable sample_height : Digest → ℕ
sample_height d = if bytes_eq d one_hash then 1 else if bytes_eq d (replicate 32 2) then 2 else 0

first-LinksBy : LinksBy environment sample_height first_block.digest first_block
unfolding sample_height child compute_digest bytes_eq
first-LinksBy = (refl, refl)

second-LinksBy : LinksBy environment sample_height second_block.digest second_block
unfolding sample_height child compute_digest bytes_eq
second-LinksBy = (refl, refl)

gapped-IsLinked : IsLinked environment sample_height gapped
gapped-IsLinked = record {
  verified = λ i k b h. elim h [ inl at ↦ rw (at.1, at.2) first-LinksBy | inr n ↦ absurd n ];
  notarized = λ i k n h. absurd h;
  blocks = λ i k b h. elim h [
    | inl at ↦ rw (at.0, at.1, at.2) (refl, second-LinksBy)
    | inr n ↦ absurd n
  ];
}

gapped-HasParents : HasParents environment 1 gapped
unfolding child compute_digest bytes_eq
gapped-HasParents = record {
  verified =
      λ i k b h. elim h [ inl at ↦ rw at.2 (λ high. absurd (omega arith)) | inr n ↦ absurd n ];
  notarized = λ i k n h. absurd h;
  blocks = λ i k b h. elim h [ inl at ↦ rw at.2 (λ high. (first_block, refl)) | inr n ↦ absurd n ];
}

puts : CanPut environment
puts i k b bs = (_, refl)

repairs_find_example : (b : Block sample) × (repairs environment 2 1 child_buffer gapped ≡ found b)
repairs_find_example =
    repairs_find environment environment_laws sample_height 1 1 2 child_buffer gapped second_block
      (omega arith) puts gapped-IsLinked gapped-HasParents (omega arith) (omega arith) refl
