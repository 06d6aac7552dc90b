-- ===== src/Pipeline/Agreed/Tests.antt =====
-- One node has the block of height 1 in its archive, the other stores it on a finalization; both
-- commit it.
use sahya_net.Prelude.{
  ◌≡◌, refl, ◌∙◌, some, none, [], ◌∷◌, bytes_eq, bytes_eq_iff, retain, arith, if◌then◌else◌, inl,
  inr, Bool-cases,
}
use sahya_net.Types.Digest.{Digest}
use sahya_net.Types.Block.{Block, compute_digest}
use sahya_net.Types.Sample.{sample}
use sahya_net.Types.Sample.Blocks.{zero_hash, child, child-rehash}
use sahya_net.Syncer.Environment.Sample.{Vote}
use sahya_net.Syncer.State.{State, Buffer, notify_finalizer, next}
use sahya_net.Syncer.Actor.{cancel_useless, mailbox, turn, on_input}
use sahya_net.Syncer.Agreement
use sahya_net.Syncer.Agreement.{Network, OnlyFinal, IsSound}
use sahya_net.Syncer.Messages.{finalize}
use sahya_net.Syncer.Consensus.{on_message, on_finalize, finalize_found, persist_finalized}
use sahya_net.Syncer.Coherence.{IsCoherent}
use sahya_net.Syncer.Opening.{Storage}
use sahya_net.Pipeline.{
  checking, reporting, Pipeline, Step, consensus, look, accept, persist, found_answer,
}
use sahya_net.Pipeline.Restart.{started}
use sahya_net.Application.Finalizer
use sahya_net.Application.Finalizer.{Finalizer, unwrap_or, commit, forkchoice_of}
use sahya_net.Pipeline.Consistent.{get-turn}
use sahya_net.Pipeline.Agreed.{Membership, joins, steps}
use sahya_net.Pipeline.Agreed.Chains.{chains_agree}
use sahya_net.Pipeline.Agreed.Sample.{env, env_laws, network}

abbrev storage : Storage env
storage = record {
  Disk = Unit;
  init_verified = λ config disk. some [];
  init_notarized = λ config disk. some [];
  init_finalized = λ config disk. some [];
  init_blocks = λ config disk. some [];
}

abbrev vote : Vote
vote = record { view = 3; payload = zero_hash }

abbrev empty : State env
empty = record {
  verified = [];
  notarized = [];
  finalized = [];
  blocks = [];
  latest_view = 0;
  requested_blocks = [];
  last_view_processed = 0;
  outstanding_notarize = [];
}

abbrev stored : State env
stored = record empty { blocks = (1, zero_hash, child) ∷ [] }

-- The buffer that has the block under its digest.
unfoldable buffer : Buffer env
buffer d = if bytes_eq zero_hash d then child ∷ [] else []

child_digest : child.digest ≡ zero_hash
unfolding child compute_digest
child_digest = refl

buffer-child :
    (d : Digest) (b : Block sample) → next (buffer d) ≡ some b → (child ≡ b) × (zero_hash ≡ d)
unfolding buffer
buffer-child d b h = elim (Bool-cases (bytes_eq zero_hash d)) [
  | inl same ↦
      let found : some child ≡ some b = rw same at h in (cc, (bytes_eq_iff zero_hash d).0 same)
  | inr other ↦ let nothing : none ≡ some b = rw other at h in absurd cc
]

buffer-IsSound : IsSound env buffer
buffer-IsSound = record {
  is_buffer =
      λ d b h. (let (found, named) = buffer-child d b h in rw (← found) (child_digest ∙ named));
  genuine = λ d b h. (let (found, named) = buffer-child d b h in rw (← found) child-rehash);
}

empty-IsCoherent : IsCoherent env empty
empty-IsCoherent = record {
  verified = λ i k v h. absurd h;
  notarized = λ i k v h. absurd h;
  finalized = λ i k v h. absurd h;
  blocks = λ i k v h. absurd h;
}

stored-IsCoherent : IsCoherent env stored
unfolding child compute_digest
stored-IsCoherent = record {
  verified = λ i k v h. absurd h;
  notarized = λ i k v h. absurd h;
  finalized = λ i k v h. absurd h;
  blocks = λ i k v h. elim h [ inl e ↦ rw (e.0, e.1, e.2) (refl, refl) | inr n ↦ absurd n ];
}

empty-OnlyFinal : OnlyFinal network empty
empty-OnlyFinal = record {
  verified = λ i k v h. absurd h;
  notarized = λ i k v h. absurd h;
  blocks = λ i k v h. absurd h;
}

stored-OnlyFinal : OnlyFinal network stored
stored-OnlyFinal = record {
  verified = λ i k v h. absurd h;
  notarized = λ i k v h. absurd h;
  blocks = λ i k v h. elim h [ inl e ↦ rw (e.1, e.2) (child-rehash, refl) | inr n ↦ absurd n ];
}

abbrev finalized : State env
finalized = record stored { finalized = (1, zero_hash, vote) ∷ []; latest_view = 3 }

finalizes :
    turn env buffer (mailbox (finalize vote)) empty ≡ some (finalized, notify_finalizer ∷ [])
unfolding turn on_input on_message on_finalize finalize_found persist_finalized cancel_useless
    buffer child compute_digest retain bytes_eq
finalizes = refl

-- The pipelines of the two nodes when the finalizer has the block, over the archives.
abbrev found : State env → Pipeline env
found s = record (started zero_hash none [] s) {
  syncer = (cancel_useless env s).0;
  phase = checking child;
}

-- The block is committed.
abbrev committed : State env → Pipeline env
committed s = record (found s) {
  finalizer = (commit env.prim 1 child (started {e = env} zero_hash none [] s).finalizer).0;
  phase = reporting 1 child.digest;
  calls = child ∷ [];
  committed = child ∷ [];
}

look_up : Step env (started zero_hash none [] stored) (found stored)
unfolding found_answer cancel_useless retain sahya_net.Application.Finalizer.new
look_up = look buffer (some child) buffer-IsSound.is_buffer refl (get-turn env buffer 1 stored) refl

look_up_finalized : Step env (started zero_hash none [] finalized) (found finalized)
unfolding found_answer cancel_useless retain sahya_net.Application.Finalizer.new
look_up_finalized =
    look buffer (some child) buffer-IsSound.is_buffer refl (get-turn env buffer 1 finalized) refl

-- The node with the block in its archive.
has_block : Membership network storage "one" zero_hash (committed stored) [] []
unfolding commit sahya_net.Application.Finalizer.new look_up sahya_net.Syncer.Agreement.fetched
has_block =
    steps
      (steps (steps (joins stored-IsCoherent stored-OnlyFinal) look_up buffer-IsSound)
        (accept child refl) tt)
      (persist child refl) tt

-- The node that is told of the finalization first.
is_told : Step env (started zero_hash none [] empty) (started zero_hash none [] finalized)
is_told = consensus buffer (finalize vote) buffer-IsSound.is_buffer finalizes

stores_block : Membership network storage "two" zero_hash (committed finalized) [] []
unfolding commit sahya_net.Application.Finalizer.new look_up_finalized is_told
    sahya_net.Syncer.Agreement.fetched bytes_eq
stores_block =
    steps
      (steps
        (steps (steps (joins empty-IsCoherent empty-OnlyFinal) is_told (buffer-IsSound, refl))
          look_up_finalized buffer-IsSound)
        (accept child refl) tt)
      (persist child refl) tt

chains_agree_example : child.digest ∷ [] ≡ child.digest ∷ []
chains_agree_example =
    chains_agree env_laws network storage storage "one" "two" zero_hash zero_hash has_block
      stores_block (omega arith) (omega arith)
