-- ===== src/Pipeline/Restart/Sample.antt =====
-- A node that commits the block of height 1, is stopped, and a storage that has kept the
-- block and lost all else.
use sahya_net.Prelude.{◌≡◌, refl, none, some, [], ◌∷◌}
use sahya_net.Types.Sample.Blocks.{zero_hash, child}
use sahya_net.Syncer.Environment.Sample.{environment}
use sahya_net.Syncer.State.{State}
use sahya_net.Syncer.Actor.{init, cancel_useless}
use sahya_net.Syncer.Opening.{Storage, new}
use sahya_net.Syncer.Opening.Restart.{IsLeft}
use sahya_net.Syncer.Scenario.{stored, stored-IsCoherent, child_buffer, child_buffer-IsBuffer}
use sahya_net.Application.Finalizer
use sahya_net.Application.Finalizer.{Finalizer, unwrap_or, commit, forkchoice_of}
use sahya_net.Pipeline.{
  checking, persisting, reporting, Pipeline, Step, look, accept, persist, found_answer,
}
use sahya_net.Pipeline.Consistent.{get-turn}
use sahya_net.Pipeline.Restart.{started, Life, born, stepped}
use sahya_net.Prelude.{retain}

abbrev pub storage : Storage environment
storage = record {
  Disk = Unit;
  init_verified = λ config disk. some [];
  init_notarized = λ config disk. some [];
  init_finalized = λ config disk. some [];
  init_blocks = λ config disk. some ((1, child.digest, child) ∷ []);
}

abbrev pub reopened : State environment
reopened = record {
  verified = [];
  notarized = [];
  finalized = [];
  blocks = (1, child.digest, child) ∷ [];
  latest_view = 0;
  requested_blocks = [];
  last_view_processed = 0;
  outstanding_notarize = [];
}

abbrev begin : Pipeline environment
begin = started zero_hash none [] stored

abbrev checked : Pipeline environment
checked = record begin { syncer = (cancel_useless environment stored).0; phase = checking child }

-- The block is committed.
abbrev pub committed : Pipeline environment
committed = record checked {
  finalizer = (commit environment.prim 1 child begin.finalizer).0;
  phase = reporting 1 child.digest;
  calls = child ∷ [];
  committed = child ∷ [];
}

look_up : Step environment begin checked
unfolding found_answer cancel_useless retain sahya_net.Application.Finalizer.new
look_up =
    look child_buffer (some child) child_buffer-IsBuffer refl
      (get-turn environment child_buffer 1 stored) refl

pub stored-IsLeft : IsLeft storage "quartz" committed.syncer tt
unfolding cancel_useless
stored-IsLeft = record {
  verified = λ s' opened i k v h. absurd (let empty : [] ≡ s' = cc in rw (← empty) at h);
  notarized = λ s' opened i k v h. absurd (let empty : [] ≡ s' = cc in rw (← empty) at h);
  finalized = λ s' opened i k v h. absurd (let empty : [] ≡ s' = cc in rw (← empty) at h);
  blocks =
      λ s' opened i k v h. (let one : (1, child.digest, child) ∷ [] ≡ s' = cc in rw (← one) at h);
}

pub opens : new storage "quartz" tt ≡ some reopened
unfolding new init
opens = refl

abbrev pub persisting_child : Pipeline environment
persisting_child = record checked { phase = persisting child; calls = child ∷ [] }

-- Up to where the execution client is told.
pub told : Life storage "quartz" zero_hash persisting_child []
told = stepped (stepped (born stored-IsCoherent) look_up) (accept child refl)

pub life : Life storage "quartz" zero_hash committed []
unfolding commit sahya_net.Application.Finalizer.new
life = stepped told (persist child refl)

pub told-IsLeft : IsLeft storage "quartz" persisting_child.syncer tt
told-IsLeft = stored-IsLeft
