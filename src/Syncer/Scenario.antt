-- ===== src/Syncer/Scenario.antt =====
-- A state of the syncer in the sample environment, for tests: the block of height 1 is stored with
-- its notarization of view 3 and its finalization.
use sahya_net.Prelude.{refl, inl, inr, [], ◌∷◌, if◌then◌else◌, bytes_eq_iff, arith}
use sahya_net.Types.Digest.{digest_eq}
use sahya_net.Types.Certified.{Certified}
use sahya_net.Types.Sample.{sample}
use sahya_net.Types.Sample.Blocks.{child, child_height}
use sahya_net.Syncer.Environment.Sample.{Vote, environment}
use sahya_net.Syncer.State.{State, Buffer}
use sahya_net.Syncer.Coherence.{IsCoherent, IsBuffer}

abbrev pub vote : Vote
vote = record { view = 3; payload = child.digest }

abbrev pub notarized_child : Certified sample Vote
notarized_child = record { proof = vote; block = child }

abbrev pub start : State environment
start = record {
  verified = [];
  notarized = [];
  finalized = [];
  blocks = [];
  latest_view = 0;
  requested_blocks = [];
  last_view_processed = 0;
  outstanding_notarize = [];
}

abbrev pub stored : State environment
stored = record {
  verified = (3, child.digest, child) ∷ [];
  notarized = (3, child.digest, notarized_child) ∷ [];
  finalized = (1, child.digest, vote) ∷ [];
  blocks = (1, child.digest, child) ∷ [];
  latest_view = 3;
  requested_blocks = 7 ∷ [];
  last_view_processed = 0;
  outstanding_notarize = 2 ∷ 5 ∷ [];
}

pub stored-IsCoherent : IsCoherent environment stored
stored-IsCoherent = record {
  verified = λ i k v h. elim h [ inl e ↦ rw (e.1, e.2) refl | inr n ↦ absurd n ];
  notarized =
      λ i k v h. elim h [ inl e ↦ rw (e.0, e.1, e.2) (refl, refl, refl) | inr n ↦ absurd n ];
  finalized = λ i k v h. elim h [
    | inl e ↦ rw (e.0, e.1, e.2) (refl, (child, child_height, refl))
    | inr n ↦ absurd n
  ];
  blocks = λ i k v h. elim h [ inl e ↦ rw (e.0, e.1, e.2) (child_height, refl) | inr n ↦ absurd n ];
}

unfoldable pub child_buffer : Buffer environment
child_buffer d = if digest_eq child.digest d then child ∷ [] else []

pub child_buffer-IsBuffer : IsBuffer environment child_buffer
unfolding child_buffer
child_buffer-IsBuffer d b h = ground (arith, bytes_eq_iff child.digest d)
