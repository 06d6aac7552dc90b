-- ===== src/Syncer/Environment/Sample.antt =====
-- A concrete environment for tests: a certificate is a view and a digest with an end mark, which
-- every identity accepts if the view is not 0. It meets every law of `Environment`.
use sahya_net.Prelude.{
  ℕ, zero, suc, ◌≡◌, refl, not, ◌==◌, Option, none, some, [], ◌∷◌, ◌++◌, Bytes, length,
}
use sahya_net.Types.Digest.{Digest}
use sahya_net.Types.Block.{Block}
use sahya_net.Types.Certified.{Certificate, CertificateLaws, Certified}
use sahya_net.Types.Sample.{sample, sample_laws}
use sahya_net.Syncer.Archive.Sample.{list_archive, list_archive_laws, list_archive_immutable}
use sahya_net.Syncer.Environment.{Environment, EnvironmentLaws}

pub record Vote : Type 0 where
  pub view : ℕ
  pub payload : Digest

abbrev write_marked : Bytes → Bytes
write_marked [] = 0 ∷ []
write_marked (b ∷ d) = suc b ∷ write_marked d

abbrev read_more : ℕ → Option (Bytes × Bytes) → Option (Bytes × Bytes)
read_more b none = none
read_more b (some (d, rest)) = some (b ∷ d, rest)

abbrev read_marked : Bytes → Option (Bytes × Bytes)
read_marked [] = none
read_marked (zero ∷ rest) = some ([], rest)
read_marked (suc b ∷ rest) = read_more b (read_marked rest)

abbrev vote_of : ℕ → Option (Bytes × Bytes) → Option (Vote × Bytes)
vote_of view none = none
vote_of view (some (d, rest)) = some (record { view = view; payload = d }, rest)

abbrev read_vote : Bytes → Option (Vote × Bytes)
read_vote [] = none
read_vote (view ∷ rest) = vote_of view (read_marked rest)

read_marked-write_marked : (d rest : Bytes) → read_marked (write_marked d ++ rest) ≡ some (d, rest)
read_marked-write_marked [] rest = refl
read_marked-write_marked (b ∷ d) rest = rw (read_marked-write_marked d rest)

abbrev pub vote_certificate : Certificate Unit Vote
vote_certificate = record {
  view = λ v. v.view;
  payload = λ v. v.payload;
  verify = λ namespace identity v. not (v.view == 0);
  write = λ v. v.view ∷ write_marked v.payload;
  read_cfg = read_vote;
  encode_size = λ v. suc (length (write_marked v.payload));
}

pub vote_laws : CertificateLaws vote_certificate
vote_laws = record {
  read-write = λ v rest. rw (read_marked-write_marked v.payload rest);
  size-write = λ v. refl;
}

abbrev pub environment : Environment
environment = record {
  prim = sample;
  Identity = Unit;
  Notarization = Vote;
  Finalization = Vote;
  notarization = vote_certificate;
  finalization = vote_certificate;
  verified = list_archive (Block sample);
  notarized = list_archive (Certified sample Vote);
  finalized = list_archive Vote;
  blocks = list_archive (Block sample);
  namespace = [];
  identity = tt;
  activity_timeout = 10;
}

pub environment_laws : EnvironmentLaws environment
environment_laws = record {
  prim = sample_laws;
  notarization = vote_laws;
  finalization = vote_laws;
  verified = list_archive_laws (Block sample);
  notarized = list_archive_laws (Certified sample Vote);
  finalized = list_archive_laws Vote;
  blocks = list_archive_laws (Block sample);
  finalized_immutable = list_archive_immutable Vote;
  blocks_immutable = list_archive_immutable (Block sample);
}
