-- ===== src/Types/Certified/Tests.antt =====
-- The codec of a certified block, with the certificate of the syncer's sample environment.
use sahya_net.Prelude.{◌≡◌, refl, [], ◌∷◌, ◌++◌}
use sahya_net.Types.Reading.{done}
use sahya_net.Types.Certified.{Certified, write, read_cfg}
use sahya_net.Types.Certified.Codec.{IsCertified, read_cfg-IsCertified, certified_read-write}
use sahya_net.Types.Sample.{sample, sample_laws}
use sahya_net.Types.Sample.Blocks.{child, child-IsBlock, child-rehash}
use sahya_net.Syncer.Environment.Sample.{Vote, vote_certificate, vote_laws}

abbrev vote_for_child : Vote
vote_for_child = record { view = 3; payload = child.digest }

abbrev certified_child : Certified sample Vote
certified_child = record { proof = vote_for_child; block = child }

child-IsCertified : IsCertified sample vote_certificate certified_child
child-IsCertified = record { certifies = refl; hashed = child-rehash }

certified_read-write_example :
    read_cfg sample vote_certificate (write sample vote_certificate certified_child ++ 7 ∷ [])
    ≡ done certified_child (7 ∷ [])
certified_read-write_example =
    certified_read-write sample vote_certificate sample_laws vote_laws certified_child (7 ∷ [])
      child-IsBlock child-IsCertified

read_cfg-IsCertified_example : IsCertified sample vote_certificate certified_child
read_cfg-IsCertified_example =
    read_cfg-IsCertified sample vote_certificate
      (write sample vote_certificate certified_child ++ 7 ∷ []) (7 ∷ []) certified_child
      (certified_read-write sample vote_certificate sample_laws vote_laws certified_child (7 ∷ [])
        child-IsBlock child-IsCertified)
