-- ===== src/Node/Committee/Tests.antt =====
-- Two genesis files that list the same two validators.
use sahya_net.Prelude.{◌≡◌, refl, List, [], ◌∷◌}
use mathlib.Core.List.{Permᴰ}
use sahya_net.Types.Genesis.{Validator}
use sahya_net.Node.Sample.{host, genesis}
use sahya_net.Node.Committee.{committee_of}
use sahya_net.Node.Committee.Agreed.{committee_of-Permᴰ}

abbrev other_way : List Validator
other_way =
    record { public_key = "01"; ip_address = "10.0.0.1:26600" }
    ∷ record { public_key = "02"; ip_address = "10.0.0.2:26600" }
    ∷ []

committee_of-Permᴰ_example :
    committee_of host genesis ≡ committee_of host (record genesis { validators = other_way })
committee_of-Permᴰ_example =
    committee_of-Permᴰ host genesis (record genesis { validators = other_way })
      (Permᴰ.swap refl refl)
