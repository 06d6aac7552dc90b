-- ===== src/Node/Dkg/Tests.antt =====
-- A dealer for the two keys of the sample machine.
use Prim.Native.String.{String}
use sahya_net.Prelude.{
  ℕ, ◌≡◌, refl, Bool, true, false, not, ◌||◌, some, List, [], ◌∷◌, ◌==◌, if◌then◌else◌, arith,
}
use sahya_net.Prelude.Sort.{Order, sort, insert_sorted}
use sahya_net.Types.Genesis.{Genesis}
use sahya_net.Node.Host.{done}
use sahya_net.Node.Sample.{host, genesis}
use sahya_net.Node.Committee.{Entry, committee_of}
use sahya_net.Node.Dkg.{NodeFiles, Dealer, main}
use sahya_net.Node.Dkg.Dealt.{IsDealt, IsHex, main-IsDealt}

abbrev bool_order : Order Bool
bool_order = record {
  leb = λ a b. not a || b;
  leb_total = λ a b h. ground arith;
  leb_trans = λ a b c h k. ground arith;
  leb_antisym = λ a b h k. ground arith;
}

abbrev hex : ℕ → String
hex n = if n == 1 then "01" else "02"

abbrev dealer : Dealer host
dealer = record {
  key_hex = hex;
  private_key_hex = λ k. if k then "01" else "02";
  share_hex = hex;
  polynomial_hex = hex;
  private_key_order = bool_order;
}

is_hex : IsHex host dealer
is_hex true = (1 ∷ [], refl, refl)
is_hex false = (2 ∷ [], refl, refl)

abbrev written : Genesis
written = record genesis {
  identity = "01";
  validators =
      record { public_key = "01"; ip_address = "10.0.0.2:26600" }
      ∷ record { public_key = "02"; ip_address = "10.0.0.1:26600" }
      ∷ [];
}

abbrev folders : List NodeFiles
folders = record { key = "01"; share = "01" } ∷ record { key = "02"; share = "02" } ∷ []

dealt : main host dealer (false ∷ true ∷ []) 1 (1 ∷ 2 ∷ []) genesis ≡ done (written, folders)
unfolding main sort insert_sorted
dealt = refl

main-IsDealt_example :
    (l : List (Entry host)) × (committee_of host written ≡ some l)
    × IsDealt host dealer l folders (1 ∷ 2 ∷ [])
unfolding sort insert_sorted
main-IsDealt_example =
    main-IsDealt host dealer is_hex (false ∷ true ∷ []) 1 (1 ∷ 2 ∷ []) genesis written folders
      ((2, refl), ((1, refl), tt)) ((λ e. omega arith), tt) dealt
