-- ===== src/Node/Committee.antt =====
-- node/src/args.rs: the committee, which every node reads off its genesis file and sorts.
pub mod Agreed
mod Tests
use sahya_net.Prelude.{Bool, Option, none, some, List, [], ◌∷◌, map, Result, ok, err, if◌then◌else◌}
use sahya_net.Prelude.Sort.{Order, pair_order, sort}
use sahya_net.Types.Genesis.{Validator, Genesis, AddressError, try_into}
use sahya_net.Node.Host.{Host}

-- `.expect("Invalid validator in genesis")`; `none` is a panic.
abbrev pub expect_entry : {A : Type 0} → Result AddressError A → Option A
expect_entry (err e) = none
expect_entry (ok a) = some a

abbrev pub cons_all : {A : Type 0} → Option A → Option (List A) → Option (List A)
cons_all none l = none
cons_all (some a) none = none
cons_all (some a) (some l) = some (a ∷ l)

module _ (h : Host) where
  abbrev pub Entry : Type 0
  Entry = h.Key × h.Addr

  -- The order of a tuple of Rust.
  abbrev pub entry_order : Order Entry
  entry_order = pair_order h.key_order h.addr_order

  -- `genesis.validators.iter().map(|v| v.try_into().expect(..)).collect()`
  unfoldable pub convert_all : List Validator → Option (List Entry)
  convert_all [] = some []
  convert_all (v ∷ rest) = cons_all (expect_entry (try_into h.formats v)) (convert_all rest)

  abbrev pub sorted : Option (List Entry) → Option (List Entry)
  sorted none = none
  sorted (some l) = some (sort entry_order l)

  -- `committee`, sorted
  unfoldable pub committee_of : Genesis → Option (List Entry)
  unfolding convert_all
  committee_of genesis = sorted (convert_all genesis.validators)

  -- `committee.iter().map(|v| v.0.clone()).collect()`
  unfoldable pub peers_of : List Entry → List h.Key
  peers_of l = map (λ v. v.0) l

  -- `committee.iter().find_map(..)`
  unfoldable pub our_ip : h.Key → List Entry → Option h.Addr
  our_ip key [] = none
  our_ip key (v ∷ rest) =
      let found = our_ip key rest in if h.formats.key_eq v.0 key then some v.1 else found
