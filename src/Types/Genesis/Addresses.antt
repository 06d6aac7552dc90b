-- ===== src/Types/Genesis/Addresses.antt =====
-- The three ways in which the addresses of the validators are read agree.
use sahya_net.Prelude.{
  suc, >>=-eq-ok, ◌≡◌, refl, sym, ap, ◌∙◌, Option, none, some, List, [], ◌∷◌, ◌++◌, length,
  if◌then◌else◌, Result, ok, err, ◌>>=◌, arith,
}
use mathlib.Core.List.{append_assoc, append-nil}
use sahya_net.Types.Genesis.{
  Validator, Genesis, AddressError, Formats, try_into, addresses_loop, get_validator_addresses,
  ip_of_loop, ip_of, validator_count,
}

module _ {Key Addr : Type 0} (f : Formats Key Addr) where
  -- Every validator in order, or the error of the first that does not parse.
  abbrev pub try_all : List Validator → Result AddressError (List (Key × Addr))
  try_all [] = ok []
  try_all (v ∷ rest) = do entry ← try_into f v; entries ← try_all rest; ok (entry ∷ entries)

  -- The first entry of a key.
  abbrev pub first_address : Key → List (Key × Addr) → Option Addr
  first_address target [] = none
  first_address target ((key, addr) ∷ rest) =
      if f.key_eq key target then some addr else first_address target rest

  abbrev after :
      List (Key × Addr)
      → Result AddressError (List (Key × Addr))
      → Result AddressError (List (Key × Addr))
  after done r = r >>= λ entries. ok (done ++ entries)

  addresses_loop-step :
      (done : List (Key × Addr)) (v : Validator) (vs : List Validator)
      → addresses_loop f done (v ∷ vs)
        ≡ (try_into f v >>= λ entry. addresses_loop f (done ++ entry ∷ []) vs)
  unfolding addresses_loop try_into
  addresses_loop-step done v vs = ground arith

  after-cons :
      (done : List (Key × Addr)) (entry : Key × Addr) (r : Result AddressError (List (Key × Addr)))
      → after (done ++ entry ∷ []) r ≡ after done (r >>= λ entries. ok (entry ∷ entries))
  after-cons done entry (ok l) = ap ok (append_assoc done (entry ∷ []) l)
  after-cons done entry (err e) = refl

  addresses_loop-eq-bind :
      (done : List (Key × Addr)) (vs : List Validator) (r : Result AddressError (Key × Addr))
      → ((entry : Key × Addr)
          → addresses_loop f (done ++ entry ∷ []) vs ≡ after (done ++ entry ∷ []) (try_all vs))
      → (r >>= λ entry. addresses_loop f (done ++ entry ∷ []) vs)
        ≡ after done (r >>= λ entry. try_all vs >>= λ entries. ok (entry ∷ entries))
  addresses_loop-eq-bind done vs (ok entry) ih = ih entry ∙ after-cons done entry (try_all vs)
  addresses_loop-eq-bind done vs (err e) ih = refl

  addresses_loop-eq :
      (done : List (Key × Addr)) (vs : List Validator)
      → addresses_loop f done vs ≡ after done (try_all vs)
  unfolding addresses_loop
  addresses_loop-eq done [] = ap ok (sym (append-nil done))
  addresses_loop-eq done (v ∷ vs) =
      addresses_loop-step done v vs
      ∙ addresses_loop-eq-bind done vs (try_into f v)
          (λ entry. addresses_loop-eq (done ++ entry ∷ []) vs)

  after-nil : (r : Result AddressError (List (Key × Addr))) → after [] r ≡ r
  after-nil (ok l) = refl
  after-nil (err e) = refl

  -- The loop that fills the vector returns what the conversion of each validator in turn returns: the
  -- same entries in the same order, or the same first error.
  pub addresses-eq-try_all : (g : Genesis) → get_validator_addresses f g ≡ try_all g.validators
  unfolding get_validator_addresses
  addresses-eq-try_all g = addresses_loop-eq [] g.validators ∙ after-nil (try_all g.validators)

  try_all_cons :
      (v : Validator) (vs : List Validator) {l : List (Key × Addr)}
      → try_all (v ∷ vs) ≡ ok l
      → (entry : Key × Addr) × (entries : List (Key × Addr)) × (try_into f v ≡ ok entry)
        × (try_all vs ≡ ok entries)
        × (entry ∷ entries ≡ l)
  try_all_cons v vs h =
      let (entry, e, g) = >>=-eq-ok (try_into f v) (λ x. try_all vs >>= λ xs. ok (x ∷ xs)) h in
      let (entries, e', g') = >>=-eq-ok (try_all vs) (λ xs. ok (entry ∷ xs)) g in
      (entry, entries, e, e', ground arith)

  length-try_all :
      (vs : List Validator) {l : List (Key × Addr)} → try_all vs ≡ ok l → length l ≡ length vs
  length-try_all [] h = ground arith
  length-try_all (v ∷ vs) h =
      let (entry, entries, e, g, s) = try_all_cons v vs h in rw (← s) (ap suc (length-try_all vs g))

  -- If every validator parses, there is one entry for each.
  pub length-addresses :
      (g : Genesis) {l : List (Key × Addr)}
      → get_validator_addresses f g ≡ ok l
      → length l ≡ validator_count g
  unfolding validator_count
  length-addresses g h = length-try_all g.validators (sym (addresses-eq-try_all g) ∙ h)

  ip_of_loop-first :
      (target : Key) (vs : List Validator) {l : List (Key × Addr)}
      → try_all vs ≡ ok l
      → ip_of_loop f target vs ≡ first_address target l
  unfolding ip_of_loop try_into
  ip_of_loop-first target [] h = ground arith
  ip_of_loop-first target (v ∷ vs) h =
      let (entry, entries, e, g, s) = try_all_cons v vs h in
      rw (← s) (ground (arith, ip_of_loop-first target vs {l = entries} g))

  -- If every validator parses, `ip_of` gives the address of the first entry with that key.
  pub ip_of-first :
      (g : Genesis) (target : Key) {l : List (Key × Addr)}
      → get_validator_addresses f g ≡ ok l
      → ip_of f g target ≡ first_address target l
  unfolding ip_of
  ip_of-first g target h = ip_of_loop-first target g.validators (sym (addresses-eq-try_all g) ∙ h)
