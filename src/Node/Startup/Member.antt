-- ===== src/Node/Startup/Member.antt =====
-- A node that starts is a member of the committee of its genesis file.
use mathlib.Core.Path.{subst}
use sahya_net.Prelude.{
  ◌+◌, ◌%◌, ◌^◌, ◌↔◌, Result, err, ok, if◌then◌else◌, ◌≡◌, refl, ap, inl, inr, Bool, true, false,
  Option, none, some, List, [], ◌∷◌, Bool-cases,
}
use sahya_net.Prelude.Sort.{sort, IsSorted, sort-IsSorted, Permᴰ-sort}
use mathlib.Core.List.{Memᴰ, Permᴰ}
use mathlib.Core.Option.{some-injective}
use sahya_net.Types.Genesis.{Validator, Genesis, AddressError, try_into}
use sahya_net.Node.Host.{
  Host, done, or_panic, unwrap, path_or_fail, path_or_fail-done, >>=-done, or_panic-done,
  unwrap-done, done-injective,
}
use sahya_net.Node.Paths.{FilePath, get_expanded_path}
use sahya_net.Node.Keys.{read_ed_key_from_path}
use sahya_net.Node.Committee.{
  Entry, entry_order, expect_entry, cons_all, convert_all, sorted, committee_of, peers_of, our_ip,
}
use sahya_net.Node.Config.{get_engine_config, http}
use sahya_net.Node.Config.Built.{get_engine_config-IsBuilt}
use sahya_net.Node.Startup.{
  Flags, Prepared, Runtime, Started, load_from_file, prepare, start, run_node,
  run_node_with_runtime,
}
use Prim.Native.String.{String}

level_known : (b : Bool) {u : Unit {0}} → (if b then some tt else none) ≡ some u → b ≡ true
level_known true e = refl
level_known false e = cc

module _ (h : Host) where
  sorted-IsSorted :
      (o : Option (List (Entry h))) {l : List (Entry h)}
      → sorted h o ≡ some l
      → IsSorted (entry_order h) l
  sorted-IsSorted none e = cc
  sorted-IsSorted (some m) {l} e =
      let same : sort (entry_order h) m ≡ l = cc e in
      subst (IsSorted (entry_order h)) same (sort-IsSorted (entry_order h) m)

  our_ip-Memᴰ :
      (key : h.Key) (l : List (Entry h)) {a : h.Addr}
      → our_ip h key l ≡ some a
      → (k : h.Key) × (h.formats.key_eq k key ≡ true) × Memᴰ (k, a) l
  unfolding our_ip
  our_ip-Memᴰ key [] e = cc
  our_ip-Memᴰ key ((k, b) ∷ rest) e = elim (Bool-cases (h.formats.key_eq k key)) [
    | inl same ↦ (k, same, Memᴰ.head (cc (ap some (refl {a = b}), rw same at e)))
    | inr other ↦ let (k', is, m) = our_ip-Memᴰ key rest (rw other at e) in (k', is, Memᴰ.tail m)
  ]

  -- The entries are those of the validators, place by place.
  abbrev pub Listed : List Validator → List (Entry h) → Type 0
  Listed [] [] = Unit
  Listed [] (m ∷ members) = ⊥
  Listed (v ∷ validators) [] = ⊥
  Listed (v ∷ validators) (m ∷ members) = (try_into h.formats v ≡ ok m) × Listed validators members

  cons_all-some :
      (v : Validator) (rest : List Validator) (r : Result AddressError (Entry h))
      (o : Option (List (Entry h))) {l : List (Entry h)}
      → try_into h.formats v ≡ r
      → ((m : List (Entry h)) → o ≡ some m → Listed rest m)
      → cons_all (expect_entry r) o ≡ some l
      → Listed (v ∷ rest) l
  cons_all-some v rest (err e) o converts listed h = cc
  cons_all-some v rest (ok a) none converts listed h = cc
  cons_all-some v rest (ok a) (some m) converts listed h =
      subst (Listed (v ∷ rest)) (some-injective _ _ h) (converts, listed m refl)

  convert_all-Listed :
      (validators : List Validator) {l : List (Entry h)}
      → convert_all h validators ≡ some l
      → Listed validators l
  unfolding convert_all
  convert_all-Listed [] e = subst (Listed []) (some-injective _ _ e) tt
  convert_all-Listed (v ∷ rest) e =
      cons_all-some v rest (try_into h.formats v) (convert_all h rest) refl
        (λ m listed. convert_all-Listed rest listed) e

  sorted-Permᴰ :
      (o : Option (List (Entry h))) {l : List (Entry h)}
      → sorted h o ≡ some l
      → (members : List (Entry h)) × (o ≡ some members) × Permᴰ l members
  sorted-Permᴰ none e = cc
  sorted-Permᴰ (some m) e =
      (m, refl, subst (λ l. Permᴰ l m) (some-injective _ _ e) (Permᴰ-sort (entry_order h) m))

  -- The address that the node tells its peers is that of its own key in the committee; the peers that
  -- it authorizes are the validators of the genesis file, all of them and no others, in order; the participants of the engine are their keys.
  pub record IsMember (flags : Flags) (s : h.files.Store) (st : Started h) : Type 0 where
    pub signer_read : read_ed_key_from_path h flags.key_path s ≡ done st.engine.signer
    pub same_signer : st.network.signer ≡ st.engine.signer
    pub key : h.Key
    pub key_is_own : h.formats.key_eq key (h.public_key st.engine.signer) ≡ true
    pub in_committee : Memᴰ (key, st.network.dialable) st.peer_set.1
    pub genesis : Genesis
    pub loaded : load_from_file h flags.genesis_path s ≡ done genesis
    pub members : List (Entry h)
    pub listed : Listed genesis.validators members
    pub whole : Permᴰ st.peer_set.1 members
    pub in_order : IsSorted (entry_order h) st.peer_set.1
    pub participants : st.engine.participants ≡ peers_of h st.peer_set.1

  committee_of-IsSorted :
      (g : Genesis) {l : List (Entry h)} → committee_of h g ≡ some l → IsSorted (entry_order h) l
  unfolding committee_of
  committee_of-IsSorted g e = sorted-IsSorted (convert_all h g.validators) e

  committee_of-Permᴰ :
      (g : Genesis) {l : List (Entry h)}
      → committee_of h g ≡ some l
      → (members : List (Entry h)) × (convert_all h g.validators ≡ some members) × Permᴰ l members
  unfolding committee_of
  committee_of-Permᴰ g e = sorted-Permᴰ (convert_all h g.validators) e

  prepare-IsMember :
      (flags : Flags) (s : h.files.Store) (p : Prepared h)
      → prepare h flags s ≡ done p
      → IsMember flags s (start h flags p)
  unfolding prepare start
  prepare-IsMember flags s p e0 =
      let (genesis, loaded, e1) = >>=-done (unwrap (load_from_file h flags.genesis_path s)) _ e0 in
      let (committee, listed, e2) = >>=-done (or_panic (committee_of h genesis)) _ e1 in
      let (config, built, e3) =
        >>=-done
          (unwrap (
            get_engine_config h (http flags.engine_port) flags.engine_jwt_path flags.key_path
              flags.share_path (peers_of h committee) flags.db_prefix genesis s))
          _ e2 in
      let (address, found, e4) =
        >>=-done (or_panic (our_ip h (h.public_key config.signer) committee)) _ e3 in
      let same = done-injective e4 in
      let c =
        get_engine_config-IsBuilt h (http flags.engine_port) flags.engine_jwt_path flags.key_path
          flags.share_path (peers_of h committee) flags.db_prefix genesis s config
          (unwrap-done _ built) in
      let (key, own, member) =
        our_ip-Memᴰ (h.public_key config.signer) committee (or_panic-done _ found) in
      let (members, converted, whole) = committee_of-Permᴰ genesis (or_panic-done _ listed) in
      subst (λ q. IsMember flags s (start h flags q)) same
        (record {
          signer_read = c.signer_read;
          same_signer = refl;
          key = key;
          key_is_own = own;
          in_committee = member;
          genesis = genesis;
          loaded = unwrap-done _ loaded;
          members = members;
          listed = convert_all-Listed genesis.validators converted;
          whole = whole;
          in_order = committee_of-IsSorted genesis (or_panic-done _ listed);
          participants = c.same_participants;
        })

  pub run_node-starts :
      (is_level : String → Bool) (flags : Flags) (s : h.files.Store) (rt : Runtime) (st : Started h)
      → run_node h is_level flags s ≡ done (rt, st)
      → (p : Prepared h) × (start h flags p ≡ st)
  unfolding run_node
  run_node-starts is_level flags s rt st e0 =
      let (p, prepared, e1) = >>=-done (prepare h flags s) _ e0 in
      let (path, _, e2) =
        >>=-done (unwrap (path_or_fail (get_expanded_path h.home_dir flags.store_path))) _ e1 in
      let (level, _, e3) =
        >>=-done (or_panic (if is_level flags.log_level then some tt else none)) _ e2 in
      (p, ap (λ r. r.1) (done-injective e3))

  -- A node that starts from the command line signs with the key of its file, tells its peers the address
  -- that the committee has for that key, authorizes the validators of its genesis file, all of them
  -- and no others, sorted, and runs the engine with their keys in that order.
  pub run_node-IsMember :
      (is_level : String → Bool) (flags : Flags) (s : h.files.Store) (rt : Runtime) (st : Started h)
      → run_node h is_level flags s ≡ done (rt, st)
      → IsMember flags s st
  unfolding run_node
  run_node-IsMember is_level flags s rt st e0 =
      let (p, prepared, e1) = >>=-done (prepare h flags s) _ e0 in
      let (path, _, e2) =
        >>=-done (unwrap (path_or_fail (get_expanded_path h.home_dir flags.store_path))) _ e1 in
      let (level, _, e3) =
        >>=-done (or_panic (if is_level flags.log_level then some tt else none)) _ e2 in
      subst (IsMember flags s) (ap (λ r. r.1) (done-injective e3))
        (prepare-IsMember flags s p prepared)

  -- `run_node` starts a network and an engine exactly if `run_node_with_runtime` starts the same on the
  -- same flags, the path of the store expands and the level of the logs is known.
  pub run_node_iff :
      (is_level : String → Bool) (flags : Flags) (s : h.files.Store) (st : Started h)
      → ((rt : Runtime) × (run_node h is_level flags s ≡ done (rt, st))) ↔ (
          (run_node_with_runtime h flags s ≡ done st)
          × ((path : FilePath) × (get_expanded_path h.home_dir flags.store_path ≡ ok path))
          × (is_level flags.log_level ≡ true))
  unfolding run_node run_node_with_runtime
  run_node_iff is_level flags s st = (
    λ (rt, e0).
        let (p, prepared, e1) = >>=-done (prepare h flags s) _ e0 in
        let (path, expands, e2) =
          >>=-done (unwrap (path_or_fail (get_expanded_path h.home_dir flags.store_path))) _ e1 in
        let (level, known, e3) =
          >>=-done (or_panic (if is_level flags.log_level then some tt else none)) _ e2 in
        (
          rw prepared (ap done (ap (λ r. r.1) (done-injective e3))),
          (path, path_or_fail-done _ (unwrap-done _ expands)),
          level_known (is_level flags.log_level) (or_panic-done _ known),
        ),
    λ (e0, (path, expands), known).
        let (p, prepared, e1) = >>=-done (prepare h flags s) _ e0 in
        let rt : Runtime = record {
          worker_threads = flags.worker_threads;
          storage_directory = path;
          telemetry_port = (flags.prom_port + 1) % 2 ^ 16;
        } in
        (rt, rw (prepared, expands, known) (ap (λ st'. done (rt, st')) (done-injective e1))),
  )
