-- ===== src/Syncer/Archive.antt =====
-- The archives of commonware_storage, as the syncer uses them: items under an index and a digest.
-- The operations are the fields of `Archive`; `ArchiveLaws` and `ImmutableLaws` are what the
-- documentation promises and the theorems about the syncer use. A read error of the storage aborts
-- the process and is not modelled; a write error is `failed`.
pub mod Sample
use sahya_net.Prelude.{ℕ, ◌<◌, ◌≡◌, ◌⊎◌, inl, inr, Option, none, some, arith}
use sahya_net.Types.Digest.{Digest}

-- The results of `put`: the new archive, `Error::AlreadyPrunedTo`, or another error.
pub data Put (S : Type 0) : Type 0 where
  stored : S → Put S
  already_pruned : Put S
  failed : Put S

pub record Archive (V : Type 0) : Type 1 where
  pub Store : Type 0
  -- `put(index, key, value)`
  pub put : ℕ → Digest → V → Store → Put Store
  -- `get(Identifier::Index(_))` and `get(Identifier::Key(_))`
  pub get_index : ℕ → Store → Option V
  pub get_key : Digest → Store → Option V
  pub prune : ℕ → Store → Store
  -- the end of the range that holds the index, and the start of the next range behind it
  pub next_gap : ℕ → Store → Option ℕ × Option ℕ
  -- an item of the archive, for the laws alone
  pub Holds : Store → ℕ → Digest → V → Type 0

-- No operation makes up an item.
pub record ArchiveLaws {V : Type 0} (a : Archive V) : Type 0 where
  pub get_index-Holds :
      (i : ℕ) (s : a.Store) (v : V) → a.get_index i s ≡ some v → (k : Digest) × a.Holds s i k v
  pub get_key-Holds :
      (k : Digest) (s : a.Store) (v : V) → a.get_key k s ≡ some v → (i : ℕ) × a.Holds s i k v
  pub put-Holds :
      (i : ℕ) (k : Digest) (v : V) (s s' : a.Store) (j : ℕ) (d : Digest) (w : V)
      → a.put i k v s ≡ stored s'
      → a.Holds s' j d w
      → ((j ≡ i) × (d ≡ k) × (w ≡ v)) ⊎ a.Holds s j d w
  pub prune-Holds :
      (m : ℕ) (s : a.Store) (j : ℕ) (d : Digest) (w : V)
      → a.Holds (a.prune m s) j d w
      → a.Holds s j d w

-- An immutable archive keeps the first item of an index for ever.
pub record ImmutableLaws {V : Type 0} (a : Archive V) : Type 0 where
  pub put-keeps :
      (i : ℕ) (k : Digest) (v : V) (s s' : a.Store) (j : ℕ) (w : V)
      → a.put i k v s ≡ stored s'
      → a.get_index j s ≡ some w
      → a.get_index j s' ≡ some w
  pub put-fills :
      (i : ℕ) (k : Digest) (v : V) (s s' : a.Store)
      → a.put i k v s ≡ stored s'
      → (w : V) × (a.get_index i s' ≡ some w)
  pub next_gap-start :
      (n g : ℕ) (s : a.Store)
      → (a.next_gap n s).1 ≡ some g
      → (n < g) × ((w : V) × (a.get_index g s ≡ some w))
  -- what starts behind a missing index starts at the least index there
  pub next_gap-least :
      (n g h : ℕ) (s : a.Store)
      → a.get_index n s ≡ none
      → (a.next_gap n s).1 ≡ some g
      → n < h
      → h < g
      → a.get_index h s ≡ none
  -- if something stands behind a missing index, then something starts behind it
  pub next_gap-some :
      (n h : ℕ) (s : a.Store) (w : V)
      → a.get_index n s ≡ none
      → n < h
      → a.get_index h s ≡ some w
      → (g : ℕ) × ((a.next_gap n s).1 ≡ some g)

-- `.expect(..)` on the result of a `put`; `none` is a panic.
abbrev pub expect : {S : Type 0} → Put S → Option S
expect (stored s) = some s
expect already_pruned = none
expect failed = none

-- A `put` below the pruning bound changes nothing and is no failure.
abbrev pub tolerate : {S : Type 0} → S → Put S → Option S
tolerate s (stored s') = some s'
tolerate s already_pruned = some s
tolerate s failed = none

-- Every item of an archive satisfies `P`.
abbrev pub Stores : {V : Type 0} (a : Archive V) → (ℕ → Digest → V → Type 0) → a.Store → Type 0
Stores {V} a P s = (i : ℕ) (k : Digest) (v : V) → a.Holds s i k v → P i k v

pub expect-some : {S : Type 0} (r : Put S) (s : S) → expect r ≡ some s → r ≡ stored s
expect-some r s h = ground arith

pub tolerate-some :
    {S : Type 0} (old : S) (r : Put S) (s : S)
    → tolerate old r ≡ some s
    → (r ≡ stored s) ⊎ (s ≡ old)
tolerate-some old r s h = ground arith

module _ {V : Type 0} (a : Archive V) (laws : ArchiveLaws a) (P : ℕ → Digest → V → Type 0) where
  Stores-stored :
      (i : ℕ) (k : Digest) (v : V) (s s' : a.Store)
      → a.put i k v s ≡ stored s'
      → P i k v
      → Stores a P s
      → Stores a P s'
  Stores-stored i k v s s' e p h j d w m = elim (laws.put-Holds i k v s s' j d w e m) [
    | inl n ↦ rw (n.0, n.1, n.2) p
    | inr o ↦ h j d w o
  ]

  pub Stores-expect :
      (i : ℕ) (k : Digest) (v : V) (s s' : a.Store)
      → expect (a.put i k v s) ≡ some s'
      → P i k v
      → Stores a P s
      → Stores a P s'
  Stores-expect i k v s s' e p h = Stores-stored i k v s s' (expect-some (a.put i k v s) s' e) p h

  pub Stores-tolerate :
      (i : ℕ) (k : Digest) (v : V) (s s' : a.Store)
      → tolerate s (a.put i k v s) ≡ some s'
      → P i k v
      → Stores a P s
      → Stores a P s'
  Stores-tolerate i k v s s' e p h = elim (tolerate-some s (a.put i k v s) s' e) [
    | inl put ↦ Stores-stored i k v s s' put p h
    | inr same ↦ rw same h
  ]

  pub Stores-prune : (m : ℕ) (s : a.Store) → Stores a P s → Stores a P (a.prune m s)
  Stores-prune m s h j d w o = h j d w (laws.prune-Holds m s j d w o)
