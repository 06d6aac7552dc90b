-- ===== src/Application/EngineClient/Head.antt =====
-- The head of the execution client is the last block that the finalizer has committed.
use sahya_net.Prelude.{
  ℕ, ◌+◌, ◌%◌, ◌^◌, ◌<◌, ◌≤◌, ◌≡◌, refl, sym, ap, ◌∙◌, ◌⊎◌, inl, inr, Bool, true, false, Option,
  none, some, List, [], ◌∷◌, length, All, Bool-cases, replicate, arith,
}
use sahya_net.Types.Digest.{Digest}
use sahya_net.Types.Primitives.{Primitives}
use sahya_net.Types.Block.{Block, ◌>>=◌, eth_block_hash, eth_parent_hash}
use sahya_net.Application.Notifier.{notify_up_to}
use sahya_net.Application.Finalizer.{
  forkchoice_of, Finalizer, Answers, Effect, processed, height_notify, new_block, Wake, sends, wait,
  commit, idle, turn_on, turn,
}
use sahya_net.Application.EngineClient.{Provider, ProviderLaws, check_payload}
use sahya_net.Application.EngineClient.Turns.{
  Inputs, checked, perform, answers_of, settle, turn_with, run_with,
}

-- The finalized blocks by height: each payload is built on the one before.
pub record IsChain (x : Primitives) (chain : ℕ → Block x) : Type 0 where
  pub height_of : (n : ℕ) → (chain n).height ≡ n
  pub links : (n : ℕ) → eth_parent_hash x (chain (n + 1)) ≡ eth_block_hash x (chain n)

module _ {x : Primitives} (p : Provider x) (laws : ProviderLaws p) (chain : ℕ → Block x) where
  abbrev pub hash_at : ℕ → Digest
  hash_at n = eth_block_hash x (chain n)

  -- The syncer answers with blocks of the chain only.
  abbrev pub IsFromChain : Inputs x → Type 0
  IsFromChain i = (h : ℕ) (b : Block x) → i.get h ≡ some b → b ≡ chain h

  -- The head is the block at the height, or the next one if the node stopped between the call and
  -- the storing of the height.
  abbrev pub IsBeside : ℕ → p.Client → Type 0
  IsBeside n c = (laws.head c ≡ hash_at n) ⊎ (laws.head c ≡ hash_at (n + 1))

  next_fits : (n : ℕ) → n + 1 < 2 ^ 64 → (n + 1) % 2 ^ 64 ≡ n + 1
  next_fits n range = omega arith

  -- From one pair of finalizer and client to another: nothing is committed, or the head and the
  -- shared forkchoice are the block at the new height.
  pub record Moves (s s' : Finalizer) (c c' : p.Client) : Type 0 where
    pub up : s.last_indexed ≤ s'.last_indexed
    pub moved :
        ((s'.last_indexed ≡ s.last_indexed)
          × (laws.head c' ≡ laws.head c)
          × (s'.forkchoice ≡ s.forkchoice))
        ⊎ ((s.last_indexed < s'.last_indexed)
            × (laws.head c' ≡ hash_at s'.last_indexed)
            × (s'.forkchoice ≡ forkchoice_of (hash_at s'.last_indexed)))

  pub Moves-shared :
      (s s' : Finalizer) (c c' : p.Client)
      → Moves s s' c c'
      → s.last_indexed < s'.last_indexed
      → s'.forkchoice ≡ forkchoice_of (hash_at s'.last_indexed)
  Moves-shared s s' c c' m committed = elim m.moved [
    | inl (same, head_same, shared) ↦ absurd (omega arith)
    | inr (up, head_at, shared) ↦ shared
  ]

  perform-sends :
      (l : List ℕ) (h : ℕ) (d : Digest) (c : p.Client)
      → perform p (sends x l (processed h d ∷ [])) c ≡ some c
  unfolding perform
  perform-sends [] h d c = refl
  perform-sends (sender ∷ l) h d c = perform-sends l h d c

  -- A turn without a block leaves the client, the height and the forkchoice.
  record Rests (s : Finalizer) (c : p.Client) (r : Finalizer × List (Effect x)) : Type 0 where
    pub performs : perform p r.1 c ≡ some c
    pub height : r.0.last_indexed ≡ s.last_indexed
    pub shared : r.0.forkchoice ≡ s.forkchoice

  wait-Rests : (w : Wake) (s : Finalizer) (c : p.Client) → Rests s c (wait x w s)
  unfolding perform wait
  wait-Rests new_block s c = record { performs = refl; height = refl; shared = refl }
  wait-Rests (height_notify height sender) s c = record {
    performs = ground arith;
    height = ground arith;
    shared = ground arith;
  }

  idle-Rests :
      (next : ℕ) (a : Answers x) (s : Finalizer) (c : p.Client) → Rests s c (idle x next a s)
  unfolding perform idle
  idle-Rests next a s c = elim (Bool-cases a.repaired) [
    | inl mended ↦ rw mended (record { performs = refl; height = refl; shared = refl })
    | inr none_mended ↦ rw none_mended (
        let w = wait-Rests a.wake s c in
        record { performs = w.performs; height = w.height; shared = w.shared })
  ]

  -- The payload of a block is checked.
  record Checks (b : Block x) (c : p.Client) : Type 0 where
    pub client : p.Client
    pub valid : Bool
    pub answer : checked p (some b) c ≡ some (client, valid)
    pub same_head : laws.head client ≡ laws.head c
    pub sound : valid ≡ true → laws.IsValid client b.execution_payload

  checked-Checks : (b : Block x) (c : p.Client) → Checks b c
  unfolding checked check_payload
  checked-Checks b c =
      let (c', status, answer, same, sound) =
        laws.checks b.execution_payload [] (replicate 32 1) b.execution_requests c in
      record {
        client = c';
        valid = p.is_valid status;
        answer = rw answer refl;
        same_head = same;
        sound = sound;
      }

  module _ (chained : IsChain x chain) where
    executed : (n : ℕ) → hash_at (n + 1) ≡ x.block_hash (chain (n + 1)).execution_payload
    unfolding eth_block_hash
    executed n = let h = chained.height_of (n + 1) in ground arith

    -- The forkchoice of the next block of the chain is taken.
    commit-sets :
        (n : ℕ) (s : Finalizer) (c : p.Client)
        → IsBeside n c
        → laws.IsValid c (chain (n + 1)).execution_payload
        → (c' : p.Client) × (perform p (commit x (n + 1) (chain (n + 1)) s).1 c ≡ some c')
          × (laws.head c' ≡ hash_at (n + 1))
    unfolding perform commit sahya_net.Application.EngineClient.commit_hash eth_parent_hash
    commit-sets n s c beside valid =
        let own = executed n in
        let on_head : (x.parent_hash (chain (n + 1)).execution_payload ≡ laws.head c)
            ⊎ (x.block_hash (chain (n + 1)).execution_payload ≡ laws.head c) =
          elim beside [
            | inl at ↦ inl (unfold eth_parent_hash in chained.links n ∙ sym at)
            | inr after ↦ inr (sym own ∙ sym after)
          ] in
        let (c', id, set, headed) = laws.sets (chain (n + 1)).execution_payload c valid on_head in
        (
          c',
          rw (own, set)
              (perform-sends (notify_up_to (n + 1) s.pending).1 (n + 1) (chain (n + 1)).digest c'),
          headed ∙ sym own,
        )

    -- What is computed ends, and moves the two.
    abbrev Ends : Option (Finalizer × p.Client) → Finalizer → p.Client → Type 0
    Ends o s c =
        (s' : Finalizer) × (c' : p.Client) × (o ≡ some (s', c'))
        × Moves s s' c c'
        × (s'.last_indexed ≤ s.last_indexed + 1)

    Rests-Ends :
        (s : Finalizer) (c c1 : p.Client) (r : Finalizer × List (Effect x))
        → Rests s c1 r
        → laws.head c1 ≡ laws.head c
        → Ends (settle p r c1) s c
    unfolding settle
    Rests-Ends s c c1 r rests same = (
      r.0,
      c1,
      rw rests.performs refl,
      record { up = omega (arith, rests.height); moved = inl (rests.height, same, rests.shared) },
      omega (arith, rests.height),
    )

    commit-Ends :
        (s : Finalizer) (c c1 : p.Client) (next : ℕ) (b : Block x)
        → next ≡ s.last_indexed + 1
        → b ≡ chain (s.last_indexed + 1)
        → IsBeside s.last_indexed c1
        → laws.IsValid c1 b.execution_payload
        → Ends (settle p (commit x next b s) c1) s c
    unfolding settle
    commit-Ends s c c1 next b is_next is_b beside valid =
        let (c', set, headed) = commit-sets s.last_indexed s c1 beside (rw is_b at valid) in
        rw (is_b, is_next)
          (
            (commit x (s.last_indexed + 1) (chain (s.last_indexed + 1)) s).0,
            c',
            rw set refl,
            unfold commit in record { up = omega arith; moved = inr (omega arith, headed, refl) },
            unfold commit in omega arith,
          )

    turn_on-Ends :
        (next : ℕ) (i : Inputs x) (s : Finalizer) (c : p.Client) (o : Option (Block x))
        → next ≡ s.last_indexed + 1
        → IsFromChain i
        → IsBeside s.last_indexed c
        → i.get next ≡ o
        → Ends
            (checked p o c
              >>= (λ res. settle p (turn_on x next (answers_of p i next res.1) o s) res.0))
            s
            c
    unfolding turn_on
    turn_on-Ends next i s c none is_next chains beside got =
        unfold checked in
        let rests = idle-Rests next (answers_of p i next false) s c in
        Rests-Ends s c c _
          (record {
            performs = (unfold perform in rests.performs);
            height = rests.height;
            shared = rests.shared;
          })
          refl
    turn_on-Ends next i s c (some b) is_next chains beside got =
        let k = checked-Checks b c in
        rw k.answer (elim (Bool-cases k.valid) [
          | inl valid ↦ rw valid (
              unfold settle perform in
              commit-Ends s c k.client next b is_next (chains next b got ∙ ap chain is_next)
                (elim beside [
                  | inl at ↦ inl (k.same_head ∙ at)
                  | inr after ↦ inr (k.same_head ∙ after)
                ])
                (k.sound valid))
          | inr refused ↦ rw refused (
              let rests = idle-Rests next (answers_of p i next k.valid) s k.client in
              Rests-Ends s c k.client _
                (record {
                  performs = unfold perform in rests.performs;
                  height = rests.height;
                  shared = rests.shared;
                })
                k.same_head)
        ])

    turn-Ends :
        (i : Inputs x) (s : Finalizer) (c : p.Client)
        → IsFromChain i
        → s.last_indexed + 1 < 2 ^ 64
        → IsBeside s.last_indexed c
        → Ends (turn_with p i s c) s c
    unfolding turn_with turn
    turn-Ends i s c chains range beside =
        turn_on-Ends ((s.last_indexed + 1) % 2 ^ 64) i s c (i.get ((s.last_indexed + 1) % 2 ^ 64))
          (next_fits s.last_indexed range) chains beside refl

    Moves-IsBeside :
        (s s' : Finalizer) (c c' : p.Client)
        → Moves s s' c c'
        → IsBeside s.last_indexed c
        → IsBeside s'.last_indexed c'
    Moves-IsBeside s s' c c' m beside = elim m.moved [
      | inr (up, head_at, shared) ↦ inl head_at
      | inl (same, head_same, shared) ↦
          rw same
            (elim beside [ inl at ↦ inl (head_same ∙ at) | inr after ↦ inr (head_same ∙ after) ])
    ]

    Moves-trans :
        (s s1 s2 : Finalizer) (c c1 c2 : p.Client)
        → Moves s s1 c c1
        → Moves s1 s2 c1 c2
        → Moves s s2 c c2
    Moves-trans s s1 s2 c c1 c2 m n = record {
      up = omega (arith, m.up, n.up);
      moved = elim n.moved [
        | inr (up, head_at, shared) ↦ inr (omega (arith, m.up), head_at, shared)
        | inl (same, head_same, shared) ↦ elim m.moved [
          | inl (same1, head_same1, shared1) ↦
              inl (same ∙ same1, head_same ∙ head_same1, shared ∙ shared1)
          | inr (up1, head_at1, shared1) ↦
              inr (omega arith, rw same (head_same ∙ head_at1), rw same (shared ∙ shared1))
        ]
      ];
    }

    -- Suppose that the execution client is reached at every call, that the syncer answers with
    -- blocks of one chain, whose payloads are built on each other, that the head of the client is
    -- the block at the finalizer's height or the next one, as a stop between the commit and the
    -- storing of the height leaves it, and that the heights fit a u64. Then a run of the finalizer
    -- against the client ends without a panic; and either it has committed nothing and left the head
    -- and the shared forkchoice, or the head of the client and the shared forkchoice are the block
    -- of the chain at the finalizer's new height.
    pub run_with-Moves :
        (inputs : List (Inputs x)) (s : Finalizer) (c : p.Client)
        → All IsFromChain inputs
        → s.last_indexed + length inputs < 2 ^ 64
        → IsBeside s.last_indexed c
        → (s' : Finalizer) × (c' : p.Client) × (run_with p inputs s c ≡ some (s', c'))
          × Moves s s' c c'
    unfolding run_with
    run_with-Moves [] s c chains range beside =
        (s, c, refl, record { up = omega arith; moved = inl (refl, refl, refl) })
    run_with-Moves (i ∷ rest) s c chains range beside =
        let (s1, c1, first, m, bound) = turn-Ends i s c chains.0 (omega arith) beside in
        let (s2, c2, later, n) =
          run_with-Moves rest s1 c1 chains.1 (omega (arith, range, bound))
            (Moves-IsBeside s s1 c c1 m beside) in
        (s2, c2, rw first later, Moves-trans s s1 s2 c c1 c2 m n)
