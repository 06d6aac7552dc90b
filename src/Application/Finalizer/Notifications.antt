-- ===== src/Application/Finalizer/Notifications.antt =====
-- Who waits for a height is told once, when the height is reached.
use sahya_net.Prelude.{
  ℕ, ◌+◌, ◌%◌, ◌^◌, ◌<◌, ◌≤◌, ◌≡◌, refl, ap, ◌∙◌, inl, inr, Option, none, some, List, [], ◌∷◌, ◌++◌,
  length, leb, Bool-cases, arith,
}
use sahya_net.Types.Primitives.{Primitives}
use sahya_net.Types.Block.{Block}
use sahya_net.Application.Notifier.{notify_up_to, senders_of}
use sahya_net.Application.Notifier.Waiters.{
  waiting, count, IsAscending, count-append, waiting-register, register-IsAscending,
  waiting-notify_up_to, notify_up_to-IsAscending, count-notify_up_to, count-register,
}
use sahya_net.Application.Finalizer.Order.{IsStep-le, turn-IsStep}
use sahya_net.Application.Finalizer.{
  Finalizer, Wake, height_notify, new_block, Answers, Effect, send, processed, receive, sends,
  commit, wait, idle, turn_on, turn, run,
}

-- Nobody waits for a height that is reached.
pub record IsCaughtUp (s : Finalizer) : Type 0 where
  pub ascending : IsAscending s.pending
  pub none_due : (height : ℕ) → height ≤ s.last_indexed → waiting height s.pending ≡ []

module _ (x : Primitives) where
  -- The senders that are signalled, and those that come with a height.
  unfoldable pub signalled : List (Effect x) → List ℕ
  signalled [] = []
  signalled (send sender ∷ rest) = sender ∷ signalled rest
  signalled (effect ∷ rest) = signalled rest

  unfoldable pub received : List (Effect x) → List ℕ
  received [] = []
  received (receive height sender ∷ rest) = sender ∷ received rest
  received (effect ∷ rest) = received rest

  signalled-append : (a b : List (Effect x)) → signalled (a ++ b) ≡ signalled a ++ signalled b
  unfolding signalled
  signalled-append [] b = refl
  signalled-append (send s ∷ a) b = ap (λ l. s ∷ l) (signalled-append a b)
  signalled-append (effect ∷ a) b = signalled-append a b

  received-append : (a b : List (Effect x)) → received (a ++ b) ≡ received a ++ received b
  unfolding received
  received-append [] b = refl
  received-append (receive h s ∷ a) b = ap (λ l. s ∷ l) (received-append a b)
  received-append (effect ∷ a) b = received-append a b

  signalled-sends :
      (l : List ℕ) (last : List (Effect x)) → signalled (sends x l last) ≡ l ++ signalled last
  unfolding signalled
  signalled-sends [] last = refl
  signalled-sends (s ∷ l) last = ap (λ m. s ∷ m) (signalled-sends l last)

  received-sends : (l : List ℕ) (last : List (Effect x)) → received (sends x l last) ≡ received last
  unfolding received
  received-sends [] last = refl
  received-sends (s ∷ l) last = received-sends l last

  -- Nobody is forgotten and nobody is told twice.
  abbrev pub Balances : Finalizer → Finalizer → List (Effect x) → Type 0
  Balances s s' effects =
      (sender : ℕ)
      → count sender (signalled effects) + count sender (senders_of s'.pending)
        ≡ count sender (received effects) + count sender (senders_of s.pending)

  wait-IsCaughtUp : (w : Wake) (s : Finalizer) → IsCaughtUp s → IsCaughtUp (wait x w s).0
  unfolding wait
  wait-IsCaughtUp new_block s c = c
  wait-IsCaughtUp (height_notify height sender) s c =
      elim (Bool-cases (leb height s.last_indexed)) [
        | inl reached ↦ rw reached c
        | inr later ↦ rw later (record {
          ascending = register-IsAscending height sender s.pending c.ascending;
          none_due = λ k le.
              waiting-register height k sender s.pending c.ascending
              ∙ ground (arith, c.none_due k le);
        })
      ]

  wait-Balances : (w : Wake) (s : Finalizer) → Balances s (wait x w s).0 (wait x w s).1
  unfolding wait signalled received count
  wait-Balances new_block s sender = refl
  wait-Balances (height_notify height waiter) s sender =
      ground (arith, count-register height waiter sender s.pending)

  idle-IsCaughtUp :
      (next : ℕ) (a : Answers x) (s : Finalizer) → IsCaughtUp s → IsCaughtUp (idle x next a s).0
  unfolding idle
  idle-IsCaughtUp next a s c = elim (Bool-cases a.repaired) [
    | inl r ↦ rw r c
    | inr n ↦ rw n (wait-IsCaughtUp a.wake s c)
  ]

  idle-Balances :
      (next : ℕ) (a : Answers x) (s : Finalizer)
      → Balances s (idle x next a s).0 (idle x next a s).1
  unfolding idle signalled received
  idle-Balances next a s sender = elim (Bool-cases a.repaired) [
    | inl r ↦ rw r
    | inr n ↦ rw n (wait-Balances a.wake s sender)
  ]

  commit-IsCaughtUp :
      (next : ℕ) (b : Block x) (s : Finalizer)
      → next + 1 < 2 ^ 64
      → IsCaughtUp s
      → IsCaughtUp (commit x next b s).0
  unfolding commit
  commit-IsCaughtUp next b s range c = record {
    ascending = notify_up_to-IsAscending next s.pending c.ascending;
    none_due = λ k le. ground (arith, waiting-notify_up_to next k s.pending range);
  }

  commit-Balances :
      (next : ℕ) (b : Block x) (s : Finalizer)
      → Balances s (commit x next b s).0 (commit x next b s).1
  unfolding commit signalled received
  commit-Balances next b s sender =
      let l = (notify_up_to next s.pending).1 in
      let last : List (Effect x) = processed next b.digest ∷ [] in
      rw (signalled-sends l last, received-sends l last)
        (omega (arith, count-notify_up_to next sender s.pending, count-append sender l []))

  turn_on-IsCaughtUp :
      (next : ℕ) (a : Answers x) (o : Option (Block x)) (s : Finalizer)
      → next + 1 < 2 ^ 64
      → IsCaughtUp s
      → IsCaughtUp (turn_on x next a o s).0
  unfolding turn_on
  turn_on-IsCaughtUp next a none s range c = idle-IsCaughtUp next a s c
  turn_on-IsCaughtUp next a (some b) s range c = elim (Bool-cases a.is_valid) [
    | inl valid ↦ rw valid (commit-IsCaughtUp next b s range c)
    | inr bad ↦ rw bad (idle-IsCaughtUp next a s c)
  ]

  turn_on-Balances :
      (next : ℕ) (a : Answers x) (o : Option (Block x)) (s : Finalizer)
      → Balances s (turn_on x next a o s).0 (turn_on x next a o s).1
  unfolding turn_on signalled received
  turn_on-Balances next a none s sender = idle-Balances next a s sender
  turn_on-Balances next a (some b) s sender = elim (Bool-cases a.is_valid) [
    | inl valid ↦ rw valid (commit-Balances next b s sender)
    | inr bad ↦ rw bad (idle-Balances next a s sender)
  ]

  turn-IsCaughtUp :
      (a : Answers x) (s : Finalizer)
      → s.last_indexed + 2 < 2 ^ 64
      → IsCaughtUp s
      → IsCaughtUp (turn x a s).0
  unfolding turn
  turn-IsCaughtUp a s range c =
      turn_on-IsCaughtUp ((s.last_indexed + 1) % 2 ^ 64) a a.block s (omega arith) c

  turn-Balances : (a : Answers x) (s : Finalizer) → Balances s (turn x a s).0 (turn x a s).1
  unfolding turn
  turn-Balances a s sender = turn_on-Balances ((s.last_indexed + 1) % 2 ^ 64) a a.block s sender

  -- If nobody waits for a height that is reached, then nobody does after any run, while the
  -- heights fit a u64.
  pub run-IsCaughtUp :
      (answers : List (Answers x)) (s : Finalizer)
      → s.last_indexed + length answers + 1 < 2 ^ 64
      → IsCaughtUp s
      → IsCaughtUp (run x answers s).0
  unfolding run
  run-IsCaughtUp [] s range c = c
  run-IsCaughtUp (a ∷ rest) s range c =
      run-IsCaughtUp rest (turn x a s).0
        (let bound = IsStep-le x s _ _ (turn-IsStep x a s (omega arith)) in omega arith)
        (turn-IsCaughtUp a s (omega arith) c)

  -- Over any run every sender is signalled as often as it came with a height or was waiting before,
  -- less the times that it is still waiting: nobody is forgotten and nobody is told twice.
  pub run-Balances :
      (answers : List (Answers x)) (s : Finalizer)
      → Balances s (run x answers s).0 (run x answers s).1
  unfolding run signalled received
  run-Balances [] s sender = refl
  run-Balances (a ∷ rest) s sender =
      let (s', now) = turn x a s in
      let (s'', later) = run x rest s' in
      rw (signalled-append now later, received-append now later)
        (omega (
          arith,
          turn-Balances a s sender,
          run-Balances rest s' sender,
          count-append sender (signalled now) (signalled later),
          count-append sender (received now) (received later),
        ))
