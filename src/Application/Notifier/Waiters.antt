-- ===== src/Application/Notifier/Waiters.antt =====
-- The waiters of each height, and what becomes of them.
use sahya_net.Prelude.{
  ℕ, suc, ◌+◌, ◌%◌, ◌^◌, ◌<◌, ◌≤◌, ◌≡◌, refl, inl, inr, Bool-cases, List, [], ◌∷◌, ◌++◌, ltb, leb,
  ◌==◌, if◌then◌else◌, arith,
}
use sahya_net.Application.Notifier.{Pending, register, split_off, senders_of, notify_up_to}

-- Who waits for a height, in the order of registration.
unfoldable pub waiting : ℕ → Pending → List ℕ
waiting height [] = []
waiting height ((k, senders) ∷ rest) = if k == height then senders else waiting height rest

unfoldable pub count : ℕ → List ℕ → ℕ
count x [] = 0
count x (y ∷ l) = let rest = count x l in if y == x then suc rest else rest

-- The keys ascend.
unfoldable pub IsAbove : ℕ → Pending → Type 0
IsAbove k [] = Unit
IsAbove k ((j, senders) ∷ rest) = (k < j) × IsAbove j rest

abbrev pub IsAscending : Pending → Type 0
IsAscending [] = Unit
IsAscending ((k, senders) ∷ rest) = IsAbove k rest

pub count-append : (x : ℕ) (l m : List ℕ) → count x (l ++ m) ≡ count x l + count x m
unfolding count
count-append x [] m = omega arith
count-append x (y ∷ l) m = ground (arith, count-append x l m)

waiting-IsAbove : (height k : ℕ) (p : Pending) → IsAbove k p → height ≤ k → waiting height p ≡ []
unfolding waiting IsAbove
waiting-IsAbove height k [] a h = refl
waiting-IsAbove height k ((j, senders) ∷ rest) a h =
    ground (arith, waiting-IsAbove height j rest a.1)

waiting-register_above :
    (height k sender : ℕ) (b : ℕ) (p : Pending)
    → IsAbove b p
    → waiting k (register height sender p)
      ≡ (if height == k then waiting k p ++ sender ∷ [] else waiting k p)
unfolding waiting register IsAbove
waiting-register_above height k sender b [] a = ground arith
waiting-register_above height k sender b ((j, senders) ∷ rest) a =
    ground
      (arith, waiting-register_above height k sender j rest a.1, waiting-IsAbove height j rest a.1)

register-IsAbove :
    (height sender b : ℕ) (p : Pending)
    → b < height
    → IsAbove b p
    → IsAbove b (register height sender p)
unfolding register IsAbove
register-IsAbove height sender b [] h a = (h, tt)
register-IsAbove height sender b ((j, senders) ∷ rest) h a =
    ground (arith, register-IsAbove height sender j rest)

-- A new waiter stands last among those of its height, and the waiters of other heights are as before.
pub waiting-register :
    (height k sender : ℕ) (p : Pending)
    → IsAscending p
    → waiting k (register height sender p)
      ≡ (if height == k then waiting k p ++ sender ∷ [] else waiting k p)
unfolding waiting register IsAbove
waiting-register height k sender [] a = ground arith
waiting-register height k sender ((j, senders) ∷ rest) a =
    ground (arith, waiting-register_above height k sender j rest a, waiting-IsAbove height j rest a)

pub register-IsAscending :
    (height sender : ℕ) (p : Pending) → IsAscending p → IsAscending (register height sender p)
unfolding register IsAbove
register-IsAscending height sender [] a = tt
register-IsAscending height sender ((j, senders) ∷ rest) a =
    ground (arith, register-IsAbove height sender j rest)

IsAbove-le : (b j : ℕ) (p : Pending) → b ≤ j → IsAbove j p → IsAbove b p
unfolding IsAbove
IsAbove-le b j [] h a = tt
IsAbove-le b j ((k, senders) ∷ rest) h a = (omega arith, a.1)

IsAscending-of_IsAbove : (b : ℕ) (p : Pending) → IsAbove b p → IsAscending p
unfolding IsAbove
IsAscending-of_IsAbove b [] a = tt
IsAscending-of_IsAbove b ((k, senders) ∷ rest) a = a.1

split_off-IsAbove : (key b : ℕ) (p : Pending) → IsAbove b p → IsAbove b (split_off key p).1
unfolding split_off IsAbove
split_off-IsAbove key b [] a = tt
split_off-IsAbove key b ((j, senders) ∷ rest) a = elim (Bool-cases (ltb j key)) [
  | inl below ↦ rw below (split_off-IsAbove key b rest (IsAbove-le b j rest (omega arith) a.1))
  | inr above ↦ rw above (a.0, split_off-IsAbove key j rest a.1)
]

split_off-IsAscending : (key : ℕ) (p : Pending) → IsAscending p → IsAscending (split_off key p).1
unfolding split_off
split_off-IsAscending key [] a = tt
split_off-IsAscending key ((j, senders) ∷ rest) a = elim (Bool-cases (ltb j key)) [
  | inl below ↦
      rw below (IsAscending-of_IsAbove j (split_off key rest).1 (split_off-IsAbove key j rest a))
  | inr above ↦ rw above (split_off-IsAbove key j rest a)
]

waiting-split_off :
    (key k : ℕ) (p : Pending)
    → waiting k (split_off key p).1 ≡ (if ltb k key then [] else waiting k p)
unfolding split_off waiting
waiting-split_off key k [] = ground arith
waiting-split_off key k ((j, senders) ∷ rest) = ground (arith, waiting-split_off key k rest)

waiting-split_off_below :
    (key k : ℕ) (p : Pending)
    → waiting k (split_off key p).0 ≡ (if ltb k key then waiting k p else [])
unfolding split_off waiting
waiting-split_off_below key k [] = ground arith
waiting-split_off_below key k ((j, senders) ∷ rest) =
    ground (arith, waiting-split_off_below key k rest)

count-split_off :
    (key x : ℕ) (p : Pending)
    → count x (senders_of (split_off key p).0) + count x (senders_of (split_off key p).1)
      ≡ count x (senders_of p)
unfolding split_off senders_of count
count-split_off key x [] = omega arith
count-split_off key x ((j, senders) ∷ rest) = ground (
  arith,
  count-split_off key x rest,
  count-append x senders (senders_of (split_off key rest).0),
  count-append x senders (senders_of (split_off key rest).1),
  count-append x senders (senders_of rest),
)

-- After the notification for a height whose successor fits a u64 nobody waits for it or for a
-- lower one, and the waiters of every higher height are as before, in order.
pub waiting-notify_up_to :
    (current k : ℕ) (p : Pending)
    → current + 1 < 2 ^ 64
    → waiting k (notify_up_to current p).0 ≡ (if leb k current then [] else waiting k p)
unfolding notify_up_to
waiting-notify_up_to current k p range =
    ground (arith, waiting-split_off ((current + 1) % 2 ^ 64) k p)

pub notify_up_to-IsAscending :
    (current : ℕ) (p : Pending) → IsAscending p → IsAscending (notify_up_to current p).0
unfolding notify_up_to
notify_up_to-IsAscending current p a = split_off-IsAscending ((current + 1) % 2 ^ 64) p a

-- Every registered sender is either signalled or still pending, as often as it was registered.
pub count-notify_up_to :
    (current x : ℕ) (p : Pending)
    → count x (notify_up_to current p).1 + count x (senders_of (notify_up_to current p).0)
      ≡ count x (senders_of p)
unfolding notify_up_to
count-notify_up_to current x p = count-split_off ((current + 1) % 2 ^ 64) x p

pub count-register :
    (height sender x : ℕ) (p : Pending)
    → count x (senders_of (register height sender p))
      ≡ count x (senders_of p) + count x (sender ∷ [])
unfolding register senders_of
count-register height sender x [] = omega (arith, count-append x (sender ∷ []) [])
count-register height sender x ((j, senders) ∷ rest) = ground (
  arith,
  count-register height sender x rest,
  count-append x senders (senders_of rest),
  count-append x (senders ++ sender ∷ []) (senders_of rest),
  count-append x senders (sender ∷ []),
  count-append x senders (senders_of (register height sender rest)),
  count-append x (sender ∷ []) (senders ++ senders_of rest),
)
