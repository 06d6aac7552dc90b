-- ===== src/Application/Notifier.antt =====
-- application/src/finalizer.rs, `HeightNotifier`: who waits for which height. A sender of a oneshot
-- channel is a number; a `BTreeMap` is its entries in ascending order of the keys.
pub mod Waiters
mod Tests
use sahya_net.Prelude.{ℕ, ◌+◌, ◌%◌, ◌^◌, List, [], ◌∷◌, ◌++◌, ltb, leb, ◌==◌, if◌then◌else◌}

abbrev pub Pending : Type 0
Pending = List (ℕ × List ℕ)

-- `HeightNotifier::new`
abbrev pub empty : Pending
empty = []

-- `pending.entry(height).or_default().push(sender)`
unfoldable pub register : ℕ → ℕ → Pending → Pending
register height sender [] = (height, sender ∷ []) ∷ []
register height sender ((k, senders) ∷ rest) =
    let later = register height sender rest in
    if height == k
    then (k, senders ++ sender ∷ []) ∷ rest
    else if ltb height k
    then (height, sender ∷ []) ∷ (k, senders) ∷ rest
    else (k, senders) ∷ later

-- `BTreeMap::split_off`: the entries below the key, which stay, and the others, which it returns.
unfoldable pub split_off : ℕ → Pending → Pending × Pending
split_off key [] = ([], [])
split_off key ((k, senders) ∷ rest) =
    let parts = split_off key rest in
    if ltb k key then ((k, senders) ∷ parts.0, parts.1) else (parts.0, (k, senders) ∷ parts.1)

-- The senders of all entries, in the order in which they are signalled.
unfoldable pub senders_of : Pending → List ℕ
senders_of [] = []
senders_of ((k, senders) ∷ rest) = senders ++ senders_of rest

-- `notify_up_to`: what stays pending, and the senders that are signalled. The key wraps as a u64.
unfoldable pub notify_up_to : ℕ → Pending → Pending × List ℕ
notify_up_to current_height pending =
    let parts = split_off ((current_height + 1) % 2 ^ 64) pending in (parts.1, senders_of parts.0)
