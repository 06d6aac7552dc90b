-- ===== src/Application/Notifier/Tests.antt =====
-- Waiters for the heights 3 and 5.
use sahya_net.Prelude.{◌≡◌, refl, [], ◌∷◌}
use sahya_net.Application.Notifier.{Pending, split_off, senders_of, notify_up_to}

abbrev two_heights : Pending
two_heights = (3, 0 ∷ 1 ∷ []) ∷ (5, 2 ∷ []) ∷ []

height_three : notify_up_to 3 two_heights ≡ ((5, 2 ∷ []) ∷ [], 0 ∷ 1 ∷ [])
unfolding notify_up_to split_off senders_of
height_three = refl
