-- ===== src/Syncer/Requests/Tests.antt =====
-- Requests in a state that has asked for height 7 and for the views 2 and 5.
use sahya_net.Prelude.{
  min, ℕ, ◌+◌, ◌%◌, ◌^◌, ◌≤◌, ◌≡◌, not, ◌&&◌, ◌||◌, false, List, [], ◌∷◌, length, ltb, leb,
  contains,
}
use sahya_net.Syncer.Environment.Sample.{environment}
use sahya_net.Syncer.State.{respond_bool}
use sahya_net.Syncer.Orchestrate.{fetch_heights, enqueue}
use sahya_net.Syncer.Requests.{AllDistinct, enqueue_requests}
use sahya_net.Syncer.Scenario.{stored}

enqueue_requests_example :
    (heights : List ℕ) × ((enqueue environment 5 9 stored).1
      ≡ fetch_heights environment heights (respond_bool false ∷ []))
    × AllDistinct heights
    × ((k : ℕ)
        → contains heights k
          ≡ (not (contains (7 ∷ []) k) && (leb 5 k && ltb k (min 9 ((5 + 20) % 2 ^ 64)))))
    × (length heights ≤ 20)
    × ((k : ℕ)
        → contains (enqueue environment 5 9 stored).0.requested_blocks k
          ≡ (contains (7 ∷ []) k || (leb 5 k && ltb k (min 9 ((5 + 20) % 2 ^ 64)))))
enqueue_requests_example = enqueue_requests environment 5 9 stored
