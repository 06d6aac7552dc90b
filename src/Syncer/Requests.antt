-- ===== src/Syncer/Requests.antt =====
-- Which blocks and views the syncer asks its peers for, and which of those requests it withdraws.
mod Tests
use sahya_net.Prelude.{
  min, ℕ, zero, suc, ◌+◌, ◌-◌, ◌%◌, ◌^◌, ◌<◌, ◌≤◌, ◌≡◌, refl, ◌∙◌, ◌⊎◌, inl, inr, Bool, true, false,
  not, ◌&&◌, ◌||◌, List, [], ◌∷◌, All, length, ltb, leb, contains, insert, retain, contains-insert,
  contains-retain, Bool-cases, if◌then◌else◌, arith, ◌==◌,
}
use sahya_net.Syncer.Environment.{Environment}
use sahya_net.Syncer.State.{State, Effect, respond_bool}
use sahya_net.Syncer.Orchestrate.{request_range, fetch_heights, enqueue}
use sahya_net.Syncer.Actor.{cancel_useless, cancel_views}

-- what the loop keeps in mind after one more height
abbrev asked : ℕ → List ℕ → List ℕ
asked height requested = if contains requested height then requested else insert height requested

contains-asked :
    (height k : ℕ) (requested : List ℕ)
    → contains (asked height requested) k ≡ ((height == k) || contains requested k)
contains-asked height k requested = ground (arith, contains-insert height k requested)

-- Exactly the heights of the range that were not requested before.
contains-fetched :
    (rounds height : ℕ) (requested : List ℕ) (k : ℕ)
    → contains (request_range rounds height requested).1 k
      ≡ (not (contains requested k) && (leb height k && ltb k (height + rounds)))
unfolding request_range contains
contains-fetched zero height requested k = ground arith
contains-fetched (suc rounds) height requested k =
    let rest = contains-fetched rounds (suc height) (asked height requested) k in
    elim (Bool-cases (contains requested height)) [
      | inl known ↦ ground (arith, known, rest, contains-asked height k requested)
      | inr new ↦ ground (arith, new, rest, contains-asked height k requested)
    ]

-- No number twice.
abbrev pub AllDistinct : List ℕ → Type 0
AllDistinct [] = Unit
AllDistinct (k ∷ rest) = (contains rest k ≡ false) × AllDistinct rest

request_range-AllDistinct :
    (rounds height : ℕ) (requested : List ℕ) → AllDistinct (request_range rounds height requested).1
unfolding request_range
request_range-AllDistinct zero height requested = tt
request_range-AllDistinct (suc rounds) height requested =
    let rest = request_range-AllDistinct rounds (suc height) (asked height requested) in
    let later = contains-fetched rounds (suc height) (asked height requested) height in
    elim (Bool-cases (contains requested height)) [
      | inl known ↦ rw known (rw known at rest)
      | inr new ↦ rw new ((let here = rw new at later in here ∙ ground arith), rw new at rest)
    ]

length-request_range :
    (rounds height : ℕ) (requested : List ℕ)
    → length (request_range rounds height requested).1 ≤ rounds
unfolding request_range
length-request_range zero height requested = omega arith
length-request_range (suc rounds) height requested =
    ground (arith, length-request_range rounds (suc height) (asked height requested))

contains-request_range :
    (rounds height : ℕ) (requested : List ℕ) (k : ℕ)
    → contains (request_range rounds height requested).0 k
      ≡ (contains requested k || (leb height k && ltb k (height + rounds)))
unfolding request_range
contains-request_range zero height requested k = ground arith
contains-request_range (suc rounds) height requested k = ground (
  arith,
  contains-request_range rounds (suc height) (asked height requested) k,
  contains-asked height k requested,
)

request_range_known :
    (rounds height : ℕ) (requested : List ℕ)
    → ((k : ℕ) → height ≤ k → k < height + rounds → contains requested k ≡ true)
    → (request_range rounds height requested).1 ≡ []
unfolding request_range
request_range_known zero height requested h = refl
request_range_known (suc rounds) height requested h =
    rw (h height (omega arith) (omega arith)) (
      request_range_known rounds (suc height) requested
        (λ k lo hi. h k (omega arith) (omega arith)))

module _ (e : Environment) where
  -- Behind a gap that ends at `start_next` the syncer fetches, each once, exactly the heights from
  -- `next` up to but not including the lesser of `start_next` and `next + 20` modulo 2 ^ 64 that it
  -- has not requested before, 20 at most; then it answers `false`. Afterwards it has requested what it had requested before and every height from `next`
  -- up to but not including the lesser of `start_next` and `next + 20` modulo 2 ^ 64.
  pub enqueue_requests :
      (next start_next : ℕ) (s : State e)
      → let last = min start_next ((next + 20) % 2 ^ 64) in
        (heights : List ℕ) × ((enqueue e next start_next s).1
          ≡ fetch_heights e heights (respond_bool false ∷ []))
        × AllDistinct heights
        × ((k : ℕ)
            → contains heights k
              ≡ (not (contains s.requested_blocks k) && (leb next k && ltb k last)))
        × (length heights ≤ 20)
        × ((k : ℕ)
            → contains (enqueue e next start_next s).0.requested_blocks k
              ≡ (contains s.requested_blocks k || (leb next k && ltb k last)))
  unfolding enqueue
  enqueue_requests next start_next s =
      let last = min start_next ((next + 20) % 2 ^ 64) in
      let rounds = last - next in
      let asked_now = request_range rounds next s.requested_blocks in
      (
        asked_now.1,
        refl,
        request_range-AllDistinct rounds next s.requested_blocks,
        λ k. ground (arith, contains-fetched rounds next s.requested_blocks k),
        omega (arith, length-request_range rounds next s.requested_blocks),
        λ k. ground (arith, contains-request_range rounds next s.requested_blocks k),
      )

  -- The same repair, asked for again before any answer, fetches nothing.
  pub enqueue_again :
      (next start_next : ℕ) (s : State e)
      → (enqueue e next start_next (enqueue e next start_next s).0).1 ≡ respond_bool false ∷ []
  unfolding enqueue
  enqueue_again next start_next s =
      let rounds = min start_next ((next + 20) % 2 ^ 64) - next in
      let first = (request_range rounds next s.requested_blocks).0 in
      rw (
        request_range_known rounds next first
          (λ k lo hi. ground (arith, contains-request_range rounds next s.requested_blocks k)))

  -- At the start of a turn exactly the outstanding views below the latest finalized view are dropped,
  -- and exactly those are cancelled at the resolver.
  pub cancel_useless_views :
      (s : State e)
      → (cancelled : List ℕ) × ((cancel_useless e s).1 ≡ cancel_views e cancelled)
        × ((v : ℕ)
            → contains cancelled v ≡ (contains s.outstanding_notarize v && ltb v s.latest_view))
        × ((v : ℕ)
            → contains (cancel_useless e s).0.outstanding_notarize v
              ≡ (contains s.outstanding_notarize v && leb s.latest_view v))
  unfolding cancel_useless
  cancel_useless_views s = (
    retain (λ view. ltb view s.latest_view) s.outstanding_notarize,
    refl,
    λ v. contains-retain (λ view. ltb view s.latest_view) s.outstanding_notarize v,
    λ v.
        contains-retain (λ view. not (ltb view s.latest_view)) s.outstanding_notarize v
        ∙ ground arith,
  )
