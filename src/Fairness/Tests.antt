-- ===== src/Fairness/Tests.antt =====
-- Two callers of one tenant, and instances of the theorems about the limiter.
use pergamon.Common.{◌≤◌, ◌<◌, ◌≡◌, refl, false, none, some, List, [], ◌∷◌, arith}
use pergamon.Common.Maps.{lookup}
use pergamon.Fairness.{
  Wake, for_pool, is_disabled, try_slot, in_flight, acquire, acquire_loop, slot,
}
use pergamon.Fairness.Slots.{
  TenantLimiter, Reachable, Step, slots_of, entry, empty, limiter_exact, pool_keeps_room,
}

-- A pool of three connections.
abbrev one : TenantLimiter
one = record { inflight = ("a", 1) ∷ []; held = "a" ∷ [] }

abbrev two : TenantLimiter
two = record { inflight = ("a", 2) ∷ []; held = "a" ∷ "a" ∷ [] }

first_enters : try_slot (for_pool 3 10) "a" empty.inflight ≡ some one.inflight
unfolding try_slot for_pool in_flight
first_enters = refl

second_enters : try_slot (for_pool 3 10) "a" one.inflight ≡ some two.inflight
unfolding try_slot for_pool in_flight
second_enters = refl

third_waits : try_slot (for_pool 3 10) "a" two.inflight ≡ none
unfolding try_slot for_pool in_flight
third_waits = refl

reached : Reachable (for_pool 3 10) two
reached =
    Reachable.next one two
      (Reachable.next empty one Reachable.start (Step.enter empty "a" one.inflight first_enters))
      (Step.enter one "a" two.inflight second_enters)

limiter_exact_example :
    (lookup "a" two.inflight ≡ entry (slots_of "a" two.held))
    × (slots_of "a" two.held ≤ (for_pool 3 10).max_tenant_concurrency)
limiter_exact_example = limiter_exact (for_pool 3 10) two reached "a"

pool_keeps_room_example : slots_of "a" two.held < 3
pool_keeps_room_example = pool_keeps_room 3 10 two "a" (omega arith) reached

-- The caller finds the tenant at its cap, and a free slot when it wakes.
abbrev woken : List Wake
woken = record { expired = false; inflight = one.inflight; timed_out = false } ∷ []

gets_slot : acquire (for_pool 3 10) "a" two.inflight woken ≡ slot two.inflight
unfolding acquire acquire_loop is_disabled try_slot for_pool in_flight
gets_slot = refl
