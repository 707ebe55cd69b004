-- ===== src/Fairness/Waiting.antt =====
-- One caller that waits for a slot.
use pergamon.Common.{◌≤◌, String, ◌≡◌, true, false, some, List, ◌∷◌}
use pergamon.Fairness.{FairnessConfig, Inflight, Wake, Acquired, slot, busy, in_flight, try_slot}

-- A caller that tries on the map `m` and then wakes up may be shed: on every map that it tried its
-- tenant was at the cap, and at the last wake the time had run out, or the wait had timed out and the
-- tenant was at the cap on the very map of that wake.
pub data MayShed (config : FairnessConfig) (account : String) : Inflight → List Wake → Type 0 where
  late :
      {m : Inflight} {w : Wake} {ws : List Wake}
      → config.max_tenant_concurrency ≤ in_flight account m
      → w.expired ≡ true
      → MayShed config account m (w ∷ ws)
  still_full :
      {m : Inflight} {w : Wake} {ws : List Wake}
      → config.max_tenant_concurrency ≤ in_flight account m
      → w.timed_out ≡ true
      → config.max_tenant_concurrency ≤ in_flight account w.inflight
      → MayShed config account m (w ∷ ws)
  again :
      {m : Inflight} {w : Wake} {ws : List Wake}
      → config.max_tenant_concurrency ≤ in_flight account m
      → w.expired ≡ false
      → MayShed config account w.inflight ws
      → MayShed config account m (w ∷ ws)

-- A caller may take the slot that leaves the map `t`: from the first map with room that it tries,
-- which it comes to in time.
pub data MayTake (config : FairnessConfig) (account : String) (t : Inflight)
    : Inflight → List Wake → Type 0 where
  room :
      {m : Inflight} {ws : List Wake}
      → try_slot config account m ≡ some t
      → MayTake config account t m ws
  after :
      {m : Inflight} {w : Wake} {ws : List Wake}
      → config.max_tenant_concurrency ≤ in_flight account m
      → w.expired ≡ false
      → MayTake config account t w.inflight ws
      → MayTake config account t m (w ∷ ws)

pub record IsJustified (config : FairnessConfig) (account : String) (m : Inflight)
    (wakes : List Wake) (answer : Acquired) : Type 0 where
  pub shed : answer ≡ busy → MayShed config account m wakes
  pub taken : (t : Inflight) → answer ≡ slot t → MayTake config account t m wakes
