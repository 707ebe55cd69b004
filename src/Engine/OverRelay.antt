-- ===== src/Engine/OverRelay.antt =====
-- The relay's store as a transport: what the HTTP client of crates/pergamon-sync/src/http.rs calls
-- is the push of crates/pergamon-sync-server/src/routes/events.rs, and the probe and the upload of
-- crates/pergamon-sync-server/src/routes/blobs.rs.
use pergamon.Common.{ℕ, String, List, Result, ok, err}
use pergamon.Relay.{
  Bytes, PushOutcome, PushResultRecord, StoreError, SyncStore, push_events, blob_put,
}
use pergamon.Relay.Content.{blob_probe}
use pergamon.Engine.{SyncError, Transport}

results_of : Result StoreError PushOutcome → Result (SyncError StoreError) (List PushResultRecord)
results_of (err e) = err (SyncError.transport e)
results_of (ok outcome) = ok outcome.results

stored :
    SyncStore → Result StoreError SyncStore → SyncStore × Result (SyncError StoreError) (Unit {0})
stored s (err e) = (s, err (SyncError.transport e))
stored s (ok s') = (s', ok tt)

pub relay_transport : (Bytes → String) → ℕ → Transport StoreError SyncStore
unfolding results_of stored
relay_transport sha256 now = record {
  push = λ s account events.
      let (s', answer) = push_events s account now events in (s', results_of answer);
  blob_probe = λ s account hashes. (s, ok (blob_probe s account hashes).1);
  blob_put = λ s account hash bytes. stored s (blob_put sha256 s account hash bytes);
}
