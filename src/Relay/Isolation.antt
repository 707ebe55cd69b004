-- ===== src/Relay/Isolation.antt =====
-- The rows of one account while another one writes.
use pergamon.Common.{
  ℕ, suc, String, ◌≡◌, ◌≢◌, refl, sym, subst, inl, inr, false, List, arith, length, str_eq, eq_iff,
  Bool-cases, Result, ok, err, >>=-eq-ok, ok-injective,
}
use pergamon.Relay.{
  Bytes, Batch, EventRecord, PushResultRecord, StoreError, SyncStore, events_of, blobs_of,
  stored_row, append_event, push_event, push_all, push_events, begin_batch, commit, high_water,
  pull_page, pull_events, blob_put, room_for_blob, insert_blob, blob_present,
}
use pergamon.Relay.Rows.{events_of-append, blobs_of-append}
use pergamon.Relay.Requests.{Write, push, upload, write, upload-keeps}
use pergamon.Relay.Step.{push_event_cases, meter_keeps}
use pergamon.Relay.Log.{push_all_induction}

ne→str_eq : (a x : String) → a ≢ x → str_eq a x ≡ false
ne→str_eq a x ne = ground (arith, eq_iff a x)

-- A successful upload is an insert.
pub blob_put-insert_blob :
    (sha256 : Bytes → String) (s : SyncStore) (account hash : String) (bytes : Bytes)
    {s' : SyncStore}
    → blob_put sha256 s account hash bytes ≡ ok s'
    → insert_blob s account hash bytes ≡ s'
unfolding blob_put
blob_put-insert_blob sha256 s account hash bytes h =
    elim (Bool-cases (str_eq (sha256 bytes) hash)) [
      | inl e ↦
          ok-injective (>>=-eq-ok (room_for_blob s account hash bytes) _ (rw (e, blob_put) at h)).2
      | inr e ↦ cc (rw (e, blob_put) at h)
    ]

-- The rows that an account's requests read.
pub record SameView (x : String) (s s' : SyncStore) : Type 0 where
  pub events : events_of x s'.events ≡ events_of x s.events
  pub blobs : blobs_of x s'.blobs ≡ blobs_of x s.blobs

module _ (s : SyncStore) (account x : String) (ne : account ≢ x) where
  append_event-SameView :
      (t : ℕ) (ev : EventRecord) (m : Batch)
      → SameView x s m.store
      → SameView x s (append_event account t ev m).store
  unfolding append_event
  append_event-SameView t ev m v = record {
    events =
        rw
          (
            events_of-append x m.store.events (stored_row account (suc m.next_seq) t ev),
            ne→str_eq account x ne,
          )
          v.events;
    blobs = v.blobs;
  }

  push_event-SameView :
      (t : ℕ) (b b' : Batch) (ev : EventRecord) (r : PushResultRecord)
      → push_event account t b ev ≡ ok (b', r)
      → SameView x s b.store
      → SameView x s b'.store
  push_event-SameView t b b' ev r h v = elim (push_event_cases account t b ev h) [
    | inl known ↦ subst (λ (y : Batch). SameView x s y.store) (sym known.same) v
    | inr new ↦
        let keeps = meter_keeps b (length ev.ciphertext) new.within in
        subst (λ (y : Batch). SameView x s y.store) (sym new.after)
          (append_event-SameView t ev new.metered (subst (SameView x s) (sym keeps.0) v))
  ]

  commit-SameView :
      (done : Result StoreError (Batch × List PushResultRecord))
      → ((b : Batch) (rs : List PushResultRecord) → done ≡ ok (b, rs) → SameView x s b.store)
      → SameView x s (commit s done).0
  unfolding commit
  commit-SameView (err e) good = record { events = refl; blobs = refl }
  commit-SameView (ok (b, rs)) good = good b rs refl

  push_events-SameView :
      (t : ℕ) (evs : List EventRecord) → SameView x s (push_events s account t evs).0
  unfolding push_events begin_batch
  push_events-SameView t evs =
      commit-SameView (push_all account t (begin_batch s account) evs) (λ b rs h.
        push_all_induction account t (λ y. SameView x s y.store)
          (λ y y' ev r. push_event-SameView t y y' ev r) (begin_batch s account) evs h
          (record { events = refl; blobs = refl }))

  insert_blob-SameView :
      (hash : String) (bytes : Bytes) → SameView x s (insert_blob s account hash bytes)
  unfolding insert_blob
  insert_blob-SameView hash bytes = elim (Bool-cases (blob_present s account hash)) [
    | inl old ↦ rw old (record { events = refl; blobs = refl })
    | inr new ↦
        rw new (record {
          events = refl;
          blobs = rw (blobs_of-append x s.blobs _, ne→str_eq account x ne);
        })
  ]

  blob_put-SameView :
      (sha256 : Bytes → String) (hash : String) (bytes : Bytes) {s' : SyncStore}
      → blob_put sha256 s account hash bytes ≡ ok s'
      → SameView x s s'
  blob_put-SameView sha256 hash bytes h =
      subst (SameView x s) (blob_put-insert_blob sha256 s account hash bytes h)
        (insert_blob-SameView hash bytes)

  write-SameView : (sha256 : Bytes → String) (w : Write) → SameView x s (write sha256 account w s)
  write-SameView sha256 (push t evs) = push_events-SameView t evs
  write-SameView sha256 (upload hash bytes) =
      upload-keeps (SameView x s) s (blob_put sha256 s account hash bytes)
        (record { events = refl; blobs = refl }) (λ s' h. blob_put-SameView sha256 hash bytes h)

  -- A push or an upload of one account, also one that fails, leaves what every other account
  -- reads: a page of its log from any cursor with its high-water mark, and its blobs.
  pub write_isolated :
      (sha256 : Bytes → String) (w : Write) (after limit : ℕ)
      → (pull_page (write sha256 account w s) x after limit ≡ pull_page s x after limit)
        × (blobs_of x (write sha256 account w s).blobs ≡ blobs_of x s.blobs)
  unfolding pull_page pull_events high_water
  write_isolated sha256 w after limit =
      let view = write-SameView sha256 w in (rw view.events, view.blobs)
