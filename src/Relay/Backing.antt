-- ===== src/Relay/Backing.antt =====
-- Content before metadata: the blobs that the events of a log name.
use pergamon.Common.{
  ℕ, String, ◌≡◌, refl, sym, subst, inl, inr, true, Bool, List, [], ◌∷◌, ◌++◌, arith, length, any,
  All, All-append, All-map, Bool-cases, Result, ok, err,
}
use pergamon.Relay.{
  Bytes, Batch, EventRecord, StoredEventRecord, PushResultRecord, StoreError, BlobRow, SyncStore,
  append_event, require_blobs, push_event, push_all, push_events, begin_batch, commit, blob_put,
  insert_blob, blob_present,
}
use pergamon.Relay.Requests.{Write, push, upload, write, upload-keeps}
use pergamon.Relay.Step.{push_event_cases, meter_keeps}
use pergamon.Relay.Log.{push_all_induction}
use pergamon.Relay.Isolation.{blob_put-insert_blob}

abbrev Stored : SyncStore → String → String → Type 0
Stored s account hash = blob_present s account hash ≡ true

-- Every blob that an event of the log names is stored for the event's account.
abbrev pub IsBacked : SyncStore → Type 0
IsBacked s = All (λ (r : StoredEventRecord). All (Stored s r.account_id) r.blob_refs) s.events

require_blobs-eq-ok :
    (s : SyncStore) (account : String) (hashes : List String)
    → require_blobs s account hashes ≡ ok tt
    → All (Stored s account) hashes
unfolding require_blobs
require_blobs-eq-ok s account [] h = tt
require_blobs-eq-ok s account (hash ∷ rest) h = elim (Bool-cases (blob_present s account hash)) [
  | inl here ↦ (here, require_blobs-eq-ok s account rest (rw (here, require_blobs) at h))
  | inr missing ↦ cc (rw (missing, require_blobs) at h)
]

module _ (account : String) (t : ℕ) where
  append_event-IsBacked :
      (ev : EventRecord) (m : Batch)
      → All (Stored m.store account) ev.blob_refs
      → IsBacked m.store
      → IsBacked (append_event account t ev m).store
  unfolding append_event blob_present
  append_event-IsBacked ev m refs v = All-append _ m.store.events _ v (refs, tt)

  push_event-IsBacked :
      (b b' : Batch) (ev : EventRecord) (r : PushResultRecord)
      → push_event account t b ev ≡ ok (b', r)
      → IsBacked b.store
      → IsBacked b'.store
  push_event-IsBacked b b' ev r h v = elim (push_event_cases account t b ev h) [
    | inl known ↦ subst (λ (x : Batch). IsBacked x.store) (sym known.same) v
    | inr new ↦
        let same = sym (meter_keeps b (length ev.ciphertext) new.within).0 in
        let refs = require_blobs-eq-ok b.store account ev.blob_refs new.blobs in
        subst (λ (x : Batch). IsBacked x.store) (sym new.after)
          (append_event-IsBacked ev new.metered
            (subst (λ s. All (Stored s account) ev.blob_refs) same refs) (subst IsBacked same v))
  ]

commit-IsBacked :
    (s : SyncStore) (done : Result StoreError (Batch × List PushResultRecord))
    → IsBacked s
    → ((b : Batch) (rs : List PushResultRecord) → done ≡ ok (b, rs) → IsBacked b.store)
    → IsBacked (commit s done).0
unfolding commit
commit-IsBacked s (err e) v good = v
commit-IsBacked s (ok (b, rs)) v good = good b rs refl

any-append : (p : BlobRow → Bool) (xs ys : List BlobRow) → any p xs ≡ true → any p (xs ++ ys) ≡ true
any-append p [] ys h = cc
any-append p (x ∷ xs) ys h = ground (arith, any-append p xs ys)

insert_blob-Stored :
    (s : SyncStore) (account hash x h : String) (bytes : Bytes)
    → Stored s x h
    → Stored (insert_blob s account hash bytes) x h
unfolding insert_blob blob_present
insert_blob-Stored s account hash x h bytes e = elim (Bool-cases (blob_present s account hash)) [
  | inl old ↦ rw old e
  | inr new ↦ rw new (any-append _ s.blobs _ e)
]

insert_blob-events :
    (s : SyncStore) (account hash : String) (bytes : Bytes)
    → (insert_blob s account hash bytes).events ≡ s.events
unfolding insert_blob
insert_blob-events s account hash bytes = ground arith

insert_blob-IsBacked :
    (s : SyncStore) (account hash : String) (bytes : Bytes)
    → IsBacked s
    → IsBacked (insert_blob s account hash bytes)
insert_blob-IsBacked s account hash bytes v =
    let s' = insert_blob s account hash bytes in
    subst (All (λ (r : StoredEventRecord). All (Stored s' r.account_id) r.blob_refs))
      (sym (insert_blob-events s account hash bytes))
      (All-map s.events
        (λ r. All-map r.blob_refs (λ h. insert_blob-Stored s account hash r.account_id h bytes)) v)

-- In a store where every blob named by an event is stored for the event's account this stays so
-- under every push and every upload of any account, also one that fails.
pub writes-IsBacked :
    (sha256 : Bytes → String) (s : SyncStore) (account : String) (w : Write)
    → IsBacked s
    → IsBacked (write sha256 account w s)
unfolding push_events begin_batch
writes-IsBacked sha256 s account (push t evs) v =
    commit-IsBacked s (push_all account t (begin_batch s account) evs) v (λ b rs e.
      push_all_induction account t (λ x. IsBacked x.store) (push_event-IsBacked account t)
        (begin_batch s account) evs e v)
writes-IsBacked sha256 s account (upload hash bytes) v =
    upload-keeps IsBacked s (blob_put sha256 s account hash bytes) v (λ s' h.
      subst IsBacked (blob_put-insert_blob sha256 s account hash bytes h)
        (insert_blob-IsBacked s account hash bytes v))
