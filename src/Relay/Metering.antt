-- ===== src/Relay/Metering.antt =====
-- The quota over the life of a store, and the projections of a batch.
use pergamon.Common.{
  ℕ, suc, String, ◌≡◌, refl, sym, subst, ap, ◌∙◌, inl, inr, true, false, false≢true, List, [], ◌∷◌,
  ◌++◌, arith, length, length-append, saturating_add, u64_max, eq_refl, str_eq, Bool-cases, Result,
  ok, err, >>=-eq-ok, ok-injective,
}
use pergamon.Quota
use pergamon.Quota.{Under, check_lem}
use pergamon.Relay.{
  Bytes, Batch, EventRecord, PushResultRecord, StoreError, BlobRow, SyncStore, UsageRecord,
  events_of, blobs_of, stored_row, account_usage, total_bytes, total_objects, payload_sum,
  byte_len_sum, append_event, meter, over_quota, push_event, push_all, push_events, begin_batch,
  commit, blob_put, room_for_blob, insert_blob, blob_present,
}
use pergamon.Relay.Rows.{events_of-append, blobs_of-append, payload_sum-append, byte_len_sum-append}
use pergamon.Relay.Requests.{Write, push, upload, write, upload-keeps}
use pergamon.Relay.Step.{push_event_cases, meter_keeps}
use pergamon.Relay.Log.{push_all_induction}
use pergamon.Relay.Isolation.{blob_put-insert_blob}

-- An account uses no more than its caps.
pub record IsWithinQuota (account : String) (s : SyncStore) : Type 0 where
  pub bytes : Under s.quota.max_account_bytes (total_bytes (account_usage s account))
  pub objects : Under s.quota.max_account_objects (total_objects (account_usage s account))

record IsMetered (account : String) (b : Batch) : Type 0 where
  within : IsWithinQuota account b.store
  exact :
      Quota.is_unlimited b.store.quota ≡ false
      → (b.projected_bytes ≡ total_bytes (account_usage b.store account))
        × (b.projected_objects ≡ total_objects (account_usage b.store account))

over_quota-eq-ok : (r : Result Quota.QuotaLimit (Unit {0})) → over_quota r ≡ ok tt → r ≡ ok tt
unfolding over_quota
over_quota-eq-ok (ok _) h = refl
over_quota-eq-ok (err limit) h = cc

unlimited_within :
    (account : String) (s : SyncStore) → Quota.is_unlimited s.quota ≡ true → IsWithinQuota account s
unfolding Quota.is_unlimited
unlimited_within account s h = record { bytes = ground arith; objects = ground arith }

-- The usage after the event is appended.
module _ (account : String) (t : ℕ) (ev : EventRecord) (m : Batch) where
  abbrev before : UsageRecord
  before = account_usage m.store account

  abbrev after : UsageRecord
  after = account_usage (append_event account t ev m).store account

  usage-append_event :
      (total_bytes after ≡ saturating_add u64_max (total_bytes before) (length ev.ciphertext))
      × (total_objects after ≡ saturating_add u64_max (total_objects before) 1)
  unfolding append_event account_usage
  usage-append_event =
      let rows = m.store.events in
      let row = stored_row account (suc m.next_seq) t ev in
      let mine = events_of account rows in
      let all : events_of account (rows ++ row ∷ []) ≡ mine ++ row ∷ [] =
        rw (events_of-append account rows row, eq_refl account) in
      (
        omega (arith, ap payload_sum all, payload_sum-append mine row),
        omega (arith, ap length all, length-append mine (row ∷ [])),
      )

module _ (account hash : String) (bytes : Bytes) (s : SyncStore) where
  usage-insert_blob :
      blob_present s account hash ≡ false
      → (total_bytes (account_usage (insert_blob s account hash bytes) account)
          ≡ saturating_add u64_max (total_bytes (account_usage s account)) (length bytes))
        × (total_objects (account_usage (insert_blob s account hash bytes) account)
            ≡ saturating_add u64_max (total_objects (account_usage s account)) 1)
  unfolding insert_blob account_usage
  usage-insert_blob new =
      let row : BlobRow = record {
        account_id = account;
        ct_hash = hash;
        bytes = bytes;
        byte_len = length bytes;
      } in
      let mine = blobs_of account s.blobs in
      let all : blobs_of account (s.blobs ++ row ∷ []) ≡ mine ++ row ∷ [] =
        rw (blobs_of-append account s.blobs row, eq_refl account) in
      rw new (
        omega (arith, ap byte_len_sum all, byte_len_sum-append mine row),
        omega (arith, ap length all, length-append mine (row ∷ [])),
      )

-- A metered batch carries the projection, which the quota accepts.
meter-checks :
    (b m : Batch) (n : ℕ)
    → Quota.is_unlimited b.store.quota ≡ false
    → meter b n ≡ ok m
    → (m.projected_bytes ≡ saturating_add u64_max b.projected_bytes n)
      × (m.projected_objects ≡ saturating_add u64_max b.projected_objects 1)
      × (Quota.check b.store.quota m.projected_bytes m.projected_objects ≡ ok tt)
unfolding meter
meter-checks b m n limited h =
    let bytes = saturating_add u64_max b.projected_bytes n in
    let objects = saturating_add u64_max b.projected_objects 1 in
    let (_, accepted, same) =
      >>=-eq-ok (over_quota (Quota.check b.store.quota bytes objects)) _
        (rw (limited, meter) at h) in
    let e : record b { projected_bytes = bytes; projected_objects = objects } ≡ m =
      ok-injective same in
    (
      sym (ap (λ (x : Batch). x.projected_bytes) e),
      sym (ap (λ (x : Batch). x.projected_objects) e),
      subst (λ (x : Batch). Quota.check b.store.quota x.projected_bytes x.projected_objects ≡ ok tt)
          e (over_quota-eq-ok (Quota.check b.store.quota bytes objects) accepted),
    )

module _ (account : String) (t : ℕ) where
  append_event-IsMetered :
      (ev : EventRecord) (b m : Batch)
      → meter b (length ev.ciphertext) ≡ ok m
      → IsMetered account b
      → IsMetered account (append_event account t ev m)
  unfolding append_event account_usage
  append_event-IsMetered ev b m h v =
      let store = (meter_keeps b (length ev.ciphertext) h).0 in
      let quota = ap (λ (s : SyncStore). s.quota) store in
      let grown = append_event account t ev m in
      elim (Bool-cases (Quota.is_unlimited b.store.quota)) [
        | inl free ↦
            let free_after : Quota.is_unlimited m.store.quota ≡ true = rw quota free in
            record {
              within = unlimited_within account grown.store free_after;
              exact = λ limited. absurd (false≢true (sym limited ∙ free_after));
            }
        | inr limited ↦
            let (bytes, objects, accepted) = meter-checks b m (length ev.ciphertext) limited h in
            let (new_bytes, new_objects) = usage-append_event account t ev m in
            let (old_bytes, old_objects) = v.exact limited in
            let old = ap (λ s. account_usage s account) store in
            let exact_bytes : m.projected_bytes ≡ total_bytes (account_usage grown.store account) =
              omega (arith, bytes, new_bytes, old_bytes, ap (λ u. total_bytes u) old) in
            let exact_objects : m.projected_objects
                ≡ total_objects (account_usage grown.store account) =
              omega (arith, objects, new_objects, old_objects, ap (λ u. total_objects u) old) in
            let under =
              (check_lem b.store.quota m.projected_bytes m.projected_objects).0.0 accepted in
            record {
              within = record {
                bytes = rw (quota, sym exact_bytes) under.0;
                objects = rw (quota, sym exact_objects) under.1;
              };
              exact = λ _. (exact_bytes, exact_objects);
            }
      ]

  push_event-IsMetered :
      (b b' : Batch) (ev : EventRecord) (r : PushResultRecord)
      → push_event account t b ev ≡ ok (b', r)
      → IsMetered account b
      → IsMetered account b'
  push_event-IsMetered b b' ev r h v = elim (push_event_cases account t b ev h) [
    | inl known ↦ subst (IsMetered account) (sym known.same) v
    | inr new ↦
        subst (IsMetered account) (sym new.after)
          (append_event-IsMetered ev b new.metered new.within v)
  ]

begin_batch-IsMetered :
    (s : SyncStore) (account : String)
    → IsWithinQuota account s
    → IsMetered account (begin_batch s account)
unfolding begin_batch
begin_batch-IsMetered s account w = record {
  within = w;
  exact = λ limited. rw limited (refl, refl);
}

commit-IsWithinQuota :
    (s : SyncStore) (account : String) (done : Result StoreError (Batch × List PushResultRecord))
    → IsWithinQuota account s
    → ((b : Batch) (rs : List PushResultRecord) → done ≡ ok (b, rs) → IsMetered account b)
    → IsWithinQuota account (commit s done).0
unfolding commit
commit-IsWithinQuota s account (err e) w good = w
commit-IsWithinQuota s account (ok (b, rs)) w good = (good b rs refl).within

insert_blob-IsWithinQuota :
    (s : SyncStore) (account hash : String) (bytes : Bytes)
    → room_for_blob s account hash bytes ≡ ok tt
    → IsWithinQuota account s
    → IsWithinQuota account (insert_blob s account hash bytes)
unfolding room_for_blob insert_blob
insert_blob-IsWithinQuota s account hash bytes room w =
    elim (Bool-cases (blob_present s account hash)) [
      | inl old ↦ rw old w
      | inr new ↦ elim (Bool-cases (Quota.is_unlimited s.quota)) [
        | inl free ↦ unlimited_within account (insert_blob s account hash bytes) (rw new free)
        | inr limited ↦
            let (new_bytes, new_objects) = usage-insert_blob account hash bytes s new in
            let usage = account_usage s account in
            let more_bytes = saturating_add u64_max (total_bytes usage) (length bytes) in
            let more_objects = saturating_add u64_max (total_objects usage) 1 in
            let accepted =
              over_quota-eq-ok (Quota.check s.quota more_bytes more_objects)
                (rw (limited, new, room_for_blob) at room) in
            let under = (check_lem s.quota more_bytes more_objects).0.0 accepted in
            record { bytes = rw (new_bytes, new) under.0; objects = rw (new_objects, new) under.1 }
      ]
    ]

blob_put-room :
    (sha256 : Bytes → String) (s : SyncStore) (account hash : String) (bytes : Bytes)
    {s' : SyncStore}
    → blob_put sha256 s account hash bytes ≡ ok s'
    → room_for_blob s account hash bytes ≡ ok tt
unfolding blob_put
blob_put-room sha256 s account hash bytes h = elim (Bool-cases (str_eq (sha256 bytes) hash)) [
  | inl e ↦ (>>=-eq-ok (room_for_blob s account hash bytes) _ (rw (e, blob_put) at h)).1
  | inr e ↦ cc (rw (e, blob_put) at h)
]

-- An account that uses no more than its caps does so after every push and every upload of its own,
-- also one that fails, and also where it has used its caps up.
pub writes-IsWithinQuota :
    (sha256 : Bytes → String) (s : SyncStore) (account : String) (w : Write)
    → IsWithinQuota account s
    → IsWithinQuota account (write sha256 account w s)
unfolding push_events
writes-IsWithinQuota sha256 s account (push t evs) v =
    commit-IsWithinQuota s account (push_all account t (begin_batch s account) evs) v (λ b rs e.
      push_all_induction account t (IsMetered account) (push_event-IsMetered account t)
        (begin_batch s account) evs e (begin_batch-IsMetered s account v))
writes-IsWithinQuota sha256 s account (upload hash bytes) v =
    upload-keeps (IsWithinQuota account) s (blob_put sha256 s account hash bytes) v (λ s' h.
      subst (IsWithinQuota account) (blob_put-insert_blob sha256 s account hash bytes h) (
        insert_blob-IsWithinQuota s account hash bytes (blob_put-room sha256 s account hash bytes h)
          v))
