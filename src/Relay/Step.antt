-- ===== src/Relay/Step.antt =====
-- What one event of a push does, read off a successful call.
use pergamon.Common.{
  ℕ, suc, String, ◌≡◌, sym, ap, ◌∙◌, ◌⊎◌, inl, inr, true, false, none, some, arith, length, Result,
  ok, >>=-eq-ok, Option-cases,
}
use pergamon.Relay.{
  Batch, EventRecord, PushResultRecord, StoreError, events_of, seq_of_change, require_blobs, meter,
  append_event, push_event,
}

-- The event is known: nothing changes, and its number is returned.
pub record Deduplicated (account : String) (b : Batch) (ev : EventRecord) (b' : Batch)
    (r : PushResultRecord) : Type 0 where
  pub known : seq_of_change ev.change_id (events_of account b.store.events) ≡ some r.server_seq
  pub same : b' ≡ b
  pub change : r.change_id ≡ ev.change_id
  pub flag : r.deduplicated ≡ true

-- The event is new: every blob that it names is there, it passed the quota, and it is the last row.
pub record Appended (account : String) (committed_at : ℕ) (b : Batch) (ev : EventRecord)
    (b' : Batch) (r : PushResultRecord) : Type 0 where
  pub unknown : seq_of_change ev.change_id (events_of account b.store.events) ≡ none
  pub blobs : require_blobs b.store account ev.blob_refs ≡ ok tt
  pub metered : Batch
  pub within : meter b (length ev.ciphertext) ≡ ok metered
  pub after : b' ≡ append_event account committed_at ev metered
  pub result :
      r
      ≡ record { change_id = ev.change_id; server_seq = suc metered.next_seq; deduplicated = false }

pub meter_keeps :
    (b : Batch) (n : ℕ) {m : Batch}
    → meter b n ≡ ok m
    → (m.store ≡ b.store) × (m.next_seq ≡ b.next_seq)
unfolding meter
meter_keeps b n h = ground arith

ok_inj :
    {x y : Batch × PushResultRecord}
    → ◌≡◌ {A = Result StoreError (Batch × PushResultRecord)} (ok x) (ok y)
    → (x.0 ≡ y.0) × (x.1 ≡ y.1)
ok_inj h = ground arith

-- A successful step either finds the event or appends it.
pub push_event_cases :
    (account : String) (t : ℕ) (b : Batch) (ev : EventRecord) {b' : Batch} {r : PushResultRecord}
    → push_event account t b ev ≡ ok (b', r)
    → Deduplicated account b ev b' r ⊎ Appended account t b ev b' r
unfolding push_event
push_event_cases account t b ev {b'} {r} h =
    elim (Option-cases (seq_of_change ev.change_id (events_of account b.store.events))) [
      | inl unknown ↦
          let (u, blobs, h₁) =
            >>=-eq-ok (require_blobs b.store account ev.blob_refs) _
              (rw (unknown, push_event) at h) in
          let (m, within, h₂) = >>=-eq-ok (meter b (length ev.ciphertext)) _ h₁ in
          let parts = ok_inj h₂ in
          inr (record {
            unknown = unknown;
            blobs = blobs;
            metered = m;
            within = within;
            after = sym parts.0;
            result = sym parts.1;
          })
      | inr (seq, known) ↦
          let parts = ok_inj (rw (known, push_event) at h) in
          inl (record {
            known = known ∙ ap (λ (x : PushResultRecord). some x.server_seq) parts.1;
            same = sym parts.0;
            change = sym (ap (λ (x : PushResultRecord). x.change_id) parts.1);
            flag = sym (ap (λ (x : PushResultRecord). x.deduplicated) parts.1);
          })
    ]
