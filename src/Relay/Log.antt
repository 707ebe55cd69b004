-- ===== src/Relay/Log.antt =====
-- The numbering of the logs under `push_events` of crates/pergamon-sync-server/src/store.rs.
use pergamon.Common.{
  ℕ, suc, String, ◌≡◌, refl, sym, subst, ap, ◌∙◌, inl, inr, true, List, [], ◌∷◌, ◌++◌, arith,
  length, length-append, str_eq, eq_iff, Bool-cases, Result, ok, err, >>=-eq-ok,
}
use pergamon.Relay.{
  Batch, EventRecord, StoredEventRecord, PushResultRecord, PushOutcome, StoreError, SyncStore,
  events_of, stored_row, append_event, push_event, push_all, push_events, begin_batch, commit,
  high_water,
}
use pergamon.Relay.Rows.{events_of-append, Contiguous, Contiguous-append, max_seq-Contiguous}
use pergamon.Relay.Step.{push_event_cases, meter_keeps}

-- The rows of every account are numbered from 1 with no gap.
pub record IsLog (events : List StoredEventRecord) : Type 0 where
  pub at : (x : String) → Contiguous 0 (events_of x events)

pub record IsBatch (account : String) (b : Batch) : Type 0 where
  pub log : IsLog b.store.events
  pub next : b.next_seq ≡ length (events_of account b.store.events)

pub IsLog-nil : IsLog []
unfolding events_of
IsLog-nil = record { at = λ x. tt }

append-Contiguous :
    (account x : String) (rows : List StoredEventRecord) (r : StoredEventRecord)
    → r.account_id ≡ account
    → r.server_seq ≡ suc (length (events_of account rows))
    → Contiguous 0 (events_of x rows)
    → Contiguous 0 (events_of x (rows ++ r ∷ []))
append-Contiguous account x rows r e n c = elim (Bool-cases (str_eq r.account_id x)) [
  | inl here ↦
      let same : account ≡ x = sym e ∙ (eq_iff r.account_id x).0 here in
      rw (events_of-append x rows r, here)
        (Contiguous-append 0 (events_of x rows) r c
          (subst (λ y. r.server_seq ≡ suc (length (events_of y rows))) same n ∙ omega arith))
  | inr other ↦ rw (events_of-append x rows r, other) c
]

append-next :
    (account : String) (rows : List StoredEventRecord) (r : StoredEventRecord)
    → r.account_id ≡ account
    → length (events_of account (rows ++ r ∷ [])) ≡ suc (length (events_of account rows))
append-next account rows r e =
    let here : str_eq r.account_id account ≡ true = (eq_iff r.account_id account).1 e in
    rw (events_of-append account rows r, here)
      (length-append (events_of account rows) (r ∷ []) ∙ omega arith)

append_event-IsBatch :
    (account : String) (t : ℕ) (ev : EventRecord) (b m : Batch)
    → m.store ≡ b.store
    → m.next_seq ≡ b.next_seq
    → IsBatch account b
    → IsBatch account (append_event account t ev m)
unfolding append_event
append_event-IsBatch account t ev b m e n v =
    let row = stored_row account (suc m.next_seq) t ev in
    let rows = m.store.events in
    let log = subst (λ (s : SyncStore). IsLog s.events) (sym e) v.log in
    let next : m.next_seq ≡ length (events_of account rows) =
      n ∙ v.next ∙ ap (λ (s : SyncStore). length (events_of account s.events)) (sym e) in
    record {
      log = record { at = λ x. append-Contiguous account x rows row refl (ap suc next) (log.at x) };
      next = ap suc next ∙ sym (append-next account rows row refl);
    }

pub push_event-IsBatch :
    (account : String) (t : ℕ) (b : Batch) (ev : EventRecord) {b' : Batch} {r : PushResultRecord}
    → push_event account t b ev ≡ ok (b', r)
    → IsBatch account b
    → IsBatch account b'
push_event-IsBatch account t b ev h v = elim (push_event_cases account t b ev h) [
  | inl known ↦ subst (IsBatch account) (sym known.same) v
  | inr new ↦
      let keeps = meter_keeps b (length ev.ciphertext) new.within in
      subst (IsBatch account) (sym new.after)
        (append_event-IsBatch account t ev b new.metered keeps.0 keeps.1 v)
]

-- A property of the batch that each successful step keeps holds at the end of a successful push.
pub push_all_induction :
    (account : String) (t : ℕ) (P : Batch → Type 0)
    → ((b b' : Batch) (ev : EventRecord) (r : PushResultRecord)
        → push_event account t b ev ≡ ok (b', r)
        → P b
        → P b')
    → (b : Batch) (evs : List EventRecord) {b' : Batch} {rs : List PushResultRecord}
    → push_all account t b evs ≡ ok (b', rs)
    → P b
    → P b'
unfolding push_all
push_all_induction account t P keep b [] {b'} h p = subst P (ground arith) p
push_all_induction account t P keep b (ev ∷ evs) {b'} h p =
    let (first, e₁, h₁) = >>=-eq-ok (push_event account t b ev) _ h in
    let (rest, e₂, h₂) = >>=-eq-ok (push_all account t first.0 evs) _ h₁ in
    subst P (ground arith) (
      push_all_induction account t P keep first.0 evs {b' = rest.0} {rs = rest.1} e₂
        (keep b first.0 ev first.1 e₁ p))

pub begin_batch-IsBatch :
    (s : SyncStore) (account : String) → IsLog s.events → IsBatch account (begin_batch s account)
unfolding begin_batch high_water
begin_batch-IsBatch s account v = record {
  log = v;
  next = omega (arith, max_seq-Contiguous 0 (events_of account s.events) (v.at account));
}

commit-IsLog :
    (s : SyncStore) (account : String) (done : Result StoreError (Batch × List PushResultRecord))
    → IsLog s.events
    → ((b : Batch) (rs : List PushResultRecord) → done ≡ ok (b, rs) → IsBatch account b)
    → IsLog (commit s done).0.events
      × ((out : PushOutcome)
          → (commit s done).1 ≡ ok out
          → out.high_water_seq ≡ length (events_of account (commit s done).0.events))
unfolding commit
commit-IsLog s account (err e) v good = (v, λ out h. cc)
commit-IsLog s account (ok (b, rs)) v good =
    let w = good b rs refl in (w.log, λ out h. ground arith)

-- In a store where the rows of every account are numbered 1, 2, 3, … in the order of their
-- insertion they stay so, whatever is pushed to whatever account, also when the push fails; the
-- high-water mark of a successful push is the number of rows that the account then has.
pub push_events-IsLog :
    (s : SyncStore) (account : String) (t : ℕ) (evs : List EventRecord)
    → IsLog s.events
    → IsLog (push_events s account t evs).0.events
      × ((out : PushOutcome)
          → (push_events s account t evs).1 ≡ ok out
          → out.high_water_seq ≡ length (events_of account (push_events s account t evs).0.events))
unfolding push_events
push_events-IsLog s account t evs v =
    commit-IsLog s account (push_all account t (begin_batch s account) evs) v (λ b rs h.
      push_all_induction account t (IsBatch account)
        (λ b b' ev r h. push_event-IsBatch account t b ev h) (begin_batch s account) evs h
        (begin_batch-IsBatch s account v))
