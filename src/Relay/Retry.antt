-- ===== src/Relay/Retry.antt =====
-- A push to crates/pergamon-sync-server/src/store.rs that is sent again.
use pergamon.Common.{
  ℕ, suc, String, ◌≡◌, refl, sym, subst, ap, ◌∙◌, inl, inr, true, Option, none, some, List, [], ◌∷◌,
  map, arith, length, str_eq, eq_refl, Result, ok, err, >>=-eq-ok, ok-injective, if◌then◌else◌,
}
use pergamon.Relay.{
  Batch, EventRecord, PushResultRecord, PushOutcome, StoreError, SyncStore, events_of, stored_row,
  append_event, seq_of_change, push_event, push_all, push_events, begin_batch, commit,
}
use pergamon.Relay.Rows.{events_of-append, seq_of_change-append}
use pergamon.Relay.Step.{push_event_cases, meter_keeps}
use pergamon.Relay.Log.{IsLog, IsBatch, push_all_induction, push_event-IsBatch, begin_batch-IsBatch}

-- The number of a change in an account's log.
abbrev seq_in : String → String → Batch → Option ℕ
seq_in account change b = seq_of_change change (events_of account b.store.events)

seq_in-append_event :
    (account change : String) (t : ℕ) (ev : EventRecord) (m : Batch)
    → seq_in account change (append_event account t ev m) ≡ elim (seq_in account change m) [
      | some seq ↦ some seq
      | none ↦ if str_eq ev.change_id change then some (suc m.next_seq) else none
    ]
unfolding append_event
seq_in-append_event account change t ev m =
    let row = stored_row account (suc m.next_seq) t ev in
    rw (events_of-append account m.store.events row, eq_refl account)
      (seq_of_change-append change (events_of account m.store.events) row)

module _ (account : String) (t : ℕ) (ev : EventRecord) where
  seq_in-new :
      (m : Batch)
      → seq_in account ev.change_id m ≡ none
      → seq_in account ev.change_id (append_event account t ev m) ≡ some (suc m.next_seq)
  seq_in-new m h = rw (seq_in-append_event account ev.change_id t ev m, h, eq_refl ev.change_id)

  seq_in-old :
      (change : String) (m : Batch) (n : ℕ)
      → seq_in account change m ≡ some n
      → seq_in account change (append_event account t ev m) ≡ some n
  seq_in-old change m n h = rw (seq_in-append_event account change t ev m, h)

  -- After a step the event is in the log under the number that the step answered.
  push_event-finds :
      (b : Batch) {b' : Batch} {r : PushResultRecord}
      → push_event account t b ev ≡ ok (b', r)
      → (seq_in account ev.change_id b' ≡ some r.server_seq) × (r.change_id ≡ ev.change_id)
  push_event-finds b {b'} {r} h = elim (push_event_cases account t b ev h) [
    | inl known ↦ (
      subst (λ x. seq_in account ev.change_id x ≡ some r.server_seq) (sym known.same) known.known,
      known.change,
    )
    | inr new ↦
        let m = new.metered in
        let keeps = meter_keeps b (length ev.ciphertext) new.within in
        let unknown : seq_in account ev.change_id m ≡ none =
          ap (λ (s : SyncStore). seq_of_change ev.change_id (events_of account s.events)) keeps.0
          ∙ new.unknown in
        let found : seq_in account ev.change_id b' ≡ some (suc m.next_seq) =
          subst (λ x. seq_in account ev.change_id x ≡ some (suc m.next_seq)) (sym new.after)
            (seq_in-new m unknown) in
        (
          found ∙ ap (λ (x : PushResultRecord). some x.server_seq) (sym new.result),
          ap (λ (x : PushResultRecord). x.change_id) new.result,
        )
  ]

  -- A step keeps the number of every change in the log.
  push_event-keeps :
      (change : String) (n : ℕ) (b : Batch) {b' : Batch} {r : PushResultRecord}
      → push_event account t b ev ≡ ok (b', r)
      → seq_in account change b ≡ some n
      → seq_in account change b' ≡ some n
  push_event-keeps change n b {b'} {r} h e = elim (push_event_cases account t b ev h) [
    | inl known ↦ subst (λ x. seq_in account change x ≡ some n) (sym known.same) e
    | inr new ↦
        let keeps = meter_keeps b (length ev.ciphertext) new.within in
        let before : seq_in account change new.metered ≡ some n =
          ap (λ (s : SyncStore). seq_of_change change (events_of account s.events)) keeps.0 ∙ e in
        subst (λ x. seq_in account change x ≡ some n) (sym new.after)
          (seq_in-old change new.metered n before)
  ]

-- Every event is in the log under the number that its result carries.
abbrev Known : String → Batch → List EventRecord → List PushResultRecord → Type 0
Known account b [] [] = Unit {0}
Known account b [] (_ ∷ _) = ⊥
Known account b (_ ∷ _) [] = ⊥
Known account b (ev ∷ evs) (r ∷ rs) =
    (seq_in account ev.change_id b ≡ some r.server_seq)
    × (r.change_id ≡ ev.change_id)
    × Known account b evs rs

push_all-Known :
    (account : String) (t : ℕ) (b : Batch) (evs : List EventRecord) {b' : Batch}
    (rs : List PushResultRecord)
    → push_all account t b evs ≡ ok (b', rs)
    → Known account b' evs rs
unfolding push_all
push_all-Known account t b [] [] h = tt
push_all-Known account t b [] (r ∷ rs) h = cc
push_all-Known account t b (ev ∷ evs) {b'} rs h =
    let (first, e₁, h₁) = >>=-eq-ok (push_event account t b ev) _ h in
    let (rest, e₂, h₂) = >>=-eq-ok (push_all account t first.0 evs) _ h₁ in
    let found = push_event-finds account t ev b e₁ in
    let kept =
      push_all_induction account t (λ x. seq_in account ev.change_id x ≡ some first.1.server_seq)
        (λ x x' ev' r' step. push_event-keeps account t ev' ev.change_id first.1.server_seq x step)
        first.0 evs {b' = rest.0} {rs = rest.1} e₂ found.0 in
    subst (λ (p : Batch × List PushResultRecord). Known account p.0 (ev ∷ evs) p.1)
      (ok-injective h₂)
      (kept, found.1, push_all-Known account t first.0 evs {b' = rest.0} rest.1 e₂)

-- The result that a repeated event is answered with.
abbrev repeat : PushResultRecord → PushResultRecord
repeat r = record r { deduplicated = true }

abbrev pub repeated : List PushResultRecord → List PushResultRecord
repeated = map repeat

push_event-repeated :
    (account : String) (t : ℕ) (b : Batch) (ev : EventRecord) (r : PushResultRecord)
    → seq_in account ev.change_id b ≡ some r.server_seq
    → r.change_id ≡ ev.change_id
    → push_event account t b ev ≡ ok (b, record r { deduplicated = true })
unfolding push_event
push_event-repeated account t b ev r e c = rw (e, push_event) (ground arith)

push_all-repeated :
    (account : String) (t : ℕ) (b : Batch) (evs : List EventRecord) (rs : List PushResultRecord)
    → Known account b evs rs
    → push_all account t b evs ≡ ok (b, repeated rs)
unfolding push_all
push_all-repeated account t b [] [] k = refl
push_all-repeated account t b [] (_ ∷ _) k = absurd k
push_all-repeated account t b (_ ∷ _) [] k = absurd k
push_all-repeated account t b (ev ∷ evs) (r ∷ rs) k =
    rw (push_event-repeated account t b ev r k.0 k.1, push_all-repeated account t b evs rs k.2)

-- The batch and the results of a push that succeeded.
commit-eq-ok :
    (s : SyncStore) (done : Result StoreError (Batch × List PushResultRecord)) {s' : SyncStore}
    {out : PushOutcome}
    → commit s done ≡ (s', ok out)
    → (b : Batch) × (done ≡ ok (b, out.results))
      × (b.store ≡ s')
      × (b.next_seq ≡ out.high_water_seq)
unfolding commit
commit-eq-ok s (err e) h = cc
commit-eq-ok s (ok (b, rs)) h = (b, ground arith, ground arith, ground arith)

Known-store :
    (account : String) (b c : Batch) (evs : List EventRecord) (rs : List PushResultRecord)
    → b.store ≡ c.store
    → Known account b evs rs
    → Known account c evs rs
Known-store account b c [] [] e k = tt
Known-store account b c [] (_ ∷ _) e k = k
Known-store account b c (_ ∷ _) [] e k = k
Known-store account b c (ev ∷ evs) (r ∷ rs) e k = (
  subst
      (λ (s : SyncStore).
        seq_of_change ev.change_id (events_of account s.events) ≡ some r.server_seq)
      e k.0,
  k.1,
  Known-store account b c evs rs e k.2,
)

-- The high-water mark of the store that a successful batch leaves.
next-high_water :
    (account : String) (b : Batch) (s' : SyncStore)
    → IsBatch account b
    → b.store ≡ s'
    → (begin_batch s' account).next_seq ≡ b.next_seq
unfolding begin_batch
next-high_water account b s' v e =
    let log = subst (λ (s : SyncStore). IsLog s.events) e v.log in
    (begin_batch-IsBatch s' account log).next
    ∙ ap (λ (s : SyncStore). length (events_of account s.events)) (sym e)
    ∙ sym v.next

-- In a store where the rows of every account are numbered with no gap, a push that succeeded is
-- sent again to the store that it left, with nothing written in between and whatever the clock then
-- says: the store stays as it is, and the answer has the same numbers and the same high-water mark,
-- each event marked as deduplicated.
pub push_events_retry :
    (s s' : SyncStore) (account : String) (t t' : ℕ) (evs : List EventRecord) (out : PushOutcome)
    → IsLog s.events
    → push_events s account t evs ≡ (s', ok out)
    → push_events s' account t' evs
      ≡ (s', ok (record { results = repeated out.results; high_water_seq = out.high_water_seq }))
unfolding push_events commit begin_batch
push_events_retry s s' account t t' evs out v h =
    let (b, done, store, next) =
      commit-eq-ok s (push_all account t (begin_batch s account) evs) h in
    let again = begin_batch s' account in
    let known =
      Known-store account b again evs out.results store
        (push_all-Known account t (begin_batch s account) evs out.results done) in
    let batch =
      push_all_induction account t (IsBatch account)
        (λ x x' ev r step. push_event-IsBatch account t x ev step) (begin_batch s account) evs done
        (begin_batch-IsBatch s account v) in
    let mark = next-high_water account b s' batch store ∙ next in
    rw (push_all-repeated account t' again evs out.results known)
      (ap (λ n. (s', ok (record { results = repeated out.results; high_water_seq = n }))) mark)
