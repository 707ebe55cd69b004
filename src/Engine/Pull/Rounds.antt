-- ===== src/Engine/Pull/Rounds.antt =====
-- One round of the pull loop, and what a page leaves.
use pergamon.Common.{
  ℕ, zero, suc, ◌+◌, String, ◌≡◌, refl, sym, subst, inl, inr, true, false, some, List, [], ◌∷◌,
  length, ltb, All, Bool-cases, List-cases, Result, Result-cases, ok, err, >>=-eq-ok,
}
use pergamon.Relay.{StoredEventRecord, SyncStore}
use pergamon.Relay.Paging.{pull}
use pergamon.Engine.{SyncError, batch, contains}
use pergamon.Engine.Pull.{Receiver, Device, Clock, receive_page, pull_loop}
use pergamon.Engine.Pull.Settled.{
  IsSettled, Outcome, outcome, page-applied, IsSettled-grow, IsSettled-skipped, page_err, page_skip,
  page_changed,
}

module _ {E V D : Type 0} (receiver : Receiver E V D) where
  -- A page without an error is settled.
  pub page-IsSettled :
      (now : Clock) (d : Device D) (events : List StoredEventRecord) {n : ℕ}
      → (receive_page receiver now d events).1 ≡ ok n
      → All (IsSettled receiver (receive_page receiver now d events).0) events
  page-IsSettled now d [] h = tt
  page-IsSettled now d (ev ∷ events) {n} h =
      let goal =
        λ (r : Device D × Result (SyncError E) ℕ). All (IsSettled receiver r.0) (ev ∷ events) in
      elim (outcome receiver now d ev) [
        | Outcome.fails e f ↦ cc (rw (page_err receiver now d ev events e (f now)) at h)
        | Outcome.settled v ↦
            let same = page_skip receiver now d ev events (IsSettled-skipped receiver now d ev v) in
            let last = (receive_page receiver now d events).0 in
            subst goal (sym same) (
              IsSettled-grow receiver d last ev (page-applied receiver now d events) v,
              page-IsSettled now d events (rw same at h),
            )
        | Outcome.settles d' f applied v ↦
            let same = page_changed receiver now d ev events d' f in
            let last = (receive_page receiver now d' events).0 in
            let (m, h', _) = >>=-eq-ok (receive_page receiver now d' events).1 _ (rw same at h) in
            subst goal (sym same) (
              IsSettled-grow receiver d' last ev (page-applied receiver now d' events) v,
              page-IsSettled now d' events h',
            )
      ]

  module _ (now : Clock) (s : SyncStore) where
    abbrev pub page_at : ℕ → List StoredEventRecord
    page_at cursor = (pull s receiver.account_id_hex cursor (some batch)).0

    abbrev pub next_at : ℕ → ℕ
    next_at cursor = (pull s receiver.account_id_hex cursor (some batch)).2

    -- One round of the loop, by what its page does.
    pub loop_empty :
        (fuel cursor applied : ℕ) (d : Device D)
        → page_at cursor ≡ []
        → pull_loop receiver (suc fuel) now s cursor applied d ≡ (d, cursor, some (ok applied))
    unfolding pull_loop
    loop_empty fuel cursor applied d e = rw (pull_loop, e) refl

    module _ (fuel cursor applied : ℕ) (d : Device D) (ev : StoredEventRecord)
        (more : List StoredEventRecord) (e : page_at cursor ≡ ev ∷ more) where
      abbrev received : Device D × Result (SyncError E) ℕ
      received = receive_page receiver now d (ev ∷ more)

      pub loop_err :
          (bad : SyncError E)
          → received.1 ≡ err bad
          → pull_loop receiver (suc fuel) now s cursor applied d
            ≡ (received.0, cursor, some (err bad))
      unfolding pull_loop
      loop_err bad h = rw (pull_loop, e, h) refl

      pub loop_short :
          (n : ℕ)
          → received.1 ≡ ok n
          → ltb (length (ev ∷ more)) batch ≡ true
          → pull_loop receiver (suc fuel) now s cursor applied d
            ≡ (received.0, next_at cursor, some (ok (applied + n)))
      unfolding pull_loop
      loop_short n h short = rw (pull_loop, e, h, short) refl

      pub loop_full :
          (n : ℕ)
          → received.1 ≡ ok n
          → ltb (length (ev ∷ more)) batch ≡ false
          → pull_loop receiver (suc fuel) now s cursor applied d
            ≡ pull_loop receiver fuel now s (next_at cursor) (applied + n) received.0
      unfolding pull_loop
      loop_full n h full = rw (pull_loop, e, h, full) refl

    pub loop-applied :
        (fuel cursor applied : ℕ) (d : Device D) (x : String)
        → contains x d.applied ≡ true
        → contains x (pull_loop receiver fuel now s cursor applied d).0.applied ≡ true
    unfolding pull_loop
    loop-applied zero cursor applied d x h = h
    loop-applied (suc fuel) cursor applied d x h = elim (List-cases (page_at cursor)) [
      | inl e ↦ rw (loop_empty fuel cursor applied d e) h
      | inr (ev, more, e) ↦
          let kept = page-applied receiver now d (ev ∷ more) x h in
          let got = receive_page receiver now d (ev ∷ more) in
          elim (Result-cases got.1) [
            | inl (bad, f) ↦ rw (loop_err fuel cursor applied d ev more e bad f) kept
            | inr (n, f) ↦ elim (Bool-cases (ltb (length (ev ∷ more)) batch)) [
              | inl short ↦ rw (loop_short fuel cursor applied d ev more e n f short) kept
              | inr full ↦
                  rw (loop_full fuel cursor applied d ev more e n f full)
                    (loop-applied fuel (next_at cursor) (applied + n) got.0 x kept)
            ]
          ]
    ]
