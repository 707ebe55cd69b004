-- ===== src/Engine/Drains.antt =====
-- The push loop of crates/pergamon-sync/src/engine.rs and the rows that wait in the outbox.
use pergamon.Common.{
  ℕ, zero, suc, ◌+◌, ◌≤◌, ◌<◌, String, ◌≡◌, refl, sym, subst, ◌∙◌, inl, inr, true, false, some,
  List, [], ◌∷◌, map, arith, length, str_eq, ◌==◌, Bool-cases, List-cases, Result-cases, Result, ok,
  err,
}
use pergamon.Relay.{PushResultRecord}
use pergamon.Outbox.{
  OutboxRow, pending, pending_outbox, pending_outbox_count, mark_outbox_acked, waits, names,
  pending-mark_lt, waits-mark, page-waits, page-empty,
}
use pergamon.Engine.{
  SyncError, Transport, Client, batch, contains, unexpected, ack_results, settle, received,
  push_round, push_loop,
}

contains-names :
    (x : String) (page : List OutboxRow)
    → contains x (map (λ (row : OutboxRow). row.change_id) page) ≡ names x page
contains-names x [] = refl
contains-names x (row ∷ page) = ground (arith, contains-names x page)

-- Acknowledgements without a repetition, of changes that wait, each leave one row less.
pending-ack_results :
    (expected seen : List String) (results : List PushResultRecord) (rows : List OutboxRow)
    → unexpected expected seen results ≡ false
    → ((x : String) → contains x expected ≡ true → contains x seen ≡ false → waits x rows ≡ true)
    → length (pending (ack_results results rows)) + length results ≤ length (pending rows)
unfolding unexpected ack_results
pending-ack_results expected seen [] rows h wait = omega arith
pending-ack_results expected seen (r ∷ results) rows h wait =
    let known : contains r.change_id expected ≡ true = ground (arith, h) in
    let fresh : contains r.change_id seen ≡ false = ground (arith, h) in
    let others : unexpected expected (r.change_id ∷ seen) results ≡ false = ground (arith, h) in
    let rows' = mark_outbox_acked r.change_id r.server_seq rows in
    let less = pending-mark_lt r.change_id r.server_seq rows (wait r.change_id known fresh) in
    let still =
      λ (x : String) (e : contains x expected ≡ true) (n : contains x (r.change_id ∷ seen) ≡ false).
        let apart : str_eq r.change_id x ≡ false = ground (arith, n) in
        let unseen : contains x seen ≡ false = ground (arith, n) in
        waits-mark x r.change_id r.server_seq rows apart ∙ wait x e unseen in
    omega
      (arith, less, pending-ack_results expected (r.change_id ∷ seen) results rows' others still)

module _ {E V T : Type 0} (transport : Transport E T) (client : Client E V) where
  -- A page that is settled has left the outbox.
  settle-pending :
      (rows : List OutboxRow) (results : List PushResultRecord) (n : ℕ)
      → (settle transport client rows (pending_outbox batch rows) results).1 ≡ ok n
      → length (pending (settle transport client rows (pending_outbox batch rows) results).0)
          + length (pending_outbox batch rows)
        ≤ length (pending rows)
  unfolding settle
  settle-pending rows results n h =
      let page = pending_outbox batch rows in
      let expected = map (λ (row : OutboxRow). row.change_id) page in
      elim (Bool-cases (unexpected expected [] results)) [
        | inl bad ↦ cc (rw (bad, settle) at h)
        | inr good ↦
            let wait = λ (x : String) (e : contains x expected ≡ true) (_ : contains x [] ≡ false).
              page-waits x batch rows (sym (contains-names x page) ∙ e) in
            let less = pending-ack_results expected [] results rows good wait in
            elim (Bool-cases (length results == length page)) [
              | inl whole ↦ rw (good, whole, settle) (ground (arith, less, whole))
              | inr short ↦ cc (rw (good, short, settle) at h)
            ]
      ]

  received-pending :
      (rows : List OutboxRow) (answer : T × Result (SyncError E) (List PushResultRecord)) (n : ℕ)
      → (received transport client rows (pending_outbox batch rows) answer).2 ≡ ok n
      → length (pending (received transport client rows (pending_outbox batch rows) answer).1)
          + length (pending_outbox batch rows)
        ≤ length (pending rows)
  unfolding received
  received-pending rows (t, err e) n h = cc
  received-pending rows (t, ok results) n h = settle-pending rows results n h

  round-pending :
      (rows page : List OutboxRow) (t : T) (n : ℕ)
      → pending_outbox batch rows ≡ page
      → (push_round transport client rows page t).2 ≡ ok n
      → length (pending (push_round transport client rows page t).1) + length page
        ≤ length (pending rows)
  unfolding push_round
  round-pending rows page t n e =
      subst
        (λ p.
          (push_round transport client rows p t).2 ≡ ok n
          → length (pending (push_round transport client rows p t).1) + length p
            ≤ length (pending rows))
        e (received-pending rows _ n)

  -- The push of the waiting changes ends within as many rounds as there are such changes, and one
  -- more: with this fuel the loop answers, and where it answers without an error no change waits.
  -- No law of the transport is needed.
  pub push_loop_drains :
      (fuel pushed : ℕ) (rows : List OutboxRow) (t : T)
      → pending_outbox_count rows < fuel
      → (answer : Result (SyncError E) ℕ) × ((push_loop transport client fuel pushed rows t).2
          ≡ some answer)
        × ((n : ℕ)
            → answer ≡ ok n
            → pending_outbox_count (push_loop transport client fuel pushed rows t).1 ≡ 0)
  unfolding push_loop push_round
  push_loop_drains zero pushed rows t h = elim h [ ]
  push_loop_drains (suc fuel) pushed rows t h = elim (List-cases (pending_outbox batch rows)) [
    | inl e ↦ rw (push_loop, e) (ok pushed, refl, λ n same. page-empty 255 rows e)
    | inr (row, more, e) ↦
        let round = push_round transport client rows (row ∷ more) t in
        elim (Result-cases round.2) [
          | inl (bad, f) ↦ rw (push_loop, e, f) (err bad, refl, λ n same. cc)
          | inr (new, f) ↦
              let less = round-pending rows (row ∷ more) t new e f in
              rw (push_loop, e, f)
                (push_loop_drains fuel (pushed + new) round.1 round.0 (omega (arith, less, h)))
        ]
  ]
