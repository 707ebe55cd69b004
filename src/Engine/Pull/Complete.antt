-- ===== src/Engine/Pull/Complete.antt =====
-- The pull loop of crates/pergamon-sync/src/engine.rs over a log that does not change meanwhile.
use pergamon.Common.{
  ℕ, zero, suc, ◌+◌, ◌≤◌, ◌<◌, String, ◌≡◌, refl, sym, subst, ◌∙◌, inl, inr, true, false, Option,
  some, List, [], ◌∷◌, arith, length, take, drop, ltb, ltb→lt, take-append-drop, take_short,
  length-drop_lt, All, All-append, All-map, Bool-cases, List-cases, Result, Result-cases, ok, err,
}
use pergamon.Relay.{StoredEventRecord, SyncStore, events_of, past}
use pergamon.Relay.Log.{IsLog}
use pergamon.Relay.Paging.{page_lem, left-cursor}
use pergamon.Engine.{SyncError, batch, contains}
use pergamon.Engine.Pull.{Receiver, Device, Clock, receive_page, pull_loop}
use pergamon.Engine.Pull.Settled.{IsSettled, IsSettled-grow}
use pergamon.Engine.Pull.Rounds.{
  page-IsSettled, page_at, next_at, loop_empty, loop_err, loop_short, loop_full, loop-applied,
}

module _ {E V D : Type 0} (receiver : Receiver E V D) where
  module _ (now : Clock) (s : SyncStore) (v : IsLog s.events) where
    abbrev later : ℕ → List StoredEventRecord
    later cursor = past cursor (events_of receiver.account_id_hex s.events)

    -- The loop has an answer, and one without an error settles all that lies past the cursor.
    abbrev Done : ℕ → Device D × ℕ × Option (Result (SyncError E) ℕ) → Type 0
    Done cursor r =
        (answer : Result (SyncError E) ℕ) × (r.2 ≡ some answer)
        × ((n : ℕ) → answer ≡ ok n → All (IsSettled receiver r.0) (later cursor))

    page-later : (cursor : ℕ) → page_at receiver now s cursor ≡ take batch (later cursor)
    page-later cursor = page_lem s receiver.account_id_hex v cursor

    later_empty : (cursor : ℕ) → page_at receiver now s cursor ≡ [] → later cursor ≡ []
    later_empty cursor e = elim (List-cases (later cursor)) [
      | inl none_left ↦ none_left
      | inr (x, xs, some_left) ↦ cc (sym (page-later cursor) ∙ e, some_left)
    ]

    later_short :
        (cursor : ℕ) (page : List StoredEventRecord)
        → page_at receiver now s cursor ≡ page
        → ltb (length page) batch ≡ true
        → page ≡ later cursor
    later_short cursor page e short =
        let taken = sym (page-later cursor) ∙ e in
        sym taken
        ∙ take_short batch (later cursor)
            (ltb→lt (length (take batch (later cursor))) batch (rw taken short))

    later_full :
        (fuel cursor : ℕ) (page : List StoredEventRecord)
        → page_at receiver now s cursor ≡ page
        → ltb (length page) batch ≡ false
        → length (later cursor) < suc fuel
        → length (later (next_at receiver now s cursor)) < fuel
    later_full fuel cursor page e full h =
        let taken = sym (page-later cursor) ∙ e in
        let whole : batch ≤ length (take batch (later cursor)) = rw taken (ground (arith, full)) in
        rw (left-cursor s receiver.account_id_hex v cursor)
          (length-drop_lt batch (later cursor) fuel whole (omega arith) h)

    -- From a page that is settled and the rest that the loop settles.
    join_pages :
        (cursor : ℕ) (page : List StoredEventRecord) (d d' : Device D)
        → page_at receiver now s cursor ≡ page
        → ((x : String) → contains x d.applied ≡ true → contains x d'.applied ≡ true)
        → All (IsSettled receiver d) page
        → All (IsSettled receiver d') (later (next_at receiver now s cursor))
        → All (IsSettled receiver d') (later cursor)
    join_pages cursor page d d' e more here rest =
        let rows = later cursor in
        let taken = sym e ∙ page-later cursor in
        let first : All (IsSettled receiver d') (take batch rows) =
          subst (All (IsSettled receiver d')) taken
            (All-map page (λ ev. IsSettled-grow receiver d d' ev more) here) in
        let second : All (IsSettled receiver d') (drop batch rows) =
          subst (All (IsSettled receiver d')) (left-cursor s receiver.account_id_hex v cursor)
            rest in
        subst (All (IsSettled receiver d')) (take-append-drop batch rows)
          (All-append (IsSettled receiver d') (take batch rows) (drop batch rows) first second)

    -- In a store where the rows of every account are numbered with no gap, and with more fuel than
    -- there are events past the cursor, the pull loop answers; where it answers without an error,
    -- every event of the account past the cursor is the device's own or among the applied changes.
    pub pull_loop_complete :
        (fuel cursor applied : ℕ) (d : Device D)
        → length (past cursor (events_of receiver.account_id_hex s.events)) < fuel
        → (answer : Result (SyncError E) ℕ) × ((pull_loop receiver fuel now s cursor applied d).2
            ≡ some answer)
          × ((n : ℕ)
              → answer ≡ ok n
              → All
                  (IsSettled receiver (pull_loop receiver fuel now s cursor applied d).0)
                  (past cursor (events_of receiver.account_id_hex s.events)))
    pull_loop_complete zero cursor applied d h = elim h [ ]
    pull_loop_complete (suc fuel) cursor applied d h =
        elim (List-cases (page_at receiver now s cursor)) [
          | inl e ↦ subst (Done cursor) (sym (loop_empty receiver now s fuel cursor applied d e)) (
            ok applied,
            refl,
            λ n _. subst (All (IsSettled receiver d)) (sym (later_empty cursor e)) tt,
          )
          | inr (ev, more, e) ↦
              let got = receive_page receiver now d (ev ∷ more) in
              elim (Result-cases got.1) [
                | inl (bad, f) ↦
                    subst (Done cursor)
                      (sym (loop_err receiver now s fuel cursor applied d ev more e bad f))
                      (err bad, refl, λ n same. cc)
                | inr (n, f) ↦
                    let here = page-IsSettled receiver now d (ev ∷ more) f in
                    elim (Bool-cases (ltb (length (ev ∷ more)) batch)) [
                      | inl short ↦
                          subst (Done cursor)
                            (sym
                              (loop_short receiver now s fuel cursor applied d ev more e n f short))
                            (
                              ok (applied + n),
                              refl,
                              λ _ _.
                                  subst (All (IsSettled receiver got.0))
                                    (later_short cursor (ev ∷ more) e short) here,
                            )
                      | inr full ↦
                          let next = next_at receiver now s cursor in
                          let (answer, same, rest) =
                            pull_loop_complete fuel next (applied + n) got.0
                              (later_full fuel cursor (ev ∷ more) e full h) in
                          subst (Done cursor)
                            (sym
                              (loop_full receiver now s fuel cursor applied d ev more e n f full))
                            (
                              answer,
                              same,
                              λ k good.
                                  join_pages cursor (ev ∷ more) got.0 _ e
                                    (loop-applied receiver now s fuel next (applied + n) got.0) here
                                    (rest k good),
                            )
                    ]
              ]
        ]
