-- ===== src/Review/Due.antt =====
-- A card with a log has a due time.
use mathlib.Core.List.{foldl}
use pergamon.Common.{
  ◌<◌, ◌≡◌, refl, sym, ◌∙◌, ◌⊎◌, inl, inr, false, Bool-cases, Option, some, List, [], ◌∷◌, length,
  arith,
}
use pergamon.Common.Integers.{ℤ}
use pergamon.Order.Sorting.{sort_by}
use pergamon.Order.Sorting.Contents.{length-sort_by}
use pergamon.Review.{Floats, Scheduler}
use pergamon.Review.Derive.{
  ReviewLogEntry, entry_key, compare_key, Replay, is_last, no_replay, replay_entry, replayed,
  derived, derive_card_state,
}

module _ {F : Type 0} (fl : Floats F) (sched : Scheduler F) where
  abbrev HasDue : Option ℤ → Type 0
  HasDue due = (t : ℤ) × (due ≡ some t)

  replay_entry-due :
      (s : Replay F) (e : ReviewLogEntry)
      → HasDue s.due_at_ms ⊎ (is_last s.last_ms s.last_id e ≡ false)
      → HasDue (replay_entry fl sched s e).due_at_ms
  unfolding replay_entry replayed
  replay_entry-due s e h = elim (Bool-cases (is_last s.last_ms s.last_id e)) [
    | inr p ↦ rw (replay_entry, p) (_, refl)
    | inl p ↦ elim h [ inl due ↦ rw (replay_entry, p) due | inr q ↦ cc (sym p ∙ q) ]
  ]

  replay-due :
      (s : Replay F) (xs : List ReviewLogEntry)
      → HasDue s.due_at_ms
      → HasDue (foldl (replay_entry fl sched) s xs).due_at_ms
  replay-due s [] h = h
  replay-due s (x ∷ xs) h = replay-due (replay_entry fl sched s x) xs (replay_entry-due s x (inl h))

  first-due :
      (xs : List ReviewLogEntry)
      → 0 < length xs
      → HasDue (foldl (replay_entry fl sched) no_replay xs).due_at_ms
  first-due [] h = elim h [ ]
  first-due (x ∷ xs) h =
      replay-due (replay_entry fl sched no_replay x) xs (replay_entry-due no_replay x (inr refl))

  pub derive_card_state-due :
      (log : ReviewLogEntry) (logs : List ReviewLogEntry)
      → HasDue (derive_card_state fl sched (log ∷ logs)).due_at_ms
  unfolding derive_card_state derived
  derive_card_state-due log logs =
      let cmp = λ (a b : ReviewLogEntry). compare_key (entry_key a) (entry_key b) in
      first-due (sort_by cmp (log ∷ logs)) (omega (arith, length-sort_by cmp (log ∷ logs)))
