-- ===== src/Review/Convergence.antt =====
-- Every device that holds the same logs of a card derives the same schedule.
use Prim.Native.String.{compare as compare_str}
use mathlib.Core.List.{Memᴰ}
use pergamon.Common.{◌≡◌, refl, sym, ap, ◌∙◌, true, Bool-cases, inl, inr, some, List, eq_iff}
use pergamon.Common.Integers.{compare}
use pergamon.Order.{IsOrder, then_eq, then-lt_trans, reverse-then_with}
use pergamon.Order.Integer.{int-IsOrder}
use pergamon.Order.Text.{text-IsOrder}
use pergamon.Order.Sorting.{IsKeyed, sort-same_elements}
use pergamon.Review.{Floats, Scheduler}
use pergamon.Review.Derive.{
  ReviewLogEntry, entry_key, compare_key, Replay, is_last, no_replay, replay_entry, derived,
  derive_card_state,
}

pub key-IsOrder : IsOrder compare_key
key-IsOrder = record {
  cmp_self = λ a. rw (int-IsOrder.cmp_self a.0) (text-IsOrder.cmp_self a.1);
  eq_of_cmp = λ a b h.
      let (p, q) = then_eq _ _ h in
      ap (λ t. (a.0, t)) (text-IsOrder.eq_of_cmp a.1 b.1 q)
      ∙ ap (λ t. (t, b.1)) (int-IsOrder.eq_of_cmp a.0 b.0 p);
  cmp_flip = λ a b.
      rw (int-IsOrder.cmp_flip a.0 b.0, text-IsOrder.cmp_flip a.1 b.1)
        (sym (reverse-then_with (compare a.0 b.0) (compare_str a.1 b.1)));
  lt_trans =
      λ a b c. then-lt_trans int-IsOrder a.0 b.0 c.0 _ _ _ (text-IsOrder.lt_trans a.1 b.1 c.1);
}

is_last_self : (e : ReviewLogEntry) → is_last (some e.reviewed_at_ms) (some e.id) e ≡ true
is_last_self e = rw (int-IsOrder.cmp_self e.reviewed_at_ms, (eq_iff e.id e.id).1 refl) refl

module _ {F : Type 0} (fl : Floats F) (sched : Scheduler F) where
  skipped :
      (s : Replay F) (e : ReviewLogEntry)
      → is_last s.last_ms s.last_id e ≡ true
      → replay_entry fl sched s e ≡ s
  unfolding replay_entry
  skipped s e p = rw (replay_entry, p)

  replay_entry_again :
      (s : Replay F) (e : ReviewLogEntry)
      → replay_entry fl sched (replay_entry fl sched s e) e ≡ replay_entry fl sched s e
  unfolding replay_entry
  replay_entry_again s e = elim (Bool-cases (is_last s.last_ms s.last_id e)) [
    | inl p ↦ ap (λ t. replay_entry fl sched t e) (skipped s e p)
    | inr p ↦ skipped (replay_entry fl sched s e) e (rw (replay_entry, p) (is_last_self e))
  ]

  -- Two devices that hold the same review logs of a card derive the same schedule, in whatever
  -- order the logs came and however often each was delivered, where no two different logs have one
  -- time and one id.
  pub derive_card_state-same_logs :
      (logs others : List ReviewLogEntry)
      → IsKeyed key-IsOrder entry_key logs
      → ((e : ReviewLogEntry) → Memᴰ e logs → Memᴰ e others)
      → ((e : ReviewLogEntry) → Memᴰ e others → Memᴰ e logs)
      → derive_card_state fl sched logs ≡ derive_card_state fl sched others
  unfolding derive_card_state
  derive_card_state-same_logs logs others h sub sup = ap (derived fl sched) (
      sort-same_elements key-IsOrder entry_key (replay_entry fl sched) replay_entry_again no_replay
        logs others h sub sup)
