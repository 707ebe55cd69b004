-- ===== src/Review/Counts.antt =====
-- The counters of a derived card.
use mathlib.Core.List.{foldl}
use pergamon.Common.{
  ℕ, suc, ◌+◌, ◌%◌, ◌^◌, String, ◌≡◌, ◌≢◌, refl, ap, ◌∙◌, Bool, false, Bool-cases, Option, none,
  some, inl, inr, List, [], ◌∷◌, All, length, arith, eq_iff, if◌then◌else◌,
}
use pergamon.Common.Integers.{ℤ}
use pergamon.Order.Integer.{int-IsOrder}
use pergamon.Order.Sorting.{sort_by}
use pergamon.Order.Sorting.Contents.{count, Apart, count-sort_by, length-sort_by, Apart-sort_by}
use pergamon.Review.{Floats, Scheduler, is_again}
use pergamon.Review.Derive.{
  ReviewLogEntry, entry_key, compare_key, Replay, is_last, no_replay, replay_entry, replayed,
  derived, derive_card_state,
}

abbrev word : ℕ
word = 2 ^ 32

abbrev pub is_lapse : ReviewLogEntry → Bool
is_lapse e = is_again e.rating

-- The replay has not just met the entry.
abbrev NotLast : Option ℤ → Option String → ReviewLogEntry → Type 0
NotLast ms id e = is_last ms id e ≡ false

keys_differ :
    (a b : ReviewLogEntry)
    → entry_key a ≢ entry_key b
    → (a.id ≡ b.id)
    → a.reviewed_at_ms ≢ b.reviewed_at_ms
keys_differ a b h i m = h (ap (λ t. (t, a.id)) m ∙ ap (λ t. (b.reviewed_at_ms, t)) i)

is_last-key :
    (a b : ReviewLogEntry)
    → entry_key a ≢ entry_key b
    → is_last (some a.reviewed_at_ms) (some a.id) b ≡ false
is_last-key a b h = ground (
  arith,
  (eq_iff a.id b.id).0,
  int-IsOrder.eq_of_cmp a.reviewed_at_ms b.reviewed_at_ms,
  keys_differ a b h,
)

suc-word : (n c : ℕ) → n ≡ c % word → suc n % word ≡ suc c % word
suc-word n c h = omega arith

module _ {F : Type 0} (fl : Floats F) (sched : Scheduler F) where
  -- What the replay of an entry that it has not just met does to the counters and the marks.
  abbrev Counted : Replay F → ReviewLogEntry → Replay F → Type 0
  Counted s e t =
      (t.review_count ≡ suc s.review_count % word)
      × (t.lapse_count ≡ (if is_lapse e then suc s.lapse_count % word else s.lapse_count))
      × (t.last_ms ≡ some e.reviewed_at_ms)
      × (t.last_id ≡ some e.id)

  replay_entry-Counted :
      (s : Replay F) (e : ReviewLogEntry)
      → NotLast s.last_ms s.last_id e
      → Counted s e (replay_entry fl sched s e)
  unfolding replay_entry replayed
  replay_entry-Counted s e n = rw (replay_entry, n) (refl, refl, refl, refl)

  NotLast-after :
      (e : ReviewLogEntry) (t : Replay F) (xs : List ReviewLogEntry)
      → t.last_ms ≡ some e.reviewed_at_ms
      → t.last_id ≡ some e.id
      → All (λ y. entry_key e ≢ entry_key y) xs
      → All (NotLast t.last_ms t.last_id) xs
  NotLast-after e t [] m i h = tt
  NotLast-after e t (x ∷ xs) m i h = (rw (m, i) (is_last-key e x h.0), NotLast-after e t xs m i h.1)

  -- Both counters after the replay of entries that are all counted.
  replay-counts :
      (s : Replay F) (c l : ℕ) (xs : List ReviewLogEntry)
      → s.review_count ≡ c % word
      → s.lapse_count ≡ l % word
      → All (NotLast s.last_ms s.last_id) xs
      → Apart entry_key xs
      → ((foldl (replay_entry fl sched) s xs).review_count ≡ (c + length xs) % word)
        × ((foldl (replay_entry fl sched) s xs).lapse_count ≡ (l + count is_lapse xs) % word)
  replay-counts s c l [] hc hl n a = (omega (arith), omega (arith))
  replay-counts s c l (x ∷ xs) hc hl n a =
      let (reviews, lapses, ms, id) = replay_entry-Counted s x n.0 in
      let after = NotLast-after x (replay_entry fl sched s x) xs ms id a.0 in
      elim (Bool-cases (is_lapse x)) [
        | inl p ↦
            let (r, k) =
              replay-counts (replay_entry fl sched s x) (suc c) (suc l) xs
                (reviews ∙ suc-word s.review_count c hc)
                (lapses ∙ (rw p (suc-word s.lapse_count l hl))) after a.1 in
            (r ∙ omega arith, k ∙ (rw p (omega arith)))
        | inr p ↦
            let (r, k) =
              replay-counts (replay_entry fl sched s x) (suc c) l xs
                (reviews ∙ suc-word s.review_count c hc) (lapses ∙ (rw p hl)) after a.1 in
            (r ∙ omega arith, k ∙ (rw p refl))
      ]

  nothing_last : (xs : List ReviewLogEntry) → All (NotLast none none) xs
  nothing_last [] = tt
  nothing_last (x ∷ xs) = (refl, nothing_last xs)

  -- Where no two logs of a card have one time and one id, each is counted once, and each lapse
  -- once: the counters of the derived card are the number of logs and the number of logs rated
  -- "again", as a `u32` holds them. Logs that share an id and differ in their times are counted as
  -- different logs.
  pub derive_card_state-counts :
      (logs : List ReviewLogEntry)
      → Apart entry_key logs
      → ((derive_card_state fl sched logs).review_count ≡ length logs % word)
        × ((derive_card_state fl sched logs).lapse_count ≡ count is_lapse logs % word)
  unfolding derive_card_state derived
  derive_card_state-counts logs a =
      let cmp = λ (a b : ReviewLogEntry). compare_key (entry_key a) (entry_key b) in
      let sorted = sort_by cmp logs in
      let (reviews, lapses) =
        replay-counts no_replay 0 0 sorted refl refl (nothing_last sorted)
          (Apart-sort_by cmp entry_key logs a) in
      (
        omega (arith, reviews, length-sort_by cmp logs),
        omega (arith, lapses, count-sort_by cmp is_lapse logs),
      )
