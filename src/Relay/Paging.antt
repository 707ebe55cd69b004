-- ===== src/Relay/Paging.antt =====
-- The pull route of crates/pergamon-sync-server/src/routes/events.rs, and the client's loop over its
-- pages (`SyncEngine::pull` of crates/pergamon-sync/src/engine.rs).
mod Order
use pergamon.Common.{
  ℕ, zero, suc, ◌+◌, ◌≤◌, ◌<◌, String, ◌≡◌, refl, sym, ap, subst, ◌∙◌, inl, inr, Option, none, some,
  List, [], ◌∷◌, ◌++◌, max, min, arith, length, take, drop, take-append-drop, take_short,
  length-drop_lt, ltb, ltb→lt, if◌then◌else◌, Bool-cases,
}
use pergamon.Relay.{StoredEventRecord, SyncStore, events_of, past, pull_events, pull_page}
use pergamon.Relay.Rows.{Contiguous}
use pergamon.Relay.Log.{IsLog}
use Order.{order_by_seq_lem, past-Contiguous, past-past, past_advance, Contiguous-take}

abbrev pub default_limit : ℕ
default_limit = 500

abbrev pub max_limit : ℕ
max_limit = 1000

-- `query.limit.unwrap_or(DEFAULT_LIMIT).clamp(1, MAX_LIMIT)`
pub page_limit : Option ℕ → ℕ
page_limit none = default_limit
page_limit (some limit) = min (max limit 1) max_limit

unfoldable pub next_cursor : ℕ → List StoredEventRecord → ℕ
next_cursor after [] = after
next_cursor after (r ∷ rows) = next_cursor (max after r.server_seq) rows

-- The body of a pull response: the page, the high-water mark and the cursor to keep.
pub pull : SyncStore → String → ℕ → Option ℕ → List StoredEventRecord × ℕ × ℕ
unfolding pull_page
pull s account after limit =
    let (page, high_water_seq) = pull_page s account after (page_limit limit) in
    (page, high_water_seq, next_cursor after page)

abbrev pub batch : ℕ
batch = 256

-- The events that the client's loop sees, from its cursor on: it stops at an empty page, and after
-- one that is shorter than its batch.
pub pull_pages : ℕ → SyncStore → String → ℕ → List StoredEventRecord
pull_pages zero s account after = []
pull_pages (suc fuel) s account after =
    let (page, high_water_seq, cursor) = pull s account after (some batch) in
    let rest = pull_pages fuel s account cursor in
    if ltb (length page) batch then page else page ++ rest

next_cursor_lem :
    (k : ℕ) (rows : List StoredEventRecord)
    → Contiguous k rows
    → next_cursor k rows ≡ k + length rows
unfolding next_cursor
next_cursor_lem k [] c = omega arith
next_cursor_lem k (r ∷ rows) c =
    let here : max k r.server_seq ≡ suc k = omega (arith, c.0) in
    ap (λ m. next_cursor m rows) here ∙ next_cursor_lem (suc k) rows c.1 ∙ omega arith

module _ (s : SyncStore) (account : String) (v : IsLog s.events) where
  abbrev pub left : ℕ → List StoredEventRecord
  left after = past after (events_of account s.events)

  left-Contiguous : (after : ℕ) → Contiguous after (left after)
  left-Contiguous after =
      let e : max 0 after ≡ after = omega arith in
      subst (λ m. Contiguous m (left after)) e
        (past-Contiguous 0 after (events_of account s.events) (v.at account))

  pub page_lem : (after : ℕ) → (pull s account after (some batch)).0 ≡ take batch (left after)
  unfolding pull pull_page page_limit pull_events
  page_lem after = ap (take batch) (order_by_seq_lem after (left after) (left-Contiguous after))

  -- After a page the loop goes on with the rows that the page left out.
  pub left-cursor :
      (after : ℕ) → left (pull s account after (some batch)).2 ≡ drop batch (left after)
  unfolding pull pull_page page_limit
  left-cursor after =
      let rows = events_of account s.events in
      let page = pull_events s account after batch in
      let taken : page ≡ take batch (left after) = page_lem after in
      let cursor : next_cursor after page ≡ after + length (take batch (left after)) =
        ap (next_cursor after) taken
        ∙ next_cursor_lem after (take batch (left after))
            (Contiguous-take after batch (left after) (left-Contiguous after)) in
      ap left cursor
      ∙ sym (past-past after (after + length (take batch (left after))) rows (omega arith))
      ∙ past_advance after batch (left after) (left-Contiguous after)

  -- One round of the loop, by the rows that are left.
  abbrev round : List StoredEventRecord → List StoredEventRecord → List StoredEventRecord
  round page rest = if ltb (length page) batch then page else page ++ rest

  round_lem :
      (n : ℕ) (xs rest : List StoredEventRecord)
      → (n ≤ length (take n xs) → rest ≡ drop n xs)
      → (if ltb (length (take n xs)) n then take n xs else take n xs ++ rest) ≡ xs
  round_lem n xs rest h = elim (Bool-cases (ltb (length (take n xs)) n)) [
    | inl short ↦ rw short (take_short n xs (ltb→lt (length (take n xs)) n short))
    | inr full ↦ rw (full, h (ground arith)) (take-append-drop n xs)
  ]

  -- In a store where the rows of every account are numbered with no gap, a client that starts at
  -- any cursor and follows the pages sees every later event of the account, each once and in the
  -- order of the log, if it may take more rounds than there are such events.
  pub pull_pages_complete :
      (fuel after : ℕ)
      → length (past after (events_of account s.events)) < fuel
      → pull_pages fuel s account after ≡ past after (events_of account s.events)
  unfolding pull_pages
  pull_pages_complete zero after h = elim h [ ]
  pull_pages_complete (suc fuel) after h =
      let xs = left after in
      let cursor = (pull s account after (some batch)).2 in
      let next : batch ≤ length (take batch xs) → pull_pages fuel s account cursor ≡ drop batch xs =
        λ full.
          pull_pages_complete fuel cursor
            (rw (left-cursor after) (length-drop_lt batch xs fuel full (omega arith) h))
          ∙ left-cursor after in
      ap (λ page. round page (pull_pages fuel s account cursor)) (page_lem after)
      ∙ round_lem batch xs (pull_pages fuel s account cursor) next
