-- ===== src/Outbox.antt =====
-- The outbox of a device, the table `sync_outbox` of crates/pergamon-storage/src/sync.rs. Its rows
-- are in the order of `local_seq`, which each enqueued row takes from a counter. A body is the bytes
-- that the row stores.
use pergamon.Common.{
  ℕ, zero, suc, ◌≤◌, ◌<◌, String, ◌≡◌, refl, inl, inr, Bool, true, false, ◌&&◌, Option, none, some,
  List, [], ◌∷◌, arith, length, take, any, str_eq, eq_iff, if◌then◌else◌, List-cases,
}
use pergamon.Event.{EntityType, Op}
use pergamon.Relay.{Bytes}

pub record OutboxRow : Type 0 where
  pub change_id : String
  pub entity_type : EntityType
  pub entity_id : String
  pub op : Op
  pub body : Bytes
  pub blob_refs : List String
  pub local_seq : ℕ
  pub acked_seq : Option ℕ

-- `acked_seq IS NULL`
abbrev pub is_pending : OutboxRow → Bool
is_pending row = elim row.acked_seq [ none ↦ true | some _ ↦ false ]

unfoldable pub pending : List OutboxRow → List OutboxRow
pending [] = []
pending (row ∷ rows) = let rest = pending rows in if is_pending row then row ∷ rest else rest

unfoldable pub pending_outbox : ℕ → List OutboxRow → List OutboxRow
pending_outbox limit rows = take limit (pending rows)

abbrev pub pending_outbox_count : List OutboxRow → ℕ
pending_outbox_count rows = length (pending rows)

unfoldable pub mark_outbox_acked : String → ℕ → List OutboxRow → List OutboxRow
mark_outbox_acked change_id server_seq [] = []
mark_outbox_acked change_id server_seq (row ∷ rows) =
    let rest = mark_outbox_acked change_id server_seq rows in
    if str_eq row.change_id change_id
    then record row { acked_seq = some server_seq } ∷ rest
    else row ∷ rest

-- The change waits in the outbox.
pub waits : String → List OutboxRow → Bool
waits change_id rows = any (λ row. str_eq row.change_id change_id && is_pending row) rows

pub pending-mark_le :
    (id : String) (seq : ℕ) (rows : List OutboxRow)
    → length (pending (mark_outbox_acked id seq rows)) ≤ length (pending rows)
unfolding pending mark_outbox_acked
pending-mark_le id seq [] = omega arith
pending-mark_le id seq (row ∷ rows) = ground (arith, pending-mark_le id seq rows)

-- An acknowledgement of a waiting change leaves fewer rows to send.
pub pending-mark_lt :
    (id : String) (seq : ℕ) (rows : List OutboxRow)
    → waits id rows ≡ true
    → length (pending (mark_outbox_acked id seq rows)) < length (pending rows)
unfolding pending mark_outbox_acked waits
pending-mark_lt id seq [] h = cc
pending-mark_lt id seq (row ∷ rows) h =
    ground (arith, pending-mark_le id seq rows, pending-mark_lt id seq rows)

pub waits-mark :
    (x id : String) (seq : ℕ) (rows : List OutboxRow)
    → str_eq id x ≡ false
    → waits x (mark_outbox_acked id seq rows) ≡ waits x rows
unfolding mark_outbox_acked waits
waits-mark x id seq [] h = refl
waits-mark x id seq (row ∷ rows) h = ground (
  arith,
  waits-mark x id seq rows h,
  eq_iff row.change_id id,
  eq_iff row.change_id x,
  eq_iff id x,
)

abbrev pub names : String → List OutboxRow → Bool
names x rows = any (λ (row : OutboxRow). str_eq row.change_id x) rows

names-take :
    (x : String) (n : ℕ) (rows : List OutboxRow)
    → names x (take n rows) ≡ true
    → names x rows ≡ true
names-take x zero rows h = cc
names-take x (suc n) [] h = cc
names-take x (suc n) (row ∷ rows) h = ground (arith, names-take x n rows)

names-pending :
    (x : String) (rows : List OutboxRow) → names x (pending rows) ≡ true → waits x rows ≡ true
unfolding pending waits
names-pending x [] h = cc
names-pending x (row ∷ rows) h = ground (arith, names-pending x rows)

-- A page names only waiting changes.
pub page-waits :
    (x : String) (limit : ℕ) (rows : List OutboxRow)
    → names x (pending_outbox limit rows) ≡ true
    → waits x rows ≡ true
unfolding pending_outbox
page-waits x limit rows h = names-pending x rows (names-take x limit (pending rows) h)

-- An empty page means that nothing waits.
pub page-empty :
    (limit : ℕ) (rows : List OutboxRow)
    → pending_outbox (suc limit) rows ≡ []
    → length (pending rows) ≡ 0
unfolding pending_outbox
page-empty limit rows h = elim (List-cases (pending rows)) [
  | inl e ↦ rw e refl
  | inr (row, more, e) ↦ cc (rw e at h)
]
