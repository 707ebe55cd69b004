-- ===== src/Relay/Rows.antt =====
-- The rows of one account after an append, and their numbering.
use pergamon.Common.{
  ℕ, suc, ◌+◌, String, ◌≡◌, none, some, List, [], ◌∷◌, ◌++◌, max, arith, length, str_eq,
  if◌then◌else◌,
}
use pergamon.Relay.{
  StoredEventRecord, BlobRow, events_of, blobs_of, max_seq, seq_of_change, payload_sum,
  byte_len_sum,
}

pub events_of-append :
    (a : String) (rows : List StoredEventRecord) (r : StoredEventRecord)
    → events_of a (rows ++ r ∷ [])
      ≡ (if str_eq r.account_id a then events_of a rows ++ r ∷ [] else events_of a rows)
unfolding events_of
events_of-append a [] r = ground arith
events_of-append a (x ∷ rows) r = ground (arith, events_of-append a rows r)

pub blobs_of-append :
    (a : String) (rows : List BlobRow) (b : BlobRow)
    → blobs_of a (rows ++ b ∷ [])
      ≡ (if str_eq b.account_id a then blobs_of a rows ++ b ∷ [] else blobs_of a rows)
unfolding blobs_of
blobs_of-append a [] r = ground arith
blobs_of-append a (x ∷ rows) r = ground (arith, blobs_of-append a rows r)

-- The rows are numbered `k + 1`, `k + 2`, … in their order.
abbrev pub Contiguous : ℕ → List StoredEventRecord → Type 0
Contiguous k [] = Unit {0}
Contiguous k (r ∷ rows) = (r.server_seq ≡ suc k) × Contiguous (suc k) rows

pub Contiguous-append :
    (k : ℕ) (rows : List StoredEventRecord) (r : StoredEventRecord)
    → Contiguous k rows
    → r.server_seq ≡ suc (k + length rows)
    → Contiguous k (rows ++ r ∷ [])
Contiguous-append k [] r c e = (omega arith, tt)
Contiguous-append k (x ∷ rows) r c e = (c.0, Contiguous-append (suc k) rows r c.1 (omega arith))

pub max_seq-Contiguous :
    (k : ℕ) (rows : List StoredEventRecord)
    → Contiguous k rows
    → max k (max_seq rows) ≡ k + length rows
unfolding max_seq
max_seq-Contiguous k [] c = omega arith
max_seq-Contiguous k (r ∷ rows) c = omega (arith, max_seq-Contiguous (suc k) rows c.1, c.0)

pub seq_of_change-append :
    (change : String) (rows : List StoredEventRecord) (r : StoredEventRecord)
    → seq_of_change change (rows ++ r ∷ []) ≡ elim (seq_of_change change rows) [
      | some seq ↦ some seq
      | none ↦ if str_eq r.change_id change then some r.server_seq else none
    ]
unfolding seq_of_change
seq_of_change-append change [] r = ground arith
seq_of_change-append change (x ∷ rows) r = ground (arith, seq_of_change-append change rows r)

pub payload_sum-append :
    (rows : List StoredEventRecord) (r : StoredEventRecord)
    → payload_sum (rows ++ r ∷ []) ≡ payload_sum rows + r.payload_bytes
unfolding payload_sum
payload_sum-append [] r = omega arith
payload_sum-append (x ∷ rows) r = omega (arith, payload_sum-append rows r)

pub byte_len_sum-append :
    (rows : List BlobRow) (b : BlobRow)
    → byte_len_sum (rows ++ b ∷ []) ≡ byte_len_sum rows + b.byte_len
unfolding byte_len_sum
byte_len_sum-append [] r = omega arith
byte_len_sum-append (x ∷ rows) r = omega (arith, byte_len_sum-append rows r)
