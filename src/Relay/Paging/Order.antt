-- ===== src/Relay/Paging/Order.antt =====
-- Rows in the order of their numbers, cut by a cursor.
use pergamon.Common.{
  ℕ, zero, suc, ◌+◌, ◌≤◌, ◌≡◌, refl, ap, subst, false, ◌∙◌, inl, inr, List, [], ◌∷◌, max, arith,
  length, take, drop, ltb, Bool-cases,
}
use pergamon.Relay.{StoredEventRecord, past, order_by_seq, insert_by_seq}
use pergamon.Relay.Rows.{Contiguous}

insert_first :
    (k : ℕ) (r : StoredEventRecord) (rows : List StoredEventRecord)
    → r.server_seq ≡ suc k
    → Contiguous (suc k) rows
    → insert_by_seq r rows ≡ r ∷ rows
unfolding insert_by_seq
insert_first k r [] e c = refl
insert_first k r (x ∷ rows) e c = ground arith

pub order_by_seq_lem :
    (k : ℕ) (rows : List StoredEventRecord) → Contiguous k rows → order_by_seq rows ≡ rows
unfolding order_by_seq
order_by_seq_lem k [] c = refl
order_by_seq_lem k (r ∷ rows) c =
    ap (insert_by_seq r) (order_by_seq_lem (suc k) rows c.1) ∙ insert_first k r rows c.0 c.1

pub past-Contiguous :
    (k after : ℕ) (rows : List StoredEventRecord)
    → Contiguous k rows
    → Contiguous (max k after) (past after rows)
unfolding past
past-Contiguous k after [] c = tt
past-Contiguous k after (r ∷ rows) c =
    let ih = past-Contiguous (suc k) after rows c.1 in
    elim (Bool-cases (ltb after r.server_seq)) [
      | inl e ↦
          let here : r.server_seq ≡ suc (max k after) = ground arith in
          let next : max (suc k) after ≡ suc (max k after) = ground arith in
          rw e (here, subst (λ m. Contiguous m (past after rows)) next ih)
      | inr e ↦
          let next : max (suc k) after ≡ max k after = ground arith in
          rw e (subst (λ m. Contiguous m (past after rows)) next ih)
    ]

pub past-past :
    (a b : ℕ) (rows : List StoredEventRecord) → a ≤ b → past b (past a rows) ≡ past b rows
unfolding past
past-past a b [] h = refl
past-past a b (r ∷ rows) h = ground (arith, past-past a b rows h)

pub past_all :
    (k after : ℕ) (rows : List StoredEventRecord)
    → Contiguous k rows
    → after ≤ k
    → past after rows ≡ rows
unfolding past
past_all k after [] c h = refl
past_all k after (r ∷ rows) c h = ground (arith, past_all (suc k) after rows c.1)

-- The cursor after the first `n` rows leaves the others.
pub past_advance :
    (k n : ℕ) (rows : List StoredEventRecord)
    → Contiguous k rows
    → past (k + length (take n rows)) rows ≡ drop n rows
unfolding past
past_advance k zero rows c = past_all k (k + length (take 0 rows)) rows c (omega arith)
past_advance k (suc n) [] c = refl
past_advance k (suc n) (r ∷ rows) c =
    let gone : ltb (k + suc (length (take n rows))) r.server_seq ≡ false = ground arith in
    let shift : k + suc (length (take n rows)) ≡ suc k + length (take n rows) = omega arith in
    rw gone (ap (λ m. past m rows) shift ∙ past_advance (suc k) n rows c.1)

pub Contiguous-take :
    (k n : ℕ) (rows : List StoredEventRecord) → Contiguous k rows → Contiguous k (take n rows)
Contiguous-take k zero rows c = tt
Contiguous-take k (suc n) [] c = tt
Contiguous-take k (suc n) (r ∷ rows) c = (c.0, Contiguous-take (suc k) n rows c.1)
