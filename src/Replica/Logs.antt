-- ===== src/Replica/Logs.antt =====
-- The query for the logs of a card answers exactly the entries of the stored rows.
use mathlib.Core.List.{Memᴰ}
use pergamon.Common.{
  String, ◌≡◌, ◌↔◌, ◌⊎◌, inl, inr, true, false, Bool, false≢true, ◌&&◌, Bool-cases, refl, sym, ap,
  ◌∙◌, subst, Option, none, some, List, [], ◌∷◌, str_eq, eq_iff, arith, ok, >>=-eq-ok, ok-injective,
}
use pergamon.Common.Maps.{lookup}
use pergamon.Event.{FieldMap}
use pergamon.Replica.{Sqlite, Rows, RowKey, text_pair_eq}
use pergamon.Replica.Schedule.{
  Cells, review_log_entries_for_card, is_of_card, cell, log_entry, with_entry,
}
use pergamon.Review.{Floats}
use pergamon.Review.Derive.{ReviewLogEntry}

module _ {V F : Type 0} (sql : Sqlite V) (cells : Cells V F) (fl : Floats F) where
  -- The column names the card; a missing column reads as its default.
  abbrev pub IsOf : String → FieldMap V → Type 0
  IsOf card log =
      cells.get_string
        (elim (lookup "card_id" log) [ none ↦ sql.unset "review_logs" "card_id" | some v ↦ v ])
      ≡ some card

  names :
      (found : Option String) (card : String)
      → (elim found [ none ↦ false | some name ↦ str_eq name card ] ≡ true) ↔ (found ≡ some card)
  names none card = (λ h. absurd (false≢true h), λ h. cc)
  names (some name) card = (λ h. ap some ((eq_iff name card).0 h), λ h. (eq_iff name card).1 (cc))

  is_of_card_iff :
      (card : String) (log : FieldMap V) → (is_of_card sql cells fl card log ≡ true) ↔ IsOf card log
  unfolding is_of_card cell
  is_of_card_iff card log = names _ card

  -- A row of the log table that belongs to the card, and the entry that it is read as.
  pub record IsLogOf (card : String) (rows : Rows V) (e : ReviewLogEntry) : Type 0 where
    pub id : String
    pub log : FieldMap V
    pub stored : Memᴰ {A = RowKey × FieldMap V} (("review_logs", id), log) rows
    pub mine : IsOf card log
    pub read : log_entry sql cells fl id log ≡ ok (some e)

  abbrev is_log : String → RowKey → FieldMap V → Bool
  is_log card key row = str_eq key.0 "review_logs" && is_of_card sql cells fl card row

  -- What the first row of the table does to the answer of the query.
  query_step :
      (card : String) (key : RowKey) (row : FieldMap V) (rows : Rows V) (xs : List ReviewLogEntry)
      → review_log_entries_for_card sql cells fl card ((key, row) ∷ rows) ≡ ok xs
      → (rest : List ReviewLogEntry) × (review_log_entries_for_card sql cells fl card rows
          ≡ ok rest)
        × (((is_log card key row ≡ true)
              × ((found : Option ReviewLogEntry) × (log_entry sql cells fl key.1 row ≡ ok found)
                  × (with_entry found rest ≡ xs)))
            ⊎ ((is_log card key row ≡ false) × (rest ≡ xs)))
  unfolding review_log_entries_for_card
  query_step card key row rows xs h =
      let (rest, q, k) = >>=-eq-ok (review_log_entries_for_card sql cells fl card rows) _ h in
      elim (Bool-cases (is_log card key row)) [
        | inl p ↦
            let (found, g, done) =
              >>=-eq-ok (log_entry sql cells fl key.1 row) (λ f. ok (with_entry f rest))
                (rw p at k) in
            (rest, q, inl (p, (found, g, ok-injective done)))
        | inr p ↦ (rest, q, inr (p, ok-injective (rw p at k)))
      ]

  lift :
      (card : String) (key : RowKey) (row : FieldMap V) (rows : Rows V) (e : ReviewLogEntry)
      → IsLogOf card rows e
      → IsLogOf card ((key, row) ∷ rows) e
  lift card key row rows e v = record {
    id = v.id;
    log = v.log;
    stored = Memᴰ.tail v.stored;
    mine = v.mine;
    read = v.read;
  }

  entry_cases :
      (found : Option ReviewLogEntry) (rest : List ReviewLogEntry) (e : ReviewLogEntry)
      → Memᴰ e (with_entry found rest)
      → (found ≡ some e) ⊎ Memᴰ e rest
  entry_cases none rest e m = inr m
  entry_cases (some x) rest e (Memᴰ.head p) = inl (ap some (sym p))
  entry_cases (some x) rest e (Memᴰ.tail m) = inr m

  entry_later :
      (found : Option ReviewLogEntry) (rest : List ReviewLogEntry) (e : ReviewLogEntry)
      → Memᴰ e rest
      → Memᴰ e (with_entry found rest)
  entry_later none rest e m = m
  entry_later (some x) rest e m = Memᴰ.tail m

  pub query_sound :
      (card : String) (rows : Rows V) (xs : List ReviewLogEntry) (e : ReviewLogEntry)
      → review_log_entries_for_card sql cells fl card rows ≡ ok xs
      → Memᴰ e xs
      → IsLogOf card rows e
  unfolding review_log_entries_for_card
  query_sound card [] xs e h m = elim (subst (Memᴰ e) (sym (ok-injective h)) m) [ ]
  query_sound card ((key, row) ∷ rows) xs e h m =
      let (rest, q, step) = query_step card key row rows xs h in
      elim step [
        | inr (_, same) ↦
            lift card key row rows e (query_sound card rows rest e q (subst (Memᴰ e) (sym same) m))
        | inl (p, (found, g, same)) ↦
            elim (entry_cases found rest e (subst (Memᴰ e) (sym same) m)) [
              | inr later ↦ lift card key row rows e (query_sound card rows rest e q later)
              | inl here ↦ record {
                id = key.1;
                log = row;
                stored = Memᴰ.head (
                    ap (λ t. ((t, key.1), row))
                      (sym ((eq_iff key.0 "review_logs").0 (ground (arith, p)))));
                mine = (is_of_card_iff card row).0 (ground (arith, p));
                read = g ∙ ap ok here;
              }
            ]
      ]

  -- A stored log of the card is in the answer.
  query_head :
      (card : String) (key : RowKey) (row : FieldMap V) (rows : Rows V) (e : ReviewLogEntry)
      → (xs : List ReviewLogEntry)
      → review_log_entries_for_card sql cells fl card ((key, row) ∷ rows) ≡ ok xs
      → is_log card key row ≡ true
      → log_entry sql cells fl key.1 row ≡ ok (some e)
      → Memᴰ e xs
  query_head card key row rows e xs h p g =
      let (rest, q, step) = query_step card key row rows xs h in
      elim step [
        | inr (off, _) ↦ absurd (false≢true (sym off ∙ p))
        | inl (_, (found, g', same)) ↦
            subst (λ f. with_entry f rest ≡ xs → Memᴰ e xs) (ok-injective (sym g ∙ g'))
              (λ all. subst (Memᴰ e) all (Memᴰ.head refl)) same
      ]

  pub query_complete :
      (card : String) (rows : Rows V) (xs : List ReviewLogEntry) (e : ReviewLogEntry) (id : String)
      (log : FieldMap V)
      → review_log_entries_for_card sql cells fl card rows ≡ ok xs
      → Memᴰ {A = RowKey × FieldMap V} (("review_logs", id), log) rows
      → IsOf card log
      → log_entry sql cells fl id log ≡ ok (some e)
      → Memᴰ e xs
  query_complete card [] xs e id log h m mine read = elim m [ ]
  query_complete card ((key, row) ∷ rows) xs e id log h (Memᴰ.head p) mine read =
      let named : "review_logs" ≡ key.0 = ap (λ (c : RowKey × FieldMap V). c.0.0) p in
      let ids : id ≡ key.1 = ap (λ (c : RowKey × FieldMap V). c.0.1) p in
      let logs : log ≡ row = ap (λ (c : RowKey × FieldMap V). c.1) p in
      let test : is_log card key row ≡ true =
        subst (λ name. str_eq name "review_logs" && is_of_card sql cells fl card row ≡ true) named
          (subst (λ l. is_of_card sql cells fl card l ≡ true) logs
            ((is_of_card_iff card log).1 mine)) in
      query_head card key row rows e xs h test (
        subst (λ i. log_entry sql cells fl i row ≡ ok (some e)) ids
          (subst (λ l. log_entry sql cells fl id l ≡ ok (some e)) logs read))
  query_complete card ((key, row) ∷ rows) xs e id log h (Memᴰ.tail m) mine read =
      let (rest, q, step) = query_step card key row rows xs h in
      let later = query_complete card rows rest e id log q m mine read in
      elim step [
        | inr (_, same) ↦ subst (Memᴰ e) same later
        | inl (_, (found, _, same)) ↦ subst (Memᴰ e) same (entry_later found rest e later)
      ]
