-- ===== src/Replica/Apply.antt =====
-- The merge of one decrypted change into the tables, crates/pergamon-sync/src/apply.rs. The card
-- schedule that is derived from the review logs is a field of `Cards`.
use pergamon.Common.{
  String, Bool, true, false, not, ◌&&◌, Option, none, some, [], ◌∷◌, if◌then◌else◌, string_eq, Eq,
  Result, ok, ◌>>=◌,
}
use pergamon.Common.Maps.{lookup}
use pergamon.Hlc.{Hlc, ◌<?◌, ◌≤?◌}
use pergamon.Event.{
  EntityType, FieldMap, ChangeBody, tag_edge, collection_edge, review_card, review_log, upsert,
  delete, field_patch,
}
use pergamon.Merge.{
  conflict_copy, strategy_for, MergeDecision, keep_local, take_incoming, keep_both, merge_field,
  merge_set_member,
}
use pergamon.Replica.{
  StorageError, Json, Sqlite, Replica, entity_clock, set_entity_clock, set_edge, save_set_edge,
  tombstone, set_tombstone, insert_conflict, text_pair_eq,
}
use pergamon.Replica.Rows.{read_entity_fields, as_text}
use pergamon.Replica.Writes.{is_delete, write_entity_fields, apply_edge_membership}

abbrev pub is_prose : EntityType → String → Bool
is_prose entity_type field = elim (strategy_for entity_type field) [
  | conflict_copy ↦ true
  | _ ↦ false
]

-- Recomputing the schedule of a card from its logs, and the card that a stored log belongs to.
pub record Cards (V : Type 0) : Type 0 where
  pub recompute_review_card : String → Replica V → Result StorageError (Replica V)
  pub review_log_card_id : String → Replica V → Result StorageError (Option String)

abbrev pub Outcome : Type 0 → Type 0
Outcome V = Result StorageError (Replica V)

module _ {V : Type 0} (json : Json V) where
  as_flag : Option V → Option Bool
  as_flag none = none
  as_flag (some v) = json.as_bool v

  -- `get("present").and_then(Value::as_bool).unwrap_or(..)`
  pub is_add : FieldMap V → Bool → Bool
  unfolding as_flag
  is_add fields other = elim (as_flag (lookup "present" fields)) [ none ↦ other | some flag ↦ flag ]

-- `observed.is_some_and(|base| &clock <= base)`
abbrev pub observed_by : Option Hlc → Hlc → Bool
observed_by none clock = false
observed_by (some base) clock = clock ≤? base

module _ {V : Type 0} where
  -- One field of the loop of `preserve_unobserved_prose`.
  unfoldable pub preserve_field : ChangeBody V → String → V → Replica V → Replica V
  preserve_field body field value r = elim (entity_clock body.entity_type body.entity_id field r) [
    | none ↦ r
    | some clock ↦
        if is_prose body.entity_type field && not (observed_by body.base_version clock)
        then insert_conflict body.entity_type body.entity_id field value clock r
        else r
  ]

  unfoldable pub preserve_loop : ChangeBody V → FieldMap V → Replica V → Replica V
  unfolding preserve_field
  preserve_loop body [] r = r
  preserve_loop body ((field, value) ∷ fields) r =
      preserve_loop body fields (preserve_field body field value r)

  -- No field but authored prose has a clock past that of the delete.
  unfoldable pub dominated_loop : ChangeBody V → FieldMap V → Replica V → Bool
  dominated_loop body [] r = true
  dominated_loop body ((field, value) ∷ fields) r =
      let rest = dominated_loop body fields r in
      if is_prose body.entity_type field
      then rest
      else elim (entity_clock body.entity_type body.entity_id field r) [
        | none ↦ rest
        | some clock ↦ if body.clock <? clock then false else rest
      ]

  -- The held value with its clock, where the row and the clock are both there.
  pub held : Option (FieldMap V) → String → Option Hlc → Option (V × Hlc)
  held none field clock = none
  held (some fields) field none = none
  held (some fields) field (some clock) = elim (lookup field fields) [
    | none ↦ none
    | some value ↦ some (value, clock)
  ]

module _ {V : Type 0} ⦃e : Eq V⦄ (json : Json V) (sql : Sqlite V) (cards : Cards V) where
  unfoldable pub apply_edge : ChangeBody V → Replica V → Outcome V
  apply_edge body r =
      let local = set_edge body.entity_type body.entity_id r in
      let outcome =
        merge_set_member local (is_add json body.fields (not (is_delete body.op))) body.clock in
      apply_edge_membership json sql body.entity_type body.entity_id outcome.present
        (save_set_edge body.entity_type body.entity_id outcome.member r)

  unfoldable pub preserve_unobserved_prose : ChangeBody V → Replica V → Replica V
  preserve_unobserved_prose body r =
      elim (read_entity_fields sql body.entity_type body.entity_id r.rows) [
        | none ↦ r
        | some fields ↦ preserve_loop body fields r
      ]

  unfoldable pub max_field_clock_dominated : ChangeBody V → Replica V → Bool
  max_field_clock_dominated body r =
      elim (read_entity_fields sql body.entity_type body.entity_id r.rows) [
        | none ↦ true
        | some fields ↦ dominated_loop body fields r
      ]

  -- The row goes where the delete dominates it.
  unfoldable pub remove_dominated : ChangeBody V → Replica V → Outcome V
  unfolding max_field_clock_dominated
  remove_dominated body r =
      if max_field_clock_dominated body r
      then write_entity_fields json sql body.entity_type body.entity_id [] delete r
      else ok r

  unfoldable pub apply_delete : ChangeBody V → Replica V → Outcome V
  unfolding preserve_unobserved_prose remove_dominated
  apply_delete body r =
      remove_dominated body (
        preserve_unobserved_prose body (set_tombstone body.entity_type body.entity_id body.clock r))

  unfoldable pub apply_review_log : ChangeBody V → Replica V → Outcome V
  apply_review_log body r =
      write_entity_fields json sql body.entity_type body.entity_id body.fields upsert r >>= λ r'.
      elim (as_text json (lookup "card_id" body.fields)) [
        | some card ↦ cards.recompute_review_card card r'
        | none ↦ cards.review_log_card_id body.entity_id r' >>= λ found. elim found [
          | none ↦ ok r'
          | some card ↦ cards.recompute_review_card card r'
        ]
      ]

  unfoldable pub apply_review_card : ChangeBody V → Replica V → Outcome V
  apply_review_card body r =
      write_entity_fields json sql body.entity_type body.entity_id body.fields upsert r
      >>= cards.recompute_review_card body.entity_id

  unfoldable pub write_one_field : ChangeBody V → String → V → Replica V → Outcome V
  write_one_field body field value =
      write_entity_fields json sql body.entity_type body.entity_id ((field, value) ∷ []) field_patch

  -- What the decision on a field does to the tables.
  unfoldable pub settle_field : ChangeBody V → String → V → MergeDecision V → Replica V → Outcome V
  settle_field body field value keep_local r = ok r
  settle_field body field value take_incoming r = write_one_field body field value r >>= λ r'.
      ok (set_entity_clock body.entity_type body.entity_id field body.clock r')
  settle_field body field value (keep_both winner winner_clock loser loser_clock) r =
      write_one_field body field winner r >>= λ r'. ok (
        insert_conflict body.entity_type body.entity_id field loser loser_clock
          (set_entity_clock body.entity_type body.entity_id field winner_clock r'))

  unfoldable pub merge_one : ChangeBody V → Option (FieldMap V) → String → V → Replica V → Outcome V
  merge_one body local_fields field value r =
      settle_field body field value
        (merge_field (strategy_for body.entity_type field) (record {
          stored = held local_fields field (entity_clock body.entity_type body.entity_id field r);
          incoming_value = value;
          incoming_clock = body.clock;
          base_version = body.base_version;
        }))
        r

  -- One field of the loop of `apply_fields`, with the tombstone and the row read before the loop.
  unfoldable pub apply_field :
      ChangeBody V → Option Hlc → Option (FieldMap V) → String → V → Replica V → Outcome V
  apply_field body none local_fields field value r = merge_one body local_fields field value r
  apply_field body (some dead) local_fields field value r =
      if is_prose body.entity_type field
      then ok (insert_conflict body.entity_type body.entity_id field value body.clock r)
      else if body.clock <? dead
      then ok r
      else merge_one body local_fields field value r

  unfoldable pub fields_loop :
      ChangeBody V → Option Hlc → Option (FieldMap V) → FieldMap V → Replica V → Outcome V
  fields_loop body dead local_fields [] r = ok r
  fields_loop body dead local_fields ((field, value) ∷ fields) r =
      apply_field body dead local_fields field value r >>= fields_loop body dead local_fields fields

  -- The brand-new row, where neither the entity nor its tombstone is there.
  unfoldable pub materialize :
      ChangeBody V → Option Hlc → Option (FieldMap V) → Replica V → Outcome V
  materialize body none none r =
      write_entity_fields json sql body.entity_type body.entity_id body.fields upsert r
  materialize body _ _ r = ok r

  unfoldable pub apply_fields : ChangeBody V → Replica V → Outcome V
  unfolding materialize
  apply_fields body r =
      let dead = tombstone body.entity_type body.entity_id r in
      let local_fields = read_entity_fields sql body.entity_type body.entity_id r.rows in
      materialize body dead local_fields r >>= fields_loop body dead local_fields body.fields

  apply_entity : EntityType → ChangeBody V → Replica V → Outcome V
  unfolding apply_review_log apply_review_card apply_fields
  apply_entity review_log body r = apply_review_log body r
  apply_entity review_card body r = apply_review_card body r
  apply_entity _ body r = apply_fields body r

  -- The `match` of `apply_change`.
  unfoldable pub dispatch : EntityType → ChangeBody V → Replica V → Outcome V
  unfolding apply_entity
  dispatch tag_edge body r = apply_edge body r
  dispatch collection_edge body r = apply_edge body r
  dispatch other body r =
      if is_delete body.op then apply_delete body r else apply_entity other body r

  unfoldable pub apply_change : ChangeBody V → Replica V → Outcome V
  unfolding apply_edge apply_delete dispatch
  apply_change body r = dispatch body.entity_type body r
