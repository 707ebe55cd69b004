-- ===== src/Replica/Inbox.antt =====
-- The conflict inbox under the deletes and the late edits of crates/pergamon-sync/src/apply.rs.
use mathlib.Core.List.{Memᴰ}
use pergamon.Common.{
  String, true, false, not, ◌&&◌, some, [], ◌∷◌, ◌≡◌, refl, sym, ap, ◌∙◌, subst, inl, inr, Eq, ok,
  Bool-cases, Option-cases,
}
use pergamon.Common.Tables.{get_row, get_row-put_row_same}
use pergamon.Hlc.{Hlc}
use pergamon.Event.{EntityType, FieldMap, ChangeBody}
use pergamon.Replica.{
  Json, Sqlite, Replica, Conflict, entity_clock, tombstone, set_tombstone, insert_conflict,
  stored_clock, clock_key_eq, entity_key_eq,
}
use pergamon.Replica.Rows.{read_entity_fields}
use pergamon.Replica.Writes.{write_entity_fields, delete_entity_row, delete_entity_row-bookkeeping}
use pergamon.Replica.Apply.{
  Cards, is_prose, observed_by, preserve_field, preserve_loop, preserve_unobserved_prose,
  max_field_clock_dominated, remove_dominated, apply_delete,
}

-- What the inbox holds of a version of a field.
abbrev pub inboxed : {V : Type 0} → ChangeBody V → String → V → Hlc → Conflict V
inboxed body field value clock = record {
  entity_type = body.entity_type;
  entity_id = body.entity_id;
  field = field;
  loser_value = value;
  loser_clock = stored_clock clock;
}

module _ {V : Type 0} where
  -- Nothing but the inbox changes, and the inbox only grows.
  record OnlyInbox (r r' : Replica V) : Type 0 where
    same_rows : r'.rows ≡ r.rows
    same_clocks : r'.clocks ≡ r.clocks
    same_tombstones : r'.tombstones ≡ r.tombstones
    inbox_grows : (c : Conflict V) → Memᴰ c r.conflicts → Memᴰ c r'.conflicts

  OnlyInbox-refl : (r : Replica V) → OnlyInbox r r
  OnlyInbox-refl r = record {
    same_rows = refl;
    same_clocks = refl;
    same_tombstones = refl;
    inbox_grows = λ c m. m;
  }

  OnlyInbox-insert :
      (r : Replica V) (t : EntityType) (id field : String) (v : V) (c : Hlc)
      → OnlyInbox r (insert_conflict t id field v c r)
  unfolding insert_conflict
  OnlyInbox-insert r t id field v c = record {
    same_rows = refl;
    same_clocks = refl;
    same_tombstones = refl;
    inbox_grows = λ c m. Memᴰ.tail m;
  }

  OnlyInbox-trans : {r s t : Replica V} → OnlyInbox r s → OnlyInbox s t → OnlyInbox r t
  OnlyInbox-trans h k = record {
    same_rows = k.same_rows ∙ h.same_rows;
    same_clocks = k.same_clocks ∙ h.same_clocks;
    same_tombstones = k.same_tombstones ∙ h.same_tombstones;
    inbox_grows = λ c m. k.inbox_grows c (h.inbox_grows c m);
  }

  preserve_field-OnlyInbox :
      (body : ChangeBody V) (field : String) (value : V) (r : Replica V)
      → OnlyInbox r (preserve_field body field value r)
  unfolding preserve_field
  preserve_field-OnlyInbox body field value r =
      elim (Option-cases (entity_clock body.entity_type body.entity_id field r)) [
        | inl e ↦ rw (preserve_field, e) (OnlyInbox-refl r)
        | inr (clock, e) ↦
            rw (preserve_field, e)
              (elim (Bool-cases
                (is_prose body.entity_type field && not (observed_by body.base_version clock))) [
                  | inl k ↦ rw k (OnlyInbox-insert r _ _ _ _ _)
                  | inr k ↦ rw k (OnlyInbox-refl r)
                ])
      ]

  preserve_loop-OnlyInbox :
      (body : ChangeBody V) (fields : FieldMap V) (r : Replica V)
      → OnlyInbox r (preserve_loop body fields r)
  unfolding preserve_loop
  preserve_loop-OnlyInbox body [] r = OnlyInbox-refl r
  preserve_loop-OnlyInbox body ((field, value) ∷ fields) r =
      OnlyInbox-trans (preserve_field-OnlyInbox body field value r)
        (preserve_loop-OnlyInbox body fields (preserve_field body field value r))

  module _ (body : ChangeBody V) (field : String) (value : V) (clock : Hlc) where
    preserve_field-keeps :
        (r : Replica V)
        → is_prose body.entity_type field ≡ true
        → observed_by body.base_version clock ≡ false
        → entity_clock body.entity_type body.entity_id field r ≡ some clock
        → Memᴰ (inboxed body field value clock) (preserve_field body field value r).conflicts
    unfolding preserve_field insert_conflict
    preserve_field-keeps r p o h = rw (preserve_field, h, p, o) (Memᴰ.head refl)

    preserve_loop-keeps :
        (fields : FieldMap V) (r : Replica V)
        → Memᴰ (field, value) fields
        → is_prose body.entity_type field ≡ true
        → observed_by body.base_version clock ≡ false
        → entity_clock body.entity_type body.entity_id field r ≡ some clock
        → Memᴰ (inboxed body field value clock) (preserve_loop body fields r).conflicts
    unfolding preserve_loop entity_clock
    preserve_loop-keeps [] r m p o h = elim m [ ]
    preserve_loop-keeps (cell ∷ fields) r (Memᴰ.head e) p o h =
        (preserve_loop-OnlyInbox body fields (preserve_field body cell.0 cell.1 r)).inbox_grows _ (
          subst
            (λ (c : String × V).
              Memᴰ (inboxed body field value clock) (preserve_field body c.0 c.1 r).conflicts)
            e (preserve_field-keeps r p o h))
    preserve_loop-keeps (cell ∷ fields) r (Memᴰ.tail m) p o h =
        preserve_loop-keeps fields (preserve_field body cell.0 cell.1 r) m p o (
          ap (λ t. get_row (body.entity_type, (body.entity_id, field)) t)
            (preserve_field-OnlyInbox body cell.0 cell.1 r).same_clocks
          ∙ h)

module _ {V : Type 0} ⦃e : Eq V⦄ (json : Json V) (sql : Sqlite V) (cards : Cards V) where
  pub remove_dominated-total :
      (body : ChangeBody V) (r : Replica V)
      → (r' : Replica V) × (remove_dominated json sql cards body r ≡ ok r')
        × (r'.conflicts ≡ r.conflicts)
        × (r'.tombstones ≡ r.tombstones)
  unfolding remove_dominated write_entity_fields
  remove_dominated-total body r =
      elim (Bool-cases (max_field_clock_dominated json sql cards body r)) [
        | inl e ↦ (
          delete_entity_row json sql body.entity_type body.entity_id r,
          rw (remove_dominated, e) refl,
          (delete_entity_row-bookkeeping json sql body.entity_type body.entity_id r).0,
          (delete_entity_row-bookkeeping json sql body.entity_type body.entity_id r).1,
        )
        | inr e ↦ (r, rw (remove_dominated, e) refl, refl, refl)
      ]

  -- The text that the row of an entity holds in an authored field with a clock.
  pub record HeldProse (body : ChangeBody V) (r : Replica V) (field : String) (value : V)
      (clock : Hlc) : Type 0 where
    pub fields : FieldMap V
    pub row : read_entity_fields sql body.entity_type body.entity_id r.rows ≡ some fields
    pub cell : Memᴰ (field, value) fields
    pub prose : is_prose body.entity_type field ≡ true
    pub stamped : entity_clock body.entity_type body.entity_id field r ≡ some clock

  preserve-kept :
      (body : ChangeBody V) (r : Replica V) (field : String) (value : V) (clock : Hlc)
      → HeldProse body r field value clock
      → observed_by body.base_version clock ≡ false
      → Memᴰ
          (inboxed body field value clock)
          (preserve_unobserved_prose json sql cards body r).conflicts
  unfolding preserve_unobserved_prose
  preserve-kept body r field value clock h o =
      rw (preserve_unobserved_prose, h.row)
        (preserve_loop-keeps body field value clock h.fields r h.cell h.prose o h.stamped)

  preserve-tombstones :
      (body : ChangeBody V) (r : Replica V)
      → (preserve_unobserved_prose json sql cards body r).tombstones ≡ r.tombstones
  unfolding preserve_unobserved_prose
  preserve-tombstones body r =
      elim (Option-cases (read_entity_fields sql body.entity_type body.entity_id r.rows)) [
        | inl k ↦ rw (preserve_unobserved_prose, k) refl
        | inr (fields, k) ↦
            rw (preserve_unobserved_prose, k)
              (preserve_loop-OnlyInbox body fields r).same_tombstones
      ]

  -- A delete succeeds, whether or not the entity has a row, and its stamp is the tombstone then,
  -- also where the one before was later. Every authored text with a clock that the row of this
  -- entity holds in a version which the deleting device had not observed is in the conflict inbox
  -- afterwards, with its clock, whether or not the row goes; rows that go along by ON DELETE CASCADE
  -- are not looked at.
  pub apply_delete-keeps_prose :
      (body : ChangeBody V) (r : Replica V)
      → (r' : Replica V) × (apply_delete json sql cards body r ≡ ok r')
        × (tombstone body.entity_type body.entity_id r' ≡ some (stored_clock body.clock))
        × ((field : String) (value : V) (clock : Hlc)
            → HeldProse body r field value clock
            → observed_by body.base_version clock ≡ false
            → Memᴰ (inboxed body field value clock) r'.conflicts)
  unfolding apply_delete tombstone set_tombstone entity_clock
  apply_delete-keeps_prose body r =
      let marked = set_tombstone body.entity_type body.entity_id body.clock r in
      let kept = preserve_unobserved_prose json sql cards body marked in
      let (r', done, inbox, dead) = remove_dominated-total body kept in
      (
        r',
        done,
        ap (get_row (body.entity_type, body.entity_id)) (dead ∙ preserve-tombstones body marked)
            ∙ get_row-put_row_same (body.entity_type, body.entity_id) (stored_clock body.clock)
                r.tombstones,
        λ field value clock h o. subst (Memᴰ (inboxed body field value clock)) (sym inbox) (
            preserve-kept body marked field value clock
              (record {
                fields = h.fields;
                row = h.row;
                cell = h.cell;
                prose = h.prose;
                stamped = h.stamped;
              })
              o),
      )
