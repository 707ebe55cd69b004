-- ===== src/Replica/Observed.antt =====
-- A delete says what its writer had seen: it hides no authored text from a device in the same state.
use pergamon.Common.{
  String, ◌≡◌, refl, sym, ap, ◌∙◌, subst, true, Bool-cases, Option-cases, ℕ, ◌++◌, Option, none,
  some, inl, inr, List, [], ◌∷◌, All, Eq, Result, ok,
}
use pergamon.Hlc.{Hlc, ◌≤?◌}
use pergamon.Hlc.Facts.{flip, lt→le, le_refl, le_trans}
use pergamon.Event.{EntityType, FieldMap, BlobManifestEntry, ChangeBody, delete}
use pergamon.Outbox.{OutboxRow}
use pergamon.Relay.{Bytes}
use pergamon.Replica.{StorageError, Json, Sqlite, Replica, entity_clock, set_tombstone}
use pergamon.Replica.Rows.{read_entity_fields}
use pergamon.Replica.Apply.{
  Cards, is_prose, observed_by, preserve_field, preserve_loop, preserve_unobserved_prose,
  apply_delete,
}
use pergamon.Replica.Emission.Enqueued.{emit_change-row}
use pergamon.Replica.Inbox.{remove_dominated-total}
use pergamon.Replica.Emission.{
  later_of, raise, observed_loop, observed_prose_version, emitted_body, LocalStore, emit_change,
}

later_of-keeps :
    (max : Option Hlc) (clock c : Hlc)
    → observed_by max c ≡ true
    → observed_by (later_of max clock) c ≡ true
later_of-keeps none clock c h = cc
later_of-keeps (some current) clock c h = elim (Bool-cases (clock ≤? current)) [
  | inl p ↦ rw p h
  | inr p ↦ rw p (le_trans c current clock h (lt→le current clock (flip clock current p)))
]

later_of-observes : (max : Option Hlc) (c : Hlc) → observed_by (later_of max c) c ≡ true
later_of-observes none c = le_refl c
later_of-observes (some current) c = elim (Bool-cases (c ≤? current)) [
  | inl p ↦ rw p p
  | inr p ↦ rw p (le_refl c)
]

module _ {V : Type 0} (t : EntityType) (id : String) (r : Replica V) where
  raise-keeps :
      (field : String) (max : Option Hlc) (c : Hlc)
      → observed_by max c ≡ true
      → observed_by (raise t id field max r) c ≡ true
  unfolding raise
  raise-keeps field max c h = elim (Bool-cases (is_prose t field)) [
    | inl p ↦ elim (Option-cases (entity_clock t id field r)) [
      | inl k ↦ rw (raise, p, k) h
      | inr (clock, k) ↦ rw (raise, p, k) (later_of-keeps max clock c h)
    ]
    | inr p ↦ rw (raise, p) h
  ]

  loop-keeps :
      (fields : FieldMap V) (max : Option Hlc) (c : Hlc)
      → observed_by max c ≡ true
      → observed_by (observed_loop t id fields max r) c ≡ true
  unfolding observed_loop
  loop-keeps [] max c h = h
  loop-keeps ((field, _) ∷ fields) max c h =
      loop-keeps fields (raise t id field max r) c (raise-keeps field max c h)

  -- The version is no earlier than the clock of an authored field.
  abbrev Seen : Option Hlc → String × V → Type 0
  Seen max cell =
      (c : Hlc)
      → is_prose t cell.0 ≡ true
      → entity_clock t id cell.0 r ≡ some c
      → observed_by max c ≡ true

  observed_loop-Seen :
      (fields : FieldMap V) (max : Option Hlc) → All (Seen (observed_loop t id fields max r)) fields
  unfolding observed_loop raise
  observed_loop-Seen [] max = tt
  observed_loop-Seen ((field, v) ∷ fields) max = (
    λ c p k.
        loop-keeps fields (raise t id field max r) c (rw (raise, p, k) (later_of-observes max c)),
    observed_loop-Seen fields (raise t id field max r),
  )

-- The version depends on the rows and the clocks alone.
module _ {V : Type 0} (t : EntityType) (id : String) (r s : Replica V)
    (same_clocks : r.clocks ≡ s.clocks) where
  raise-same : (field : String) (max : Option Hlc) → raise t id field max r ≡ raise t id field max s
  unfolding raise entity_clock
  raise-same field max = rw (raise, entity_clock, same_clocks) refl

  observed_loop-same :
      (fields : FieldMap V) (max : Option Hlc)
      → observed_loop t id fields max r ≡ observed_loop t id fields max s
  unfolding observed_loop
  observed_loop-same [] max = refl
  observed_loop-same ((field, _) ∷ fields) max =
      ap (λ m. observed_loop t id fields m r) (raise-same field max)
      ∙ observed_loop-same fields (raise t id field max s)

  observed_prose_version-same :
      (json : Json V) (sql : Sqlite V)
      → r.rows ≡ s.rows
      → observed_prose_version json sql t id r ≡ observed_prose_version json sql t id s
  unfolding observed_prose_version
  observed_prose_version-same json sql rows =
      elim (Option-cases (read_entity_fields sql t id s.rows)) [
        | inl k ↦ rw (observed_prose_version, rows, k) refl
        | inr (fields, k) ↦ rw (observed_prose_version, rows, k) (observed_loop-same fields none)
      ]

module _ {V : Type 0} (body : ChangeBody V) (r : Replica V) where
  abbrev SeenOf : String × V → Type 0
  SeenOf = Seen body.entity_type body.entity_id r body.base_version

  preserve_field-seen : (cell : String × V) → SeenOf cell → preserve_field body cell.0 cell.1 r ≡ r
  unfolding preserve_field
  preserve_field-seen (field, value) h =
      elim (Option-cases (entity_clock body.entity_type body.entity_id field r)) [
        | inl k ↦ rw (preserve_field, k)
        | inr (clock, k) ↦ elim (Bool-cases (is_prose body.entity_type field)) [
          | inl p ↦ rw (preserve_field, k, p, h clock p k)
          | inr p ↦ rw (preserve_field, k, p)
        ]
      ]

  preserve_loop-seen : (fields : FieldMap V) → All SeenOf fields → preserve_loop body fields r ≡ r
  unfolding preserve_loop
  preserve_loop-seen [] h = refl
  preserve_loop-seen (cell ∷ fields) h =
      ap (preserve_loop body fields) (preserve_field-seen cell h.0) ∙ preserve_loop-seen fields h.1

module _ {V : Type 0} ⦃e : Eq V⦄ (json : Json V) (sql : Sqlite V) (cards : Cards V) where
  preserve-seen :
      (body : ChangeBody V) (r : Replica V)
      → body.base_version ≡ observed_prose_version json sql body.entity_type body.entity_id r
      → preserve_unobserved_prose json sql cards body r ≡ r
  unfolding preserve_unobserved_prose observed_prose_version
  preserve-seen body r h =
      elim (Option-cases (read_entity_fields sql body.entity_type body.entity_id r.rows)) [
        | inl k ↦ rw (preserve_unobserved_prose, k)
        | inr (fields, k) ↦
            rw (preserve_unobserved_prose, k)
              (preserve_loop-seen body r fields (
                subst (λ v. All (Seen body.entity_type body.entity_id r v) fields)
                  (sym (h ∙ rw (observed_prose_version, k) refl))
                  (observed_loop-Seen body.entity_type body.entity_id r fields none)))
      ]

  delete-hides_nothing :
      (body : ChangeBody V) (home r : Replica V)
      → body.base_version ≡ observed_prose_version json sql body.entity_type body.entity_id home
      → r.rows ≡ home.rows
      → r.clocks ≡ home.clocks
      → (r' : Replica V) × (apply_delete json sql cards body r ≡ ok r')
        × (r'.conflicts ≡ r.conflicts)
  unfolding apply_delete set_tombstone
  delete-hides_nothing body home r seen rows clocks =
      let t = body.entity_type in
      let id = body.entity_id in
      let marked = set_tombstone t id body.clock r in
      let (r', done, inbox, _) = remove_dominated-total json sql cards body marked in
      let quiet : preserve_unobserved_prose json sql cards body marked ≡ marked =
        preserve-seen body marked
          (seen ∙ sym (observed_prose_version-same t id marked home clocks json sql rows)) in
      (r', rw (apply_delete, quiet) done, inbox)

  -- A delete that a device with an identity emits is enqueued in the outbox, as the bytes of a
  -- change that hides nothing: applied on any device with the rows and the field clocks that the
  -- emitter had, it succeeds and puts no authored text into the conflict inbox.
  pub emit_delete-hides_nothing :
      (to_bytes : ChangeBody V → Result StorageError Bytes) (change_id device id : String)
      → (t : EntityType) (fields : FieldMap V) (blobs : List BlobManifestEntry) (now : ℕ)
      → (d d' : LocalStore V) (sent : Option String) → d.state.device_id ≡ some device
      → emit_change json sql to_bytes change_id t id delete fields blobs now d ≡ ok (d', sent)
      → (body : ChangeBody V) × (row : OutboxRow) × (d'.outbox ≡ d.outbox ++ (row ∷ []))
        × (to_bytes body ≡ ok row.body)
        × ((r : Replica V)
            → r.rows ≡ d.replica.rows
            → r.clocks ≡ d.replica.clocks
            → (r' : Replica V) × (apply_delete json sql cards body r ≡ ok r')
              × (r'.conflicts ≡ r.conflicts))
  unfolding emit_change emitted_body
  emit_delete-hides_nothing to_bytes change_id device id t fields blobs now d d' sent dev h =
      let (clock, row, last, encoded) =
        emit_change-row json sql to_bytes change_id t id delete fields blobs now d d' sent device
          dev h in
      let body = emitted_body json sql t id delete fields blobs clock d.replica in
      (body, row, last, encoded, λ r. delete-hides_nothing body d.replica r refl)
