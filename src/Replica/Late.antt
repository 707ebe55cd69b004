-- ===== src/Replica/Late.antt =====
-- Edits that arrive for an entity that is deleted here, under `apply_fields` of
-- crates/pergamon-sync/src/apply.rs.
use mathlib.Core.List.{Memᴰ}
use pergamon.Common.{
  String, true, Option, some, [], ◌∷◌, ◌≡◌, refl, sym, ap, ◌∙◌, subst, inl, inr, All, Eq, Result,
  ok, ok-injective, Bool-cases, Option-cases, >>=-eq-ok,
}
use pergamon.Hlc.{Hlc, ◌<?◌}
use pergamon.Event.{FieldMap, ChangeBody, field_patch}
use pergamon.Merge.{MergeDecision, keep_local, take_incoming, keep_both}
use pergamon.Replica.{
  StorageError, Json, Sqlite, Replica, Conflict, set_entity_clock, tombstone, insert_conflict,
}
use pergamon.Replica.Rows.{read_entity_fields}
use pergamon.Replica.Writes.{upsert-rows_only}
use pergamon.Replica.Apply.{
  Cards, is_prose, write_one_field, settle_field, merge_one, apply_field, fields_loop, apply_fields,
  materialize,
}
use pergamon.Replica.Inbox.{inboxed}

module _ {V : Type 0} ⦃e : Eq V⦄ (json : Json V) (sql : Sqlite V) (cards : Cards V) where
  abbrev Grows : Replica V → Replica V → Type 0
  Grows r r' = (c : Conflict V) → Memᴰ c r.conflicts → Memᴰ c r'.conflicts

  abbrev grows_ok :
      {r r' : Replica V} → ◌≡◌ {A = Result StorageError (Replica V)} (ok r) (ok r') → Grows r r'
  grows_ok {r} h = subst (Grows r) (ok-injective h) (λ c m. m)

  write_one-grows :
      (body : ChangeBody V) (field : String) (value : V) (r r' : Replica V)
      → write_one_field json sql cards body field value r ≡ ok r'
      → Grows r r'
  unfolding write_one_field
  write_one-grows body field value r r' h c m =
      subst (Memᴰ c)
        (sym (
          ap (λ (s : Replica V). s.conflicts)
            (upsert-rows_only json sql body.entity_type body.entity_id ((field, value) ∷ [])
              field_patch r r' refl h)))
        m

  settle-grows :
      (body : ChangeBody V) (field : String) (value : V) (d : MergeDecision V) (r r' : Replica V)
      → settle_field json sql cards body field value d r ≡ ok r'
      → Grows r r'
  unfolding settle_field set_entity_clock insert_conflict
  settle-grows body field value keep_local r r' h c m = grows_ok h c m
  settle-grows body field value take_incoming r r' h c m =
      let (r1, w, done) = >>=-eq-ok (write_one_field json sql cards body field value r) _ h in
      subst (λ (s : Replica V). Memᴰ c s.conflicts) (ok-injective done)
        (write_one-grows body field value r r1 w c m)
  settle-grows body field value (keep_both winner wc loser lc) r r' h c m =
      let (r1, w, done) = >>=-eq-ok (write_one_field json sql cards body field winner r) _ h in
      subst (λ (s : Replica V). Memᴰ c s.conflicts) (ok-injective done)
        (Memᴰ.tail (write_one-grows body field winner r r1 w c m))

  module _ (body : ChangeBody V) (dead : Hlc) (local_fields : Option (FieldMap V)) where
    apply_field-grows :
        (field : String) (value : V) (r r' : Replica V)
        → apply_field json sql cards body (some dead) local_fields field value r ≡ ok r'
        → Grows r r'
    unfolding apply_field merge_one insert_conflict
    apply_field-grows field value r r' h = elim (Bool-cases (is_prose body.entity_type field)) [
      | inl p ↦ λ c m.
          subst (λ (s : Replica V). Memᴰ c s.conflicts) (ok-injective (rw (apply_field, p) at h))
            (Memᴰ.tail m)
      | inr p ↦ elim (Bool-cases (body.clock <? dead)) [
        | inl k ↦ grows_ok (rw (apply_field, p, k) at h)
        | inr k ↦ settle-grows body field value _ r r' (rw (apply_field, p, k) at h)
      ]
    ]

    loop-grows :
        (fields : FieldMap V) (r r' : Replica V)
        → fields_loop json sql cards body (some dead) local_fields fields r ≡ ok r'
        → Grows r r'
    unfolding fields_loop
    loop-grows [] r r' h c m = grows_ok h c m
    loop-grows ((field, value) ∷ fields) r r' h c m =
        let (r1, w, rest) =
          >>=-eq-ok (apply_field json sql cards body (some dead) local_fields field value r) _ h in
        loop-grows fields r1 r' rest c (apply_field-grows field value r r1 w c m)

    prose_field-inboxed :
        (field : String) (value : V) (r : Replica V)
        → is_prose body.entity_type field ≡ true
        → apply_field json sql cards body (some dead) local_fields field value r
          ≡ ok (insert_conflict body.entity_type body.entity_id field value body.clock r)
    unfolding apply_field
    prose_field-inboxed field value r p = rw (apply_field, p) refl

    loop-keeps :
        (fields : FieldMap V) (field : String) (value : V) (r r' : Replica V)
        → fields_loop json sql cards body (some dead) local_fields fields r ≡ ok r'
        → Memᴰ (field, value) fields
        → is_prose body.entity_type field ≡ true
        → Memᴰ (inboxed body field value body.clock) r'.conflicts
    unfolding fields_loop insert_conflict
    loop-keeps [] field value r r' h m p = elim m [ ]
    loop-keeps ((f, v) ∷ fields) field value r r' h (Memᴰ.head q) p =
        let (r1, w, rest) =
          >>=-eq-ok (apply_field json sql cards body (some dead) local_fields f v r) _ h in
        let added =
          prose_field-inboxed f v r
            (subst (λ (c : String × V). is_prose body.entity_type c.0 ≡ true) q p) in
        loop-grows fields r1 r' rest _ (
          subst (λ (s : Replica V). Memᴰ (inboxed body field value body.clock) s.conflicts)
            (ok-injective (sym added ∙ w))
            (Memᴰ.head (ap (λ (c : String × V). inboxed body c.0 c.1 body.clock) q)))
    loop-keeps ((f, v) ∷ fields) field value r r' h (Memᴰ.tail m) p =
        let (r1, w, rest) =
          >>=-eq-ok (apply_field json sql cards body (some dead) local_fields f v r) _ h in
        loop-keeps fields field value r1 r' rest m p

    -- With authored fields alone the loop succeeds and touches the inbox only.
    loop-total :
        (fields : FieldMap V) (r : Replica V)
        → All (λ (c : String × V). is_prose body.entity_type c.0 ≡ true) fields
        → (r' : Replica V) × (fields_loop json sql cards body (some dead) local_fields fields r
            ≡ ok r')
          × (r'.rows ≡ r.rows)
          × (r'.clocks ≡ r.clocks)
    unfolding fields_loop insert_conflict
    loop-total [] r h = (r, refl, refl, refl)
    loop-total ((f, v) ∷ fields) r h =
        let (r', done, rows, clocks) =
          loop-total fields (insert_conflict body.entity_type body.entity_id f v body.clock r)
            h.1 in
        (r', rw (fields_loop, prose_field-inboxed f v r h.0) done, rows, clocks)

  apply_fields-dead :
      (body : ChangeBody V) (dead : Hlc) (r : Replica V)
      → tombstone body.entity_type body.entity_id r ≡ some dead
      → apply_fields json sql cards body r
        ≡ fields_loop json sql cards body
            (some dead)
            (read_entity_fields sql body.entity_type body.entity_id r.rows)
            body.fields
            r
  unfolding apply_fields materialize
  apply_fields-dead body dead r d =
      rw (apply_fields, d)
        (elim (Option-cases (read_entity_fields sql body.entity_type body.entity_id r.rows)) [
          | inl k ↦ rw k refl
          | inr (row, k) ↦ rw k refl
        ])

  -- An edit that arrives for an entity with a tombstone: if it is applied, every authored field of
  -- it is in the conflict inbox, with the stamp of the edit; and an edit of authored fields alone
  -- is always applied, and leaves every row and every field clock as they were.
  pub late_prose-inboxed :
      (body : ChangeBody V) (dead : Hlc) (r : Replica V)
      → tombstone body.entity_type body.entity_id r ≡ some dead
      → ((r' : Replica V) (field : String) (value : V)
          → apply_fields json sql cards body r ≡ ok r'
          → Memᴰ (field, value) body.fields
          → is_prose body.entity_type field ≡ true
          → Memᴰ (inboxed body field value body.clock) r'.conflicts)
        × (All (λ (c : String × V). is_prose body.entity_type c.0 ≡ true) body.fields
            → (r' : Replica V) × (apply_fields json sql cards body r ≡ ok r')
              × (r'.rows ≡ r.rows)
              × (r'.clocks ≡ r.clocks))
  late_prose-inboxed body dead r d =
      let local_fields = read_entity_fields sql body.entity_type body.entity_id r.rows in
      let loop = apply_fields-dead body dead r d in
      (
        λ r' field value h.
            loop-keeps body dead local_fields body.fields field value r r' (sym loop ∙ h),
        λ h.
            let (r', done, rows, clocks) = loop-total body dead local_fields body.fields r h in
            (r', loop ∙ done, rows, clocks),
      )
