-- ===== src/Replica/Edges.antt =====
-- Many membership changes under `apply_change` of crates/pergamon-sync/src/apply.rs: the
-- observed-remove state of every edge, and the row of the join table.
use mathlib.Core.List.{foldl, Perm}
use pergamon.Common.{
  ◌≤◌, String, Bool, true, false, Option, none, some, List, [], ◌∷◌, ◌≡◌, ◌⊎◌, refl, sym, ap, ◌∙◌,
  subst, inl, inr, arith, not, All, Eq, ok, ◌>>=◌, Bool-cases, if◌then◌else◌,
}
use pergamon.Common.Tables.{get_row, row_or-put_row}
use pergamon.Common.Folds.{Commutes, foldl-perm}
use pergamon.Hlc.{Hlc}
use pergamon.Event.{EntityType, ChangeBody, tag_edge, collection_edge}
use pergamon.Merge.{SetMember, no_member, fold_slot, merge_set_member}
use pergamon.Merge.Member.{merge_edge, merge_edge_comm, merge_edge-slots, SetMember-set}
use pergamon.Merge.Member.Slots.{EdgeChange, fold_slot-cases}
use pergamon.Replica.{
  Json, Sqlite, Rows, Replica, set_edge, save_set_edge, stored_clock, stored_option, i64_max,
  entity_key_eq, EntityKey,
}
use pergamon.Replica.Writes.{is_delete, HasParents, apply_edge_membership-JoinsOnly}
use pergamon.Replica.Apply.{Cards, Outcome, is_add, apply_edge, dispatch, apply_change}

abbrev pub IsEdge : EntityType → Type 0
IsEdge t = (t ≡ tag_edge) ⊎ (t ≡ collection_edge)

-- The wall time of a stamp fits the column that keeps it.
abbrev pub IsStorable : Hlc → Type 0
IsStorable c = c.wall_millis ≤ i64_max

stored_clock-id : (c : Hlc) → IsStorable c → stored_clock c ≡ c
stored_clock-id c h = ap (λ w. record c { wall_millis = w }) (omega arith)

abbrev stored_member : SetMember → SetMember
stored_member m = record {
  add_clock = stored_option m.add_clock;
  remove_clock = stored_option m.remove_clock;
}

-- Both slots of the member come back from the table as they are.
abbrev pub Fits : SetMember → Type 0
Fits m = (stored_option m.add_clock ≡ m.add_clock) × (stored_option m.remove_clock ≡ m.remove_clock)

fold_slot-stored :
    (slot : Option Hlc) (c : Hlc)
    → IsStorable c
    → stored_option slot ≡ slot
    → stored_option (fold_slot slot c) ≡ fold_slot slot c
fold_slot-stored slot c h k = elim (fold_slot-cases slot c) [
  | inl e ↦ rw e k
  | inr e ↦ rw e (ap some (stored_clock-id c h))
]

merge_edge-Fits :
    (m : SetMember) (add : Bool) (c : Hlc) → IsStorable c → Fits m → Fits (merge_edge m (add, c))
merge_edge-Fits m true c h k =
    rw (merge_edge-slots m true c) (fold_slot-stored m.add_clock c h k.0, k.1)
merge_edge-Fits m false c h k =
    rw (merge_edge-slots m false c) (k.0, fold_slot-stored m.remove_clock c h k.1)

stored_member-id : (m : SetMember) → Fits m → stored_member m ≡ m
stored_member-id m h = λ i. record { add_clock = h.0 i; remove_clock = h.1 i }

module _ {V : Type 0} (json : Json V) where
  -- The add or remove that the body of a change asks for.
  abbrev pub edge_change : ChangeBody V → EdgeChange
  edge_change body = (is_add json body.fields (not (is_delete body.op)), body.clock)

  -- What a change does to the member of one edge.
  unfoldable touch : EntityType → String → SetMember → ChangeBody V → SetMember
  touch t id m body =
      if entity_key_eq.beq (body.entity_type, body.entity_id) (t, id)
      then merge_edge m (edge_change body)
      else m

  touch_comm : (t : EntityType) (id : String) → Commutes (touch t id)
  unfolding touch
  touch_comm t id m a b =
      elim (Bool-cases (entity_key_eq.beq (a.entity_type, a.entity_id) (t, id))) [
        | inl e ↦ elim (Bool-cases (entity_key_eq.beq (b.entity_type, b.entity_id) (t, id))) [
          | inl k ↦ rw (touch, e, k) (merge_edge_comm m (edge_change a) (edge_change b))
          | inr k ↦ rw (touch, e, k) refl
        ]
        | inr e ↦ rw (touch, e) refl
      ]

module _ {V : Type 0} where
  set_edge-save :
      (t t' : EntityType) (id id' : String) (m : SetMember) (r : Replica V)
      → set_edge t id (save_set_edge t' id' m r)
        ≡ (if entity_key_eq.beq (t', id') (t, id) then stored_member m else set_edge t id r)
  unfolding set_edge save_set_edge
  set_edge-save t t' id id' m r =
      row_or-put_row (t, id) (t', id') no_member (stored_member m) r.set_edges

  set_edge-same :
      (t : EntityType) (id : String) (r r' : Replica V)
      → r'.set_edges ≡ r.set_edges
      → set_edge t id r' ≡ set_edge t id r
  unfolding set_edge
  set_edge-same t id r r' h = λ i. elim (get_row (t, id) (h i)) [ none ↦ no_member | some m ↦ m ]

module _ {V : Type 0} ⦃e : Eq V⦄ (json : Json V) (sql : Sqlite V) (cards : Cards V) where
  -- What every change of the sequence is: an add or remove of an edge with a stamp that can be
  -- stored, both of whose ends have their rows.
  pub record IsEdgeChange (rows : Rows V) (body : ChangeBody V) : Type 0 where
    pub edge : IsEdge body.entity_type
    pub storable : IsStorable body.clock
    pub parents : HasParents json sql rows body.entity_type body.entity_id

  -- Every member in the table comes back as it was stored.
  abbrev pub HoldsFits : Replica V → Type 0
  HoldsFits r = (t : EntityType) (id : String) → Fits (set_edge t id r)

  at_edge :
      (body : ChangeBody V) (r : Replica V) (t : EntityType)
      → t ≡ body.entity_type
      → dispatch json sql cards t body r ≡ apply_edge json sql cards body r
      → dispatch json sql cards body.entity_type body r ≡ apply_edge json sql cards body r
  at_edge body r t k h =
      subst (λ t'. dispatch json sql cards t' body r ≡ apply_edge json sql cards body r) k h

  apply_change-edge :
      (body : ChangeBody V) (r : Replica V)
      → IsEdge body.entity_type
      → apply_change json sql cards body r ≡ apply_edge json sql cards body r
  unfolding apply_change dispatch
  apply_change-edge body r (inl k) = at_edge body r tag_edge (sym k) refl
  apply_change-edge body r (inr k) = at_edge body r collection_edge (sym k) refl

  touch-Fits :
      (t : EntityType) (id : String) (m : SetMember) (body : ChangeBody V)
      → IsStorable body.clock
      → Fits m
      → Fits (touch json t id m body)
  unfolding touch
  touch-Fits t id m body h k =
      elim (Bool-cases (entity_key_eq.beq (body.entity_type, body.entity_id) (t, id))) [
        | inl p ↦ rw (touch, p) (merge_edge-Fits m (edge_change json body).0 body.clock h k)
        | inr p ↦ rw (touch, p) k
      ]

  -- What the table then holds of any edge.
  stored-touch :
      (body : ChangeBody V) (r : Replica V)
      → IsStorable body.clock
      → HoldsFits r
      → (t : EntityType) (id : String)
      → (if entity_key_eq.beq (body.entity_type, body.entity_id) (t, id)
          then stored_member
              (merge_edge (set_edge body.entity_type body.entity_id r) (edge_change json body))
          else set_edge t id r)
        ≡ touch json t id (set_edge t id r) body
  unfolding touch
  stored-touch body r h fits t id =
      elim (Bool-cases (entity_key_eq.beq (body.entity_type, body.entity_id) (t, id))) [
        | inl p ↦
            rw (touch, p)
              (stored_member-id _ (
                  merge_edge-Fits _ (edge_change json body).0 body.clock h
                    (fits body.entity_type body.entity_id))
                ∙ ap (λ (k : EntityKey). merge_edge (set_edge k.0 k.1 r) (edge_change json body))
                    ((entity_key_eq.beq_iff _ _).0 p))
        | inr p ↦ rw (touch, p) refl
      ]

  -- One change succeeds and does to every member what `touch` says.
  apply_change-touch :
      (body : ChangeBody V) (r : Replica V)
      → IsEdgeChange r.rows body
      → HoldsFits r
      → (r' : Replica V) × (apply_change json sql cards body r ≡ ok r')
        × ((t : EntityType) (id : String)
            → set_edge t id r' ≡ touch json t id (set_edge t id r) body)
        × (r'.rows ≡ r.rows)
  unfolding apply_edge save_set_edge merge_edge
  apply_change-touch body r c fits =
      let t = body.entity_type in
      let id = body.entity_id in
      let outcome = merge_set_member (set_edge t id r) (edge_change json body).0 body.clock in
      let saved = save_set_edge t id outcome.member r in
      let (r', done, edges, rows) =
        apply_edge_membership-JoinsOnly json sql t id outcome.present saved c.parents in
      (
        r',
        apply_change-edge body r c.edge ∙ done,
        λ t' id'.
            set_edge-same t' id' saved r' edges
            ∙ set_edge-save t' t id' id outcome.member r
            ∙ stored-touch body r c.storable fits t' id',
        rows,
      )

  -- The changes of a pulled sequence, one after the other.
  unfoldable pub apply_all : List (ChangeBody V) → Replica V → Outcome V
  apply_all [] r = ok r
  apply_all (body ∷ bodies) r = apply_change json sql cards body r >>= apply_all bodies

  apply_all-touch :
      (bodies : List (ChangeBody V)) (r : Replica V)
      → All (IsEdgeChange r.rows) bodies
      → HoldsFits r
      → (r' : Replica V) × (apply_all bodies r ≡ ok r')
        × ((t : EntityType) (id : String)
            → set_edge t id r' ≡ foldl (touch json t id) (set_edge t id r) bodies)
  unfolding apply_all
  apply_all-touch [] r c fits = (r, refl, λ t id. refl)
  apply_all-touch (body ∷ bodies) r c fits =
      let (r1, done, edges, rows) = apply_change-touch body r c.0 fits in
      let fits1 : HoldsFits r1 = λ t id.
        subst Fits (sym (edges t id))
          (touch-Fits t id (set_edge t id r) body c.0.storable (fits t id)) in
      let (r', rest, members) =
        apply_all-touch bodies r1 (subst (λ rows. All (IsEdgeChange rows) bodies) (sym rows) c.1)
          fits1 in
      (
        r',
        rw done rest,
        λ t id. members t id ∙ ap (λ m. foldl (touch json t id) m bodies) (edges t id),
      )

  -- Two devices that hold the same replica and receive the same adds and removes of edges, each in
  -- its own order, both apply them all, and agree on the add and remove clocks of every edge. Each
  -- change has a stamp that the column can keep and an edge id with two halves whose rows exist,
  -- and the members that are stored come back as they are.
  pub edges_converge :
      (bodies others : List (ChangeBody V)) (r : Replica V)
      → Perm bodies others
      → All (IsEdgeChange r.rows) bodies
      → All (IsEdgeChange r.rows) others
      → HoldsFits r
      → (s s' : Replica V) × (apply_all bodies r ≡ ok s)
        × (apply_all others r ≡ ok s')
        × ((t : EntityType) (id : String) → set_edge t id s ≡ set_edge t id s')
  edges_converge bodies others r p c c' fits =
      let (s, done, members) = apply_all-touch bodies r c fits in
      let (s', done', members') = apply_all-touch others r c' fits in
      (
        s,
        s',
        done,
        done',
        λ t id.
            members t id
            ∙ foldl-perm (touch json t id) SetMember-set (touch_comm json t id) p (set_edge t id r)
            ∙ sym (members' t id),
      )
