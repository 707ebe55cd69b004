-- ===== src/Engine/Pull/Settled.antt =====
-- The events of a page that a device is done with.
use pergamon.Common.{
  suc, String, ◌≡◌, refl, sym, ap, ◌∙◌, ◌⊎◌, inl, inr, true, false, ◌||◌, List, [], ◌∷◌, arith,
  str_eq, eq_refl, Bool-cases, Result, Result-cases, ok, err, ◌>>=◌, >>=-eq-ok, >>=-eq-err,
  ok-injective,
}
use pergamon.Relay.{StoredEventRecord}
use pergamon.Engine.{SyncError, protocol, contains}
use pergamon.Engine.Pull.{
  Receiver, Device, Clock, Received, skipped, changed, absorb, authenticate, receive_event,
  receive_page,
}

module _ {E V D : Type 0} (receiver : Receiver E V D) where
  -- The event is of the account, and it is the device's own or was applied before.
  pub record IsSettled (d : Device D) (ev : StoredEventRecord) : Type 0 where
    pub mine : str_eq ev.account_id receiver.account_id_hex ≡ true
    pub seen : str_eq ev.device_id receiver.device_id || contains ev.change_id d.applied ≡ true

  foreign : Result (SyncError E) (Received D)
  foreign = err (protocol "relay returned an event for a different content account")

  -- The event is of another account, settled, or new.
  receive_event-cases :
      (d : Device D) (ev : StoredEventRecord)
      → ((now : Clock) → receive_event receiver now d ev ≡ foreign)
        ⊎ (IsSettled d ev
            ⊎ ((str_eq ev.account_id receiver.account_id_hex ≡ true)
                × ((now : Clock)
                    → receive_event receiver now d ev ≡ authenticate receiver now d ev)))
  unfolding receive_event foreign
  receive_event-cases d ev = elim (Bool-cases (str_eq ev.account_id receiver.account_id_hex)) [
    | inr other ↦ inl (λ now. rw other refl)
    | inl mine ↦
        elim (Bool-cases
          (str_eq ev.device_id receiver.device_id || contains ev.change_id d.applied)) [
            | inl seen ↦ inr (inl (record { mine = mine; seen = seen }))
            | inr new ↦
                let alien : str_eq ev.device_id receiver.device_id ≡ false = ground (arith, new) in
                let unseen : contains ev.change_id d.applied ≡ false = ground (arith, new) in
                inr (inr (mine, λ now. rw (mine, alien, unseen) refl))
          ]
  ]

  pub IsSettled-skipped :
      (now : Clock) (d : Device D) (ev : StoredEventRecord)
      → IsSettled d ev
      → receive_event receiver now d ev ≡ ok skipped
  unfolding receive_event
  IsSettled-skipped now d ev v = elim (Bool-cases (str_eq ev.device_id receiver.device_id)) [
    | inl own ↦ rw (v.mine, own) refl
    | inr other ↦
        let seen : contains ev.change_id d.applied ≡ true = ground (arith, other, v.seen) in
        rw (v.mine, other, seen) refl
  ]

  authenticate-changed :
      (now : Clock) (d : Device D) (ev : StoredEventRecord) {r : Received D}
      → authenticate receiver now d ev ≡ ok r
      → (d' : Device D) × (r ≡ changed d') × (d'.applied ≡ ev.change_id ∷ d.applied)
  unfolding authenticate absorb
  authenticate-changed now d ev h =
      let (_, _, h₁) = >>=-eq-ok (receiver.verify_signature ev) _ h in
      let (body, _, h₂) = >>=-eq-ok (receiver.decrypt_change ev) _ h₁ in
      let (_, _, h₃) = >>=-eq-ok (receiver.fetch_blobs body ev.key_epoch) _ h₂ in
      let (tables, _, h₄) = >>=-eq-ok (receiver.apply_change d.tables body) _ h₃ in
      (_, sym (ok-injective h₄), refl)

  authenticate_err :
      (now now' : Clock) (d : Device D) (ev : StoredEventRecord) (e : SyncError E)
      → authenticate receiver now d ev ≡ err e
      → authenticate receiver now' d ev ≡ err e
  unfolding authenticate absorb
  authenticate_err now now' d ev e = >>=-eq-err (receiver.verify_signature ev) _ _ (λ _.
      >>=-eq-err (receiver.decrypt_change ev) _ _ (λ body.
        >>=-eq-err (receiver.fetch_blobs body ev.key_epoch) _ _
          (λ _. >>=-eq-err (receiver.apply_change d.tables body) _ _ (λ tables h. cc))))

  -- More applied changes leave a settled event settled.
  pub IsSettled-grow :
      (d d' : Device D) (ev : StoredEventRecord)
      → ((x : String) → contains x d.applied ≡ true → contains x d'.applied ≡ true)
      → IsSettled d ev
      → IsSettled d' ev
  IsSettled-grow d d' ev more v = record {
    mine = v.mine;
    seen = ground (arith, v.seen, more ev.change_id);
  }

  -- An event fails, whatever the clock; or it is settled; or it settles itself.
  pub data Outcome (now : Clock) (d : Device D) (ev : StoredEventRecord) : Type 0 where
    fails :
        (e : SyncError E)
        → ((now' : Clock) → receive_event receiver now' d ev ≡ err e)
        → Outcome now d ev
    settled : IsSettled d ev → Outcome now d ev
    settles :
        (d' : Device D)
        → receive_event receiver now d ev ≡ ok (changed d')
        → d'.applied ≡ ev.change_id ∷ d.applied
        → IsSettled d' ev
        → Outcome now d ev

  pub outcome : (now : Clock) (d : Device D) (ev : StoredEventRecord) → Outcome now d ev
  unfolding foreign
  outcome now d ev = elim (receive_event-cases d ev) [
    | inl f ↦ fails _ f
    | inr (inl v) ↦ settled v
    | inr (inr (mine, f)) ↦ elim (Result-cases (authenticate receiver now d ev)) [
      | inl (e, h) ↦ fails e (λ now'. f now' ∙ authenticate_err now now' d ev e h)
      | inr (r, h) ↦
          let (d', same, applied) = authenticate-changed now d ev h in
          settles d' (f now ∙ h ∙ ap ok same) applied
            (record { mine = mine; seen = rw (applied, eq_refl ev.change_id) (ground arith) })
    ]
  ]

  pub page-applied :
      (now : Clock) (d : Device D) (events : List StoredEventRecord) (x : String)
      → contains x d.applied ≡ true
      → contains x (receive_page receiver now d events).0.applied ≡ true
  unfolding receive_page
  page-applied now d [] x h = h
  page-applied now d (ev ∷ events) x h = elim (outcome now d ev) [
    | fails e f ↦ rw (receive_page, f now) h
    | settled v ↦ rw (receive_page, IsSettled-skipped now d ev v) (page-applied now d events x h)
    | settles d' f applied v ↦
        let more : contains x d'.applied ≡ true = rw (applied, h) (ground arith) in
        rw (receive_page, f) (page-applied now d' events x more)
  ]

  module _ (now : Clock) (d : Device D) (ev : StoredEventRecord)
      (events : List StoredEventRecord) where
    pub page_err :
        (e : SyncError E)
        → receive_event receiver now d ev ≡ err e
        → receive_page receiver now d (ev ∷ events) ≡ (d, err e)
    unfolding receive_page
    page_err e h = rw (receive_page, h) refl

    pub page_skip :
        receive_event receiver now d ev ≡ ok skipped
        → receive_page receiver now d (ev ∷ events) ≡ receive_page receiver now d events
    unfolding receive_page
    page_skip h = rw (receive_page, h) refl

    pub page_changed :
        (d' : Device D)
        → receive_event receiver now d ev ≡ ok (changed d')
        → receive_page receiver now d (ev ∷ events) ≡ (
          (receive_page receiver now d' events).0,
          ((receive_page receiver now d' events).1 >>= λ n. ok (suc n)),
        )
    unfolding receive_page
    page_changed d' h = rw (receive_page, h) refl
