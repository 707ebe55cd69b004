-- ===== src/Engine/Pull/Resume.antt =====
-- A page that is received again.
use pergamon.Common.{
  ℕ, suc, ◌≡◌, refl, sym, ap, ◌∙◌, List, [], ◌∷◌, ◌++◌, Result, ok, err, ◌>>=◌, >>=-eq-ok,
}
use pergamon.Relay.{StoredEventRecord}
use pergamon.Engine.{SyncError}
use pergamon.Engine.Pull.{Receiver, Device, Clock, receive_event, receive_page}
use pergamon.Engine.Pull.Settled.{
  IsSettled, IsSettled-skipped, IsSettled-grow, fails, settled, settles, outcome, page-applied,
  page_err, page_skip, page_changed,
}

raised : {E : Type 0} (r : Result E ℕ) {e : E} → (r >>= λ n. ok (suc n)) ≡ err e → r ≡ err e
raised (err _) h = h
raised (ok n) h = cc

reraise :
    {E : Type 0} {x y : E}
    → ◌≡◌ {A = Result E ℕ} (err x) (err y)
    → {R : Type 0} → ◌≡◌ {A = Result E R} (err x) (err y)
reraise h = ap err (cc h)

module _ {E V D : Type 0} (receiver : Receiver E V D) where
  -- The events that a first receipt of a page is done with, and those that are left: none where it
  -- answered without an error, else they begin with the event that failed.
  pub record Division (now : Clock) (d : Device D) (events : List StoredEventRecord) : Type 0 where
    pub done : List StoredEventRecord
    pub left : List StoredEventRecord
    pub parts : events ≡ done ++ left
    pub whole : (n : ℕ) → (receive_page receiver now d events).1 ≡ ok n → left ≡ []
    pub broken :
        (e : SyncError E)
        → (receive_page receiver now d events).1 ≡ err e
        → (ev : StoredEventRecord) × (more : List StoredEventRecord) × (left ≡ ev ∷ more)
          × (receive_event receiver now (receive_page receiver now d events).0 ev ≡ err e)

  -- One more event that is done with, where the receipt goes on from another device.
  one_more :
      (now : Clock) (d d' : Device D) (ev : StoredEventRecord) (events : List StoredEventRecord)
      → (receive_page receiver now d (ev ∷ events)).0 ≡ (receive_page receiver now d' events).0
      → ((n : ℕ)
          → (receive_page receiver now d (ev ∷ events)).1 ≡ ok n
          → (k : ℕ) × ((receive_page receiver now d' events).1 ≡ ok k))
      → ((e : SyncError E)
          → (receive_page receiver now d (ev ∷ events)).1 ≡ err e
          → (receive_page receiver now d' events).1 ≡ err e)
      → Division now d' events
      → Division now d (ev ∷ events)
  one_more now d d' ev events last fine bad v = record {
    done = ev ∷ v.done;
    left = v.left;
    parts = ap (◌∷◌ ev) v.parts;
    whole = λ n h. let (k, h') = fine n h in v.whole k h';
    broken = λ e h.
        let (x, more, first, refused) = v.broken e (bad e h) in (x, more, first, rw last refused);
  }

  whole_page : (now : Clock) (d : Device D) → Division now d []
  unfolding receive_page
  whole_page now d = record {
    done = [];
    left = [];
    parts = refl;
    whole = λ n h. refl;
    broken = λ e h. cc;
  }

  cut_off :
      (now : Clock) (d : Device D) (ev : StoredEventRecord) (events : List StoredEventRecord)
      → (e : SyncError E) → receive_event receiver now d ev ≡ err e
      → Division now d (ev ∷ events)
  cut_off now d ev events e f =
      let page = page_err receiver now d ev events e f in
      record {
        done = [];
        left = ev ∷ events;
        parts = refl;
        whole = λ n h. cc (sym (ap (λ p. p.1) page) ∙ h);
        broken = λ e' h. (ev, events, refl, rw page (f ∙ reraise (sym (ap (λ p. p.1) page) ∙ h)));
      }

-- Another receipt on the same device: its signatures, keys, blobs and merge may answer otherwise.
module _ {E V D : Type 0} (receiver other : Receiver E V D)
    (same_account : other.account_id_hex ≡ receiver.account_id_hex)
    (same_device : other.device_id ≡ receiver.device_id) (now now' : Clock) where
  skips :
      (d : Device D) (ev : StoredEventRecord) (events : List StoredEventRecord)
      → IsSettled receiver d ev
      → receive_page other now' d (ev ∷ events) ≡ receive_page other now' d events
  skips d ev events v = page_skip other now' d ev events (
      IsSettled-skipped other now' d ev
        (record { mine = rw same_account v.mine; seen = rw same_device v.seen }))

  -- A page may be received again, whatever the clock then says, from the device that a first receipt left, be
  -- it complete or cut off by an error, and whatever signatures, keys, blobs and the merge answer by
  -- then: the events that the first receipt is done with are passed over, and the second one does
  -- exactly what it would do with the events that are left. Those are none after a complete receipt,
  -- and else they begin with the event that failed.
  pub receive_page_again :
      (d : Device D) (events : List StoredEventRecord)
      → (v : Division receiver now d events) × (receive_page other now'
            (receive_page receiver now d events).0
            events
          ≡ receive_page other now' (receive_page receiver now d events).0 v.left)
  unfolding whole_page cut_off one_more
  receive_page_again d [] = (whole_page receiver now d, refl)
  receive_page_again d (ev ∷ events) = elim (outcome receiver now d ev) [
    | fails e f ↦ (cut_off receiver now d ev events e (f now), refl)
    | settled v ↦
        let page = page_skip receiver now d ev events (IsSettled-skipped receiver now d ev v) in
        let (rest, same) = receive_page_again d events in
        let last = (receive_page receiver now d events).0 in
        let later = IsSettled-grow receiver d last ev (page-applied receiver now d events) v in
        (
          one_more receiver now d d ev events (ap (λ p. p.0) page)
              (λ n h. (n, sym (ap (λ p. p.1) page) ∙ h)) (λ e h. sym (ap (λ p. p.1) page) ∙ h) rest,
          rw page (skips last ev events later ∙ same),
        )
    | settles d' f applied v ↦
        let page = page_changed receiver now d ev events d' f in
        let (rest, same) = receive_page_again d' events in
        let last = (receive_page receiver now d' events).0 in
        let later = IsSettled-grow receiver d' last ev (page-applied receiver now d' events) v in
        (
          one_more receiver now d d' ev events (ap (λ p. p.0) page)
              (λ n h.
                let (k, e, _) =
                  >>=-eq-ok (receive_page receiver now d' events).1 _
                    (sym (ap (λ p. p.1) page) ∙ h) in
                (k, e))
              (λ e h. raised (receive_page receiver now d' events).1 (sym (ap (λ p. p.1) page) ∙ h))
              rest,
          rw page (skips last ev events later ∙ same),
        )
  ]
