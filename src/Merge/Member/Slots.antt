-- ===== src/Merge/Member/Slots.antt =====
-- One slot of a member, for crates/pergamon-core/src/sync/merge.rs: the clocks that changes write
-- to it.
use mathlib.Core.List.{Memᴰ}
use pergamon.Common.{
  Bool, true, ◌≡◌, ◌≢◌, refl, Option, none, some, List, [], ◌∷◌, arith, All, Bool-cases, ◌⊎◌, inl,
  inr,
}
use pergamon.Hlc.{Hlc, ◌≤?◌}
use pergamon.Hlc.Facts.{flip, le_refl, lt→le, le_trans, le_antisymm}
use pergamon.Merge.{fold_slot}

-- An add (`true`) or a remove (`false`), with its clock.
abbrev pub EdgeChange : Type 0
EdgeChange = Bool × Hlc

pub fold_slot_comm :
    (o : Option Hlc) (a b : Hlc) → fold_slot (fold_slot o a) b ≡ fold_slot (fold_slot o b) a
unfolding fold_slot
fold_slot_comm none a b = ground (arith, flip a b, flip b a, lt→le a b, lt→le b a, le_antisymm a b)
fold_slot_comm (some c) a b = ground (
  arith,
  flip a b,
  flip b a,
  flip a c,
  flip b c,
  lt→le a b,
  lt→le b a,
  lt→le c a,
  lt→le c b,
  le_antisymm a b,
  le_trans a b c,
  le_trans b a c,
)

pub fold_slot_idem : (o : Option Hlc) (a : Hlc) → fold_slot (fold_slot o a) a ≡ fold_slot o a
unfolding fold_slot
fold_slot_idem none a = ground (arith, le_refl a)
fold_slot_idem (some c) a = ground (arith, le_refl a)

-- A slot keeps what it has, or takes the clock of the change.
pub fold_slot-cases : (o : Option Hlc) (c : Hlc) → (fold_slot o c ≡ o) ⊎ (fold_slot o c ≡ some c)
unfolding fold_slot
fold_slot-cases none c = inr refl
fold_slot-cases (some d) c = elim (Bool-cases (c ≤? d)) [
  | inl e ↦ inl (rw e refl)
  | inr e ↦ inr (rw e refl)
]

-- The changes of one flag are at most the clock `a`.
abbrev pub AtMost : Bool → Hlc → List EdgeChange → Type 0
AtMost flag a = All (λ x. x.0 ≡ flag → (x.1 ≤? a) ≡ true)

-- A slot is empty where no change of its flag came, and else holds the latest of them.
abbrev pub Latest : Bool → Option Hlc → List EdgeChange → Type 0
Latest flag none xs = All (λ x. x.0 ≢ flag) xs
Latest flag (some a) xs = Memᴰ (flag, a) xs × AtMost flag a xs

AtMost-mono :
    (flag : Bool) (a b : Hlc) (xs : List EdgeChange)
    → (a ≤? b) ≡ true
    → AtMost flag a xs
    → AtMost flag b xs
AtMost-mono flag a b [] h k = tt
AtMost-mono flag a b (x ∷ xs) h k = (λ e. le_trans x.1 a b (k.0 e) h, AtMost-mono flag a b xs h k.1)

AtMost-of_none :
    (flag : Bool) (a : Hlc) (xs : List EdgeChange) → All (λ x. x.0 ≢ flag) xs → AtMost flag a xs
AtMost-of_none flag a [] h = tt
AtMost-of_none flag a (x ∷ xs) h = (λ e. absurd (h.0 e), AtMost-of_none flag a xs h.1)

pub Latest-fold_slot :
    (flag : Bool) (o : Option Hlc) (c : Hlc) (xs : List EdgeChange)
    → Latest flag o xs
    → Latest flag (fold_slot o c) ((flag, c) ∷ xs)
unfolding fold_slot
Latest-fold_slot flag none c xs h = (Memᴰ.head refl, (λ _. le_refl c, AtMost-of_none flag c xs h))
Latest-fold_slot flag (some a) c xs h = elim (Bool-cases (c ≤? a)) [
  | inl e ↦ rw e (Memᴰ.tail h.0, (λ _. e, h.1))
  | inr e ↦
      rw e (Memᴰ.head refl, (λ _. le_refl c, AtMost-mono flag a c xs (lt→le a c (flip c a e)) h.1))
]

pub Latest-skip :
    (flag other : Bool) (o : Option Hlc) (c : Hlc) (xs : List EdgeChange)
    → other ≢ flag
    → Latest flag o xs
    → Latest flag o ((other, c) ∷ xs)
Latest-skip flag other none c xs ne h = (ne, h)
Latest-skip flag other (some a) c xs ne h = (Memᴰ.tail h.0, (λ e. absurd (ne e), h.1))
