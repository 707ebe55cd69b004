-- ===== src/Common/Results.antt =====
-- Results that name their error, Rust's `Result<A, E>`, with `?` as the bind.
use mathlib.Core.Path.{◌≡◌, refl}
use mathlib.Core.Bool.{Bool, true, false}
use pergamon.Common.Tests.{if◌then◌else◌}
use mathlib.Core.Logic.{◌⊎◌, inl, inr}

pub data Result (E A : Type 0) : Type 0 where
  ok : A → Result E A
  err : E → Result E A

infixl 5 ◌>>=◌
abbrev pub ◌>>=◌ : {E A B : Type 0} → Result E A → (A → Result E B) → Result E B
err e >>= next = err e
ok x >>= next = next x

-- A bind that succeeds has two parts that do.
pub >>=-eq-ok :
    {E A B : Type 0} (first : Result E A) (next : A → Result E B) {y : B}
    → (first >>= next) ≡ ok y
    → (x : A) × (first ≡ ok x) × (next x ≡ ok y)
>>=-eq-ok (err e) next h = cc
>>=-eq-ok (ok x) next h = (x, refl, h)

pub ok-injective : {E A : Type 0} {x y : A} → ◌≡◌ {A = Result E A} (ok x) (ok y) → x ≡ y
ok-injective h = cc

pub Result-cases :
    {E A : Type 0} (r : Result E A) → ((e : E) × (r ≡ err e)) ⊎ ((x : A) × (r ≡ ok x))
Result-cases (err e) = inl (e, refl)
Result-cases (ok x) = inr (x, refl)

-- Two continuations that fail alike.
pub >>=-eq-err :
    {E A B : Type 0} (first : Result E A) (next other : A → Result E B) {e : E}
    → ((x : A) → next x ≡ err e → other x ≡ err e)
    → (first >>= next) ≡ err e
    → (first >>= other) ≡ err e
>>=-eq-err (err _) next other alike h = h
>>=-eq-err (ok x) next other alike h = alike x h

-- A guard that a success has passed.
pub unless-eq-ok :
    {E A : Type 0} (b : Bool) (e : E) (m : Result E A) {y : A}
    → (if b then err e else m) ≡ ok y
    → (b ≡ false) × (m ≡ ok y)
unless-eq-ok true e m h = cc
unless-eq-ok false e m h = (refl, h)

pub when-eq-ok :
    {E A : Type 0} (b : Bool) (e : E) (m : Result E A) {y : A}
    → (if b then m else err e) ≡ ok y
    → (b ≡ true) × (m ≡ ok y)
when-eq-ok true e m h = (refl, h)
when-eq-ok false e m h = cc
