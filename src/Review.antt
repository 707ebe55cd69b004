-- ===== src/Review.antt =====
-- The FSRS-5 scheduler of crates/pergamon-core/src/fsrs.rs: how a rating of a card changes its memory
-- state and its next interval. The arithmetic of `f64` is a record of operations, so the formulas are
-- the code's and what a machine rounds is left open.
pub mod Derive
pub mod Convergence
pub mod Counts
pub mod Due
mod Tests
use pergamon.Common.{
  ℕ, zero, suc, ◌-◌, ◌==◌, List, [], ◌∷◌, String, Bool, true, false, Option, none, some, leb,
  if◌then◌else◌, Result, ok, err, str_eq,
}
use pergamon.Common.Integers.{ℤ, pos, negsuc}
use pergamon.Taxonomy.{CoreError, unknown_card_state}

-- The operations on `f64` that the scheduler uses, by Rust's names; a literal is its text.
pub record Floats (F : Type 0) : Type 0 where
  pub literal : String → F
  pub add : F → F → F
  pub sub : F → F → F
  pub mul : F → F → F
  pub div : F → F → F
  pub neg : F → F
  pub powf : F → F → F
  pub powi : F → ℤ → F
  pub exp : F → F
  pub exp_m1 : F → F
  -- `a.mul_add(b, c)` is a * b + c, rounded once.
  pub mul_add : F → F → F → F
  pub max : F → F → F
  -- `x.clamp(low, high)`
  pub clamp : F → F → F → F
  pub lt : F → F → Bool
  pub from_u32 : ℕ → F
  pub from_i64 : ℤ → F
  -- `x as i64`
  pub to_i64 : F → ℤ

pub data CardState : Type 0 where
  new learning review relearning : CardState

pub card_state_as_str : CardState → String
card_state_as_str new = "new"
card_state_as_str learning = "learning"
card_state_as_str review = "review"
card_state_as_str relearning = "relearning"

pub card_state_from_str : String → Result CoreError CardState
card_state_from_str s =
    if str_eq s "new"
    then ok new
    else if str_eq s "learning"
    then ok learning
    else if str_eq s "review"
    then ok review
    else if str_eq s "relearning"
    then ok relearning
    else err (unknown_card_state s)

pub data Rating : Type 0 where
  again hard good easy : Rating

unfoldable pub from_value : ℕ → Option Rating
from_value v =
    if v == 1
    then some again
    else if v == 2
    then some hard
    else if v == 3
    then some good
    else if v == 4
    then some easy
    else none

pub value : Rating → ℕ
value again = 1
value hard = 2
value good = 3
value easy = 4

abbrev pub is_again : Rating → Bool
is_again again = true
is_again _ = false

abbrev is_hard : Rating → Bool
is_hard hard = true
is_hard _ = false

abbrev is_easy : Rating → Bool
is_easy easy = true
is_easy _ = false

pub record MemoryState (F : Type 0) : Type 0 where
  pub stability : F
  pub difficulty : F

-- An array of 19 weights is a function of the index.
pub record Parameters (F : Type 0) : Type 0 where
  pub weights : ℕ → F
  pub desired_retention : F
  pub maximum_interval : F

pub record Scheduler (F : Type 0) : Type 0 where
  pub w : ℕ → F
  pub desired_retention : F
  pub maximum_interval : F

pub record ScheduleOutput (F : Type 0) : Type 0 where
  pub memory : MemoryState F
  pub scheduled_days : F
  pub next_state : CardState

new_scheduler : {F : Type 0} → Parameters F → Scheduler F
new_scheduler params = record {
  w = params.weights;
  desired_retention = params.desired_retention;
  maximum_interval = params.maximum_interval;
}

default_weights : List String
default_weights =
    "0.212" ∷ "1.2931" ∷ "2.3065" ∷ "8.2956" ∷ "6.4133" ∷ "0.8334" ∷ "3.0194" ∷ "0.001" ∷ "1.8722"
    ∷ "0.1666" ∷ "0.796" ∷ "1.4835" ∷ "0.0614" ∷ "0.2629" ∷ "1.6483" ∷ "0.6014" ∷ "1.8729"
    ∷ "0.5425" ∷ "0.0912" ∷ []

-- The text at an index below the length.
text_at : ℕ → List String → String
text_at i [] = ""
text_at zero (x ∷ xs) = x
text_at (suc i) (x ∷ xs) = text_at i xs

module _ {F : Type 0} (fl : Floats F) where
  default_parameters : Parameters F
  unfolding text_at default_weights
  default_parameters = record {
    weights = λ i. fl.literal (text_at i default_weights);
    desired_retention = fl.literal "0.9";
    maximum_interval = fl.literal "36500.0";
  }

  pub default_v5 : Scheduler F
  unfolding new_scheduler default_parameters
  default_v5 = new_scheduler default_parameters

  clamp_stability : F → F
  clamp_stability s = fl.clamp s (fl.literal "0.001") (fl.literal "36500.0")

  clamp_difficulty : F → F
  clamp_difficulty d = fl.clamp d (fl.literal "1.0") (fl.literal "10.0")

  factor : F
  factor = fl.literal "0.234_567_901_234_568"

  decay : F
  decay = fl.literal "-0.5"

  one : F
  one = fl.literal "1.0"

  module _ (sched : Scheduler F) where
    retrievability : F → F → F
    unfolding clamp_stability factor decay one
    retrievability stability elapsed_days =
        let s = clamp_stability stability in
        fl.powf (fl.add (fl.div (fl.mul factor elapsed_days) s) one) decay

    next_interval : F → F
    unfolding clamp_stability factor one
    next_interval stability =
        let s = clamp_stability stability in
        let interval =
          fl.mul (fl.div s factor) (fl.sub (fl.powi sched.desired_retention (negsuc 1)) one) in
        fl.clamp interval one sched.maximum_interval

    init_stability : Rating → F
    unfolding value
    init_stability rating = fl.max (sched.w (value rating - 1)) (fl.literal "0.001")

    init_difficulty : Rating → F
    unfolding value clamp_difficulty one
    init_difficulty rating =
        let r = fl.from_u32 (value rating) in
        let d = fl.add (fl.sub (sched.w 4) (fl.exp (fl.mul (sched.w 5) (fl.sub r one)))) one in
        clamp_difficulty d

    next_difficulty : F → Rating → F
    unfolding value init_difficulty clamp_difficulty
    next_difficulty d rating =
        let r = fl.from_u32 (value rating) in
        let delta_d = fl.mul (fl.neg (sched.w 6)) (fl.sub r (fl.literal "3.0")) in
        let damped = fl.div (fl.mul delta_d (fl.sub (fl.literal "10.0") d)) (fl.literal "9.0") in
        let new_d = fl.add d damped in
        let init_d = init_difficulty easy in
        let reverted = fl.mul_add (sched.w 7) (fl.sub init_d new_d) new_d in
        clamp_difficulty reverted

    stability_after_success : F → F → F → Rating → F
    unfolding clamp_stability one
    stability_after_success s d r rating =
        let hard_penalty = if is_hard rating then sched.w 15 else one in
        let easy_bonus = if is_easy rating then sched.w 16 else one in
        let inner =
          fl.mul
            (fl.mul
              (fl.mul (fl.mul (fl.exp (sched.w 8)) (fl.sub (fl.literal "11.0") d))
                (fl.powf s (fl.neg (sched.w 9))))
              (fl.exp_m1 (fl.mul (fl.sub one r) (sched.w 10))))
            hard_penalty in
        let new_s = fl.mul s (fl.mul_add inner easy_bonus one) in clamp_stability new_s

    stability_after_failure : F → F → F → F
    unfolding clamp_stability one
    stability_after_failure s d r =
        let new_s =
          fl.mul
            (fl.mul (fl.mul (sched.w 11) (fl.powf d (fl.neg (sched.w 12))))
              (fl.sub (fl.powf (fl.add s one) (sched.w 13)) one))
            (fl.exp (fl.mul (fl.sub one r) (sched.w 14))) in
        clamp_stability new_s

    stability_short_term : F → Rating → F
    unfolding value clamp_stability one
    stability_short_term s rating =
        let r = fl.from_u32 (value rating) in
        let sinc =
          fl.exp (fl.mul (sched.w 17) (fl.add (fl.sub r (fl.literal "3.0")) (sched.w 18))) in
        let sinc = if leb 2 (value rating) then fl.max sinc one else sinc in
        clamp_stability (fl.mul s sinc)

    -- The stability of a card that has one already.
    next_stability : F → F → F → Rating → F
    unfolding stability_short_term retrievability stability_after_failure stability_after_success
    next_stability s d elapsed_days rating =
        if fl.lt elapsed_days (fl.literal "0.5")
        then stability_short_term s rating
        else (let r = retrievability s elapsed_days in
            if is_again rating
            then stability_after_failure s d r
            else stability_after_success s d r rating)

    unfoldable pub schedule : CardState → Option (MemoryState F) → F → Rating → ScheduleOutput F
    unfolding init_stability init_difficulty next_interval next_stability next_difficulty
        clamp_stability clamp_difficulty
    schedule _ none elapsed_days rating =
        let s = init_stability rating in
        record {
          memory = record { stability = s; difficulty = init_difficulty rating };
          scheduled_days = next_interval s;
          next_state = if is_again rating then learning else review;
        }
    schedule _ (some mem) elapsed_days rating =
        let s = clamp_stability mem.stability in
        let d = clamp_difficulty mem.difficulty in
        let new_s = next_stability s d elapsed_days rating in
        record {
          memory = record { stability = new_s; difficulty = next_difficulty d rating };
          scheduled_days = next_interval new_s;
          next_state = if is_again rating then relearning else review;
        }
