-- ===== src/Auth/Bearer.antt =====
-- The bearer string of a token, crates/pergamon-sync-server/src/auth/token.rs.
use Prim.Native.Char.{char}
use Prim.Native.String.{◌++◌ as append}
use pergamon.Common.{
  ℕ, ◌≡◌, ◌↔◌, refl, String, Bool, true, false, Option, none, some, [], ◌∷◌, length, ◌==◌,
  if◌then◌else◌, arith, str_eq,
}
use Prim.Native.Nat.{bit_or, bit_xor}
use Prim.Native.String.append
use pergamon.Common.Bits.{bit_or-zero, bit_xor-zero}
use pergamon.Common.Texts.{split_once, Lacks, split_once-append}
use pergamon.Relay.{Bytes}
use pergamon.Auth.{Primitives, TokenKind, access, refresh}

unfoldable pub kind_as_str : TokenKind → String
kind_as_str access = "access"
kind_as_str refresh = "refresh"

unfoldable pub kind_from_wire : String → Option TokenKind
kind_from_wire s =
    if str_eq s "access" then some access else if str_eq s "refresh" then some refresh else none

abbrev pub token_secret_len : ℕ
token_secret_len = 32

pub record NewToken : Type 0 where
  pub token_id : String
  pub token_hash : Bytes
  pub bearer : String

-- `diff |= x ^ y` over the pairs of bytes.
unfoldable pub diff_bytes : ℕ → Bytes → Bytes → ℕ
diff_bytes diff (x ∷ xs) (y ∷ ys) = diff_bytes (bit_or diff (bit_xor x y)) xs ys
diff_bytes diff _ _ = diff

unfoldable pub constant_time_eq : Bytes → Bytes → Bool
unfolding diff_bytes
constant_time_eq a b = if length a == length b then diff_bytes 0 a b == 0 else false

diff_bytes-zero :
    (diff : ℕ) (a b : Bytes) → length a ≡ length b → diff_bytes diff a b ≡ 0 → (diff ≡ 0) × (a ≡ b)
unfolding diff_bytes
diff_bytes-zero diff [] [] l h = (h, refl)
diff_bytes-zero diff [] (y ∷ ys) l h = absurd (omega (arith, l))
diff_bytes-zero diff (x ∷ xs) [] l h = absurd (omega (arith, l))
diff_bytes-zero diff (x ∷ xs) (y ∷ ys) l h =
    let (none_yet, same) = diff_bytes-zero (bit_or diff (bit_xor x y)) xs ys (omega (arith, l)) h in
    let (before, here) = (bit_or-zero diff (bit_xor x y)).0 none_yet in
    (before, λ i. (bit_xor-zero x y).0 here i ∷ same i)

diff_bytes_self : (a : Bytes) → diff_bytes 0 a a ≡ 0
unfolding diff_bytes
diff_bytes_self [] = refl
diff_bytes_self (x ∷ xs) = rw ((bit_xor-zero x x).1 refl) (diff_bytes_self xs)

-- The comparison that never stops early answers exactly whether the two byte strings are equal.
pub constant_time_eq_iff : (a b : Bytes) → (constant_time_eq a b ≡ true) ↔ (a ≡ b)
unfolding constant_time_eq
constant_time_eq_iff a b = (
  λ h. (diff_bytes-zero 0 a b (ground arith) (ground arith)).1,
  λ e. rw (← e) (ground (arith, diff_bytes_self a)),
)

module _ (p : Primitives) where
  -- A token made of the random id and secret.
  unfoldable pub new_token : String → Bytes → NewToken
  new_token token_id secret = record {
    token_id = token_id;
    token_hash = p.hash secret;
    bearer = append token_id (append "." (p.encode secret));
  }

  check_secret : String → Option Bytes → Option (String × Bytes)
  check_secret token_id none = none
  check_secret token_id (some secret) =
      if length secret == token_secret_len then some (token_id, secret) else none

  unfoldable pub parse_bearer : String → Option (String × Bytes)
  unfolding check_secret
  parse_bearer bearer = elim (split_once 46 bearer) [
    | none ↦ none
    | some (token_id, secret_b64) ↦
        if str_eq token_id "" then none else check_secret token_id (p.decode secret_b64)
  ]

  -- A minted bearer string is parsed into the id and the secret that it was made of.
  pub parse_bearer-new_token :
      (token_id : String) (secret : Bytes)
      → Lacks 46 token_id
      → str_eq token_id "" ≡ false
      → length secret ≡ token_secret_len
      → p.decode (p.encode secret) ≡ some secret
      → parse_bearer (new_token token_id secret).bearer ≡ some (token_id, secret)
  unfolding parse_bearer new_token
  parse_bearer-new_token token_id secret dotless named sized decoded =
      rw (append.cons _ _ _, append.nil _)
        (rw (parse_bearer, split_once-append token_id (p.encode secret) (char 46 tt) dotless)
          (rw (named, decoded) (rw sized refl)))
