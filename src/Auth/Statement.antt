-- ===== src/Auth/Statement.antt =====
-- The bytes that a device signs, crates/pergamon-sync-server/src/auth/token.rs and binding.rs: a tag,
-- then each field behind its length.
use Prim.Native.Nat.{ℕ, zero, suc, ◌/◌, ◌%◌, ◌^◌, ◌<◌}
use native.Mathlib.Nat.{pow-suc}
use pergamon.Common.{
  ◌≡◌, refl, sym, ap, ◌∙◌, String, ◌||◌, not, List, [], ◌∷◌, ◌++◌, length, when-eq-ok, unless-eq-ok,
  leb, ◌==◌, arith, if◌then◌else◌, Result, ok, err, ◌>>=◌, u32_max, min, length-append, >>=-eq-ok,
  ok-injective,
}
use mathlib.Core.List.{append_assoc}
use pergamon.Relay.{Bytes}
use pergamon.Auth.{Primitives, BindingChallenge, ApiError, bad_request}

-- `to_be_bytes`, at a number of bytes.
unfoldable pub be_bytes : ℕ → ℕ → Bytes
be_bytes zero v = []
be_bytes (suc n) v = be_bytes n (v / 256) ++ (v % 256) ∷ []

-- `push_len_prefixed`
unfoldable pub push_len_prefixed : Bytes → Bytes
unfolding be_bytes
push_len_prefixed bytes = be_bytes 4 (min u32_max (length bytes)) ++ bytes

unfoldable pub lp : Bytes → Result ApiError Bytes
unfolding be_bytes
lp bytes =
    if leb (length bytes) u32_max
    then ok (be_bytes 4 (length bytes) ++ bytes)
    else err (bad_request "binding field too long")

unfoldable pub frame : List Bytes → Result ApiError Bytes
unfolding lp
frame [] = ok []
frame (field ∷ fields) = lp field >>= λ here. frame fields >>= λ rest. ok (here ++ rest)

module _ (p : Primitives) where
  abbrev pub mint_pop_tag : Bytes
  mint_pop_tag = p.utf8 "pergamon/v1/auth/token-mint-pop"

  abbrev pub refresh_pop_tag : Bytes
  refresh_pop_tag = p.utf8 "pergamon/v1/auth/token-refresh-pop"

  pub mint_pop_message : String → Bytes → String → Bytes → Bytes
  unfolding push_len_prefixed
  mint_pop_message login_id finalization device_id key =
      mint_pop_tag
      ++ (push_len_prefixed (p.utf8 login_id)
          ++ (p.hash finalization ++ (push_len_prefixed (p.utf8 device_id) ++ key)))

  pub refresh_pop_message : String → Bytes → String → Bytes → Bytes
  unfolding push_len_prefixed
  refresh_pop_message refresh_token_id nonce device_id key =
      refresh_pop_tag
      ++ (push_len_prefixed (p.utf8 refresh_token_id)
          ++ (push_len_prefixed nonce ++ (push_len_prefixed (p.utf8 device_id) ++ key)))

  abbrev pub challenge_fields : BindingChallenge → List Bytes
  challenge_fields c =
      p.utf8 c.server_instance_id
      ∷ p.utf8 c.operation_id
      ∷ p.utf8 c.challenge_id
      ∷ c.nonce
      ∷ p.utf8 c.auth_tenant_id
      ∷ p.utf8 c.content_account_id
      ∷ p.utf8 c.device_id
      ∷ []

  unfoldable pub signing_bytes : BindingChallenge → Result ApiError Bytes
  unfolding frame be_bytes
  signing_bytes c =
      if not (length c.nonce == 32) || not (length c.ed25519_pub == 32)
      then err (bad_request "invalid binding statement")
      else (frame (challenge_fields c) >>= λ fields. ok (
          p.utf8 "pergamon/v2/auth/content-binding-pop"
          ++ (fields
              ++ (c.ed25519_pub ++ (be_bytes 8 c.binding_version ++ be_bytes 8 c.expires_at_ms)))))

length-be_bytes : (n v : ℕ) → length (be_bytes n v) ≡ n
unfolding be_bytes
length-be_bytes zero v = refl
length-be_bytes (suc n) v =
    length-append (be_bytes n (v / 256)) (v % 256 ∷ []) ∙ omega (arith, length-be_bytes n (v / 256))

-- Two concatenations whose first parts are of the same length have the same parts.
append_split : (a b c d : Bytes) → length a ≡ length b → a ++ c ≡ b ++ d → (a ≡ b) × (c ≡ d)
append_split [] [] c d l h = (refl, h)
append_split [] (y ∷ b) c d l h = absurd (omega (arith, l))
append_split (x ∷ a) [] c d l h = absurd (omega (arith, l))
append_split (x ∷ a) (y ∷ b) c d l h =
    let (head, tail) = cons_injective h in
    let (same, rest) = append_split a b c d (omega (arith, l)) tail in
    ((λ i. head i ∷ same i), rest)
  where
    cons_injective : {x y : ℕ} {xs ys : Bytes} → x ∷ xs ≡ y ∷ ys → (x ≡ y) × (xs ≡ ys)
    cons_injective k = (cc, cc)

be_bytes-injective : (n v w : ℕ) → v < 256 ^ n → w < 256 ^ n → be_bytes n v ≡ be_bytes n w → v ≡ w
unfolding be_bytes
be_bytes-injective zero v w p q h = omega (arith, p, q)
be_bytes-injective (suc n) v w p q h =
    let (high, low) =
      append_split (be_bytes n (v / 256)) (be_bytes n (w / 256)) _ _
        (length-be_bytes n (v / 256) ∙ sym (length-be_bytes n (w / 256))) h in
    let up = be_bytes-injective n (v / 256) (w / 256) (below v p) (below w q) high in
    let down : v % 256 ≡ w % 256 = cc low in omega (arith, up, down)
  where
    below : (x : ℕ) → x < 256 ^ suc n → x / 256 < 256 ^ n
    below x r = omega (arith, r, pow-suc 256 n)

pub lp-injective :
    (a b x y c d : Bytes) → lp a ≡ ok x → lp b ≡ ok y → x ++ c ≡ y ++ d → (a ≡ b) × (c ≡ d)
unfolding lp
lp-injective a b x y c d h k e =
    let (fits, made) = when-eq-ok (leb (length a) u32_max) _ (ok (be_bytes 4 (length a) ++ a)) h in
    let (fits', made') =
      when-eq-ok (leb (length b) u32_max) _ (ok (be_bytes 4 (length b) ++ b)) k in
    let whole : be_bytes 4 (length a) ++ (a ++ c) ≡ be_bytes 4 (length b) ++ (b ++ d) =
      sym (append_assoc (be_bytes 4 (length a)) a c)
      ∙ ap (λ z. z ++ c) (ok-injective made)
      ∙ e
      ∙ ap (λ z. z ++ d) (sym (ok-injective made'))
      ∙ append_assoc (be_bytes 4 (length b)) b d in
    let (sizes, rest) =
      append_split (be_bytes 4 (length a)) (be_bytes 4 (length b)) (a ++ c) (b ++ d)
        (length-be_bytes 4 (length a) ∙ sym (length-be_bytes 4 (length b))) whole in
    append_split a b c d
      (be_bytes-injective 4 (length a) (length b) (ground (arith, fits)) (ground (arith, fits'))
        sizes)
      rest

frame-injective :
    (fs gs : List Bytes) (x y c d : Bytes)
    → length fs ≡ length gs
    → frame fs ≡ ok x
    → frame gs ≡ ok y
    → x ++ c ≡ y ++ d
    → (fs ≡ gs) × (c ≡ d)
unfolding frame
frame-injective [] [] x y c d l h k e =
    (refl, ap (λ z. z ++ c) (ok-injective h) ∙ e ∙ ap (λ z. z ++ d) (sym (ok-injective k)))
frame-injective [] (g ∷ gs) x y c d l h k e = absurd (omega (arith, l))
frame-injective (f ∷ fs) [] x y c d l h k e = absurd (omega (arith, l))
frame-injective (f ∷ fs) (g ∷ gs) x y c d l h k e =
    let (xa, here, h') = >>=-eq-ok (lp f) (λ z. frame fs >>= λ rest. ok (z ++ rest)) h in
    let (xr, after, made) = >>=-eq-ok (frame fs) (λ rest. ok (xa ++ rest)) h' in
    let (ya, there, k') = >>=-eq-ok (lp g) (λ z. frame gs >>= λ rest. ok (z ++ rest)) k in
    let (yr, beyond, made') = >>=-eq-ok (frame gs) (λ rest. ok (ya ++ rest)) k' in
    let (same, tail) = lp-injective f g xa ya (xr ++ c) (yr ++ d) here there (
      sym (append_assoc xa xr c)
      ∙ ap (λ z. z ++ c) (ok-injective made)
      ∙ e
      ∙ ap (λ z. z ++ d) (sym (ok-injective made'))
      ∙ append_assoc ya yr d) in
    let (rest, end) = frame-injective fs gs xr yr c d (omega (arith, l)) after beyond tail in
    ((λ i. same i ∷ rest i), end)

-- The numbers of the statement fit in an i64.
abbrev pub HasRange : BindingChallenge → Type 0
HasRange c = (c.binding_version < 2 ^ 63) × (c.expires_at_ms < 2 ^ 63)

-- What stands behind the fields.
abbrev trailer : BindingChallenge → Bytes
trailer c = c.ed25519_pub ++ (be_bytes 8 c.binding_version ++ be_bytes 8 c.expires_at_ms)

trailer-injective :
    (c d : BindingChallenge)
    → HasRange c
    → HasRange d
    → length c.ed25519_pub ≡ length d.ed25519_pub
    → trailer c ≡ trailer d
    → (c.ed25519_pub ≡ d.ed25519_pub)
      × (c.binding_version ≡ d.binding_version)
      × (c.expires_at_ms ≡ d.expires_at_ms)
trailer-injective c d r q l e =
    let (key, numbers) =
      append_split c.ed25519_pub d.ed25519_pub
        (be_bytes 8 c.binding_version ++ be_bytes 8 c.expires_at_ms)
        (be_bytes 8 d.binding_version ++ be_bytes 8 d.expires_at_ms) l e in
    let (version, expiry) =
      append_split (be_bytes 8 c.binding_version) (be_bytes 8 d.binding_version)
        (be_bytes 8 c.expires_at_ms) (be_bytes 8 d.expires_at_ms)
        (length-be_bytes 8 c.binding_version ∙ sym (length-be_bytes 8 d.binding_version)) numbers in
    (
      key,
      be_bytes-injective 8 c.binding_version d.binding_version (omega (arith, r.0))
          (omega (arith, q.0)) version,
      be_bytes-injective 8 c.expires_at_ms d.expires_at_ms (omega (arith, r.1)) (omega (arith, q.1))
          expiry,
    )

module _ (p : Primitives) where
  signed_parts :
      (c : BindingChallenge) (m : Bytes)
      → signing_bytes p c ≡ ok m
      → (fields : Bytes) × (frame (challenge_fields p c) ≡ ok fields)
        × (p.utf8 "pergamon/v2/auth/content-binding-pop" ++ (fields ++ trailer c) ≡ m)
        × (length c.ed25519_pub ≡ 32)
  unfolding signing_bytes
  signed_parts c m h =
      let (sized, k) =
        unless-eq-ok (not (length c.nonce == 32) || not (length c.ed25519_pub == 32))
          (bad_request "invalid binding statement")
          (frame (challenge_fields p c) >>= λ fields.
            ok (p.utf8 "pergamon/v2/auth/content-binding-pop" ++ (fields ++ trailer c)))
          h in
      let (fields, framed, made) =
        >>=-eq-ok (frame (challenge_fields p c))
          (λ fields. ok (p.utf8 "pergamon/v2/auth/content-binding-pop" ++ (fields ++ trailer c)))
          k in
      (fields, framed, ok-injective made, ground (arith, sized))

  -- Two binding challenges with numbers in the range of an i64 that ask a device to sign the same
  -- bytes are the same challenge, where no two texts have the same bytes: a signature for one
  -- server, operation, tenant, namespace, device, version or time is no signature for another.
  pub signing_bytes-injective :
      (c d : BindingChallenge) (m : Bytes)
      → ((s t : String) → p.utf8 s ≡ p.utf8 t → s ≡ t)
      → HasRange c
      → HasRange d
      → signing_bytes p c ≡ ok m
      → signing_bytes p d ≡ ok m
      → c ≡ d
  signing_bytes-injective c d m text r q h k =
      let (fc, framed, made, key) = signed_parts c m h in
      let (fd, framed', made', key') = signed_parts d m k in
      let tag = p.utf8 "pergamon/v2/auth/content-binding-pop" in
      let (_, body) =
        append_split tag tag (fc ++ trailer c) (fd ++ trailer d) refl (made ∙ sym made') in
      let (es, tail) =
        frame-injective (challenge_fields p c) (challenge_fields p d) fc fd (trailer c) (trailer d)
          refl framed framed' body in
      let (keys, version, expiry) = trailer-injective c d r q (key ∙ sym key') tail in
      same_challenge c d (text _ _ (cc es)) (text _ _ (cc es)) (text _ _ (cc es)) (cc es)
        (text _ _ (cc es)) (text _ _ (cc es)) (text _ _ (cc es)) keys version expiry
    where
      same_challenge :
          (x y : BindingChallenge)
          → x.server_instance_id ≡ y.server_instance_id
          → x.operation_id ≡ y.operation_id
          → x.challenge_id ≡ y.challenge_id
          → x.nonce ≡ y.nonce
          → x.auth_tenant_id ≡ y.auth_tenant_id
          → x.content_account_id ≡ y.content_account_id
          → x.device_id ≡ y.device_id
          → x.ed25519_pub ≡ y.ed25519_pub
          → x.binding_version ≡ y.binding_version
          → x.expires_at_ms ≡ y.expires_at_ms
          → x ≡ y
      same_challenge x y a b e f g i j l m n = λ t. record {
        server_instance_id = a t;
        operation_id = b t;
        challenge_id = e t;
        nonce = f t;
        auth_tenant_id = g t;
        content_account_id = i t;
        device_id = j t;
        ed25519_pub = l t;
        binding_version = m t;
        expires_at_ms = n t;
      }
