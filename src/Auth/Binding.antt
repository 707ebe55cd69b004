-- ===== src/Auth/Binding.antt =====
-- The binding of a tenant to a content namespace, crates/pergamon-sync-server/src/auth/binding.rs. The
-- challenge is kept as the record and not as its JSON, and a nonce, key or signature as its bytes.
-- `occupied` is the history of the content store; the slot of the tenant is taken outside.
use Prim.Native.Char.{code}
use Prim.Native.String.{[] as empty_text, ◌∷◌ as text_cons, len}
use pergamon.Common.{
  ℕ, suc, ◌+◌, String, Bool, true, false, ◌&&◌, ◌||◌, not, Option, none, some, List, [], ◌∷◌, leb,
  length, ◌==◌, str_eq, if◌then◌else◌, Result, ok, err, ◌>>=◌, ◌≡◌, ap, ok-injective,
}
use pergamon.Relay.{Bytes}
use pergamon.Auth.{
  Primitives, AuthDb, access, ContentBinding, BindingChallenge, legacy_reserved, active, retired,
  BindingState, ApiError, bad_request, unauthorized, internal, unavailable, conflict, api_error,
  i64_max, AuthStoreError,
}
use pergamon.Auth.Accounts.{binding_for, insert_binding, has_content}
use pergamon.Auth.Tokens.{ValidatedToken, load_valid_token, revoke_where, same_blob}
use pergamon.Auth.Statement.{signing_bytes}

pub record BindingStart : Type 0 where
  pub operation_id : String
  pub content_account_id : String

pub record BindingFinish : Type 0 where
  pub operation_id : String
  pub challenge_id : String
  pub pop_signature : Bytes

-- `?` on a result of the store
abbrev pub lift_db : {A : Type 0} → Result AuthStoreError A → Result ApiError A
lift_db (ok a) = ok a
lift_db (err e) = err (api_error e)

pub lift_db-eq-ok : {A : Type 0} (m : Result AuthStoreError A) {a : A} → lift_db m ≡ ok a → m ≡ ok a
lift_db-eq-ok (ok a) h = ap ok (ok-injective h)
lift_db-eq-ok (err e) h = cc

abbrev pub or_unauthorized : {A : Type 0} → String → Option A → Result ApiError A
or_unauthorized message none = err (unauthorized message)
or_unauthorized message (some a) = ok a

pub or_unauthorized-eq-ok :
    {A : Type 0} (message : String) (o : Option A) {a : A}
    → or_unauthorized message o ≡ ok a
    → o ≡ some a
or_unauthorized-eq-ok message none h = cc
or_unauthorized-eq-ok message (some a) h = ap some (ok-injective h)

unfoldable pub principal : Primitives → ℕ → String → AuthDb → Result ApiError ValidatedToken
principal p now credential s =
    lift_db (load_valid_token p now credential access s) >>= or_unauthorized "invalid bearer token"

is_hex : String → Bool
is_hex empty_text = true
is_hex (text_cons c s) =
    ((leb 48 (code c) && leb (code c) 57) || (leb 97 (code c) && leb (code c) 102)) && is_hex s

pub is_valid_start : BindingStart → Bool
unfolding is_hex
is_valid_start request =
    not (str_eq request.operation_id "")
    && leb (len request.operation_id) 128
    && (len request.content_account_id == 32)
    && is_hex request.content_account_id

abbrev pub is_operation : String → Option String → Bool
is_operation id none = false
is_operation id (some other) = str_eq other id

-- `DELETE FROM binding_challenges WHERE expires_at <= ?1`
unfoldable pub drop_expired : ℕ → List BindingChallenge → List BindingChallenge
drop_expired now [] = []
drop_expired now (c ∷ cs) =
    let rest = drop_expired now cs in if leb c.expires_at_ms now then rest else c ∷ rest

unfoldable pub find_challenge : String → String → List BindingChallenge → Option BindingChallenge
find_challenge tenant operation [] = none
find_challenge tenant operation (c ∷ cs) =
    if str_eq c.auth_tenant_id tenant && str_eq c.operation_id operation
    then some c
    else find_challenge tenant operation cs

-- The operation was started for another namespace.
pub is_other_operation : BindingStart → Option ContentBinding → Bool
is_other_operation request none = false
is_other_operation request (some b) =
    is_operation request.operation_id b.operation_id
    && not (str_eq b.content_account_id request.content_account_id)

abbrev pub operation_conflict : ApiError
operation_conflict = conflict "OPERATION_CONFLICT" "binding operation has different parameters"

-- `challenge_id` and `nonce` are the fresh random values.
unfoldable pub issue :
    ℕ
    → String
    → Bytes
    → BindingStart
    → ValidatedToken
    → AuthDb
    → Result ApiError (AuthDb × BindingChallenge)
issue now challenge_id nonce request who s =
    elim (find_challenge who.auth_tenant_id request.operation_id s.challenges) [
      | some c ↦
          if not (str_eq c.content_account_id request.content_account_id)
            || (not (str_eq c.device_id who.device_id)
                || not (same_blob c.ed25519_pub who.ed25519_pub))
          then err operation_conflict
          else ok (s, c)
      | none ↦
          if leb 10000 (length s.challenges)
          then err (unavailable "too many binding attempts")
          else let c : BindingChallenge = record {
            server_instance_id = s.server_instance_id;
            operation_id = request.operation_id;
            challenge_id = challenge_id;
            nonce = nonce;
            auth_tenant_id = who.auth_tenant_id;
            content_account_id = request.content_account_id;
            device_id = who.device_id;
            ed25519_pub = who.ed25519_pub;
            binding_version = who.binding_version;
            expires_at_ms = now + 120000;
          } in
            ok (record s { challenges = c ∷ s.challenges }, c)
    ]

-- The expired challenges go also when the request is refused afterwards.
unfoldable pub start :
    Primitives
    → ℕ
    → String
    → Bytes
    → String
    → BindingStart
    → AuthDb
    → AuthDb × Result ApiError BindingChallenge
unfolding issue
start p now challenge_id nonce credential request s = elim (principal p now credential s) [
  | err e ↦ (s, err e)
  | ok who ↦
      if not (is_valid_start request)
      then (s, err (bad_request "invalid binding operation or canonical content ID"))
      else if is_other_operation request (binding_for who.auth_tenant_id s)
      then (s, err operation_conflict)
      else let swept : AuthDb = record s { challenges = drop_expired now s.challenges } in
        elim (issue now challenge_id nonce request who swept) [
          | err e ↦ (swept, err e)
          | ok (s', c) ↦ (s', ok c)
        ]
]

-- The proof does not fit the challenge, before the signature is looked at.
pub is_misfit : ℕ → BindingFinish → ValidatedToken → BindingChallenge → Bool
is_misfit now request who c =
    not (str_eq c.challenge_id request.challenge_id)
    || (leb c.expires_at_ms now
        || (not (str_eq c.auth_tenant_id who.auth_tenant_id)
            || (not (str_eq c.device_id who.device_id)
                || (not (same_blob c.ed25519_pub who.ed25519_pub)
                    || not (c.binding_version == who.binding_version)))))

abbrev pub is_legacy : BindingState → Bool
is_legacy legacy_reserved = true
is_legacy _ = false

-- `UPDATE content_bindings SET state = 'retired' WHERE auth_tenant_id = ?1`
unfoldable pub retire : String → List ContentBinding → List ContentBinding
retire tenant [] = []
retire tenant (b ∷ bs) =
    (if str_eq b.auth_tenant_id tenant then record b { state = retired } else b) ∷ retire tenant bs

-- `DELETE FROM binding_challenges WHERE auth_tenant_id = ?1`
pub drop_challenges : String → List BindingChallenge → List BindingChallenge
drop_challenges tenant [] = []
drop_challenges tenant (c ∷ cs) =
    let rest = drop_challenges tenant cs in
    if str_eq c.auth_tenant_id tenant then rest else c ∷ rest

abbrev pub new_binding : BindingFinish → ValidatedToken → BindingChallenge → ContentBinding
new_binding request who c = record {
  auth_tenant_id = who.auth_tenant_id;
  content_account_id = c.content_account_id;
  binding_version = suc who.binding_version;
  state = active;
  operation_id = some request.operation_id;
}

-- The tenant's rows are retired and its tokens revoked, and the new namespace is its own.
unfoldable pub allocate :
    ℕ
    → BindingFinish
    → ValidatedToken
    → BindingChallenge
    → AuthDb
    → Result ApiError (AuthDb × ContentBinding)
unfolding retire revoke_where drop_challenges
allocate now request who c s =
    if leb i64_max who.binding_version
    then err (internal "binding revision exhausted")
    else (lift_db
          (insert_binding (new_binding request who c) (retire who.auth_tenant_id s.bindings))
        >>= λ bindings. ok (
          record s {
            bindings = bindings;
            tokens =
                revoke_where (λ row. str_eq row.auth_tenant_id who.auth_tenant_id) now s.tokens;
            challenges = drop_challenges who.auth_tenant_id s.challenges;
          },
          new_binding request who c,
        ))

module _ (p : Primitives) (occupied : String → Bool) where
  unfoldable pub claim :
      ℕ
      → BindingFinish
      → ValidatedToken
      → BindingChallenge
      → AuthDb
      → Result ApiError (AuthDb × ContentBinding)
  unfolding allocate
  claim now request who c s =
      if has_content c.content_account_id s.bindings || occupied c.content_account_id
      then err (conflict "CONTENT_NAMESPACE_UNAVAILABLE" "content namespace unavailable")
      else allocate now request who c s

  -- What the binding that the tenant has, if any, leaves to do for a proved challenge.
  unfoldable pub settle :
      ℕ
      → BindingFinish
      → ValidatedToken
      → BindingChallenge
      → Option ContentBinding
      → AuthDb
      → Result ApiError (AuthDb × ContentBinding)
  unfolding claim
  settle now request who c none s = claim now request who c s
  settle now request who c (some b) s =
      if str_eq b.content_account_id c.content_account_id
      then ok (s, b)
      else if not (is_legacy b.state) || occupied b.content_account_id
      then err (conflict "BINDING_IMMUTABLE" "established content binding cannot change")
      else claim now request who c s

  unfoldable pub prove :
      ℕ → BindingFinish → ValidatedToken → BindingChallenge → Result ApiError (Unit {0})
  unfolding signing_bytes
  prove now request who c =
      if not (length request.pop_signature == 64)
      then err (bad_request "invalid binding signature length")
      else if is_misfit now request who c
      then err (unauthorized "invalid binding proof")
      else (signing_bytes p c >>= λ msg.
          if p.verify_ed25519 who.ed25519_pub msg request.pop_signature
          then ok tt
          else err (unauthorized "invalid binding proof"))

  unfoldable pub proved :
      ℕ
      → BindingFinish
      → ValidatedToken
      → AuthDb
      → BindingChallenge
      → Result ApiError (AuthDb × ContentBinding)
  unfolding prove settle
  proved now request who s c =
      prove now request who c >>= λ _. settle now request who c (binding_for who.auth_tenant_id s) s

  unfoldable pub challenged :
      ℕ → BindingFinish → ValidatedToken → AuthDb → Result ApiError (AuthDb × ContentBinding)
  unfolding proved
  challenged now request who s =
      or_unauthorized "invalid binding challenge"
        (find_challenge who.auth_tenant_id request.operation_id s.challenges)
      >>= proved now request who s

  -- An operation that is already bound is answered again.
  unfoldable pub finish :
      ℕ → String → BindingFinish → AuthDb → Result ApiError (AuthDb × ContentBinding)
  unfolding principal challenged
  finish now credential request s = principal p now credential s >>= λ who.
      elim (binding_for who.auth_tenant_id s) [
        | none ↦ challenged now request who s
        | some b ↦
            if is_operation request.operation_id b.operation_id
            then ok (s, b)
            else challenged now request who s
      ]
