-- ===== src/Auth.antt =====
-- The auth store of a multi-tenant sync server, crates/pergamon-sync-server/src/auth: who may act on
-- which content namespace. A SQL table is the list of its rows. The hash, base64, the random values
-- and the clock are parameters; times are milliseconds that do not pass the largest i64.
pub mod Bearer
pub mod Accounts
pub mod Tokens
pub mod Statement
pub mod Binding
pub mod Moves
pub mod Steps
pub mod Authz
pub mod Rotation
pub mod Isolation
pub mod Minting
mod Tests
use pergamon.Common.{ℕ, ◌+◌, min, String, Bool, Option, List}
use pergamon.Relay.{Bytes}

abbrev pub i64_max : ℕ
i64_max = 9223372036854775807

abbrev pub saturating_add_i64 : ℕ → ℕ → ℕ
saturating_add_i64 a b = min i64_max (a + b)

-- Calls of other libraries: BLAKE3, URL-safe base64, the bytes of a text, and the
-- check of an Ed25519 signature.
pub record Primitives : Type 0 where
  pub hash : Bytes → Bytes
  pub encode : Bytes → String
  pub decode : String → Option Bytes
  pub utf8 : String → Bytes
  pub verify_ed25519 : (key msg signature : Bytes) → Bool

pub data TokenKind : Type 0 where
  access refresh : TokenKind

pub data TokenScope : Type 0 where
  control content : TokenScope

pub record TokenConfig : Type 0 where
  pub access_ttl_ms : ℕ
  pub refresh_ttl_ms : ℕ

abbrev pub default_token_config : TokenConfig
default_token_config = record { access_ttl_ms = 3600000; refresh_ttl_ms = 2592000000 }

pub record AuthAccount : Type 0 where
  pub account_id : String
  pub device_id : String
  pub auth_tenant_id : String
  pub binding_version : ℕ
  pub token_id : String

-- The states that the CHECK of the column admits.
pub data BindingState : Type 0 where
  legacy_reserved active retired : BindingState

pub record ContentBinding : Type 0 where
  pub auth_tenant_id : String
  pub content_account_id : String
  pub binding_version : ℕ
  pub state : BindingState
  pub operation_id : Option String

pub record TokenRow : Type 0 where
  pub token_id : String
  pub auth_tenant_id : String
  pub device_id : String
  pub ed25519_pub : Bytes
  pub token_hash : Bytes
  pub kind : TokenKind
  pub expires_at : ℕ
  pub revoked_at : Option ℕ
  pub content_account_id : Option String
  pub binding_version : ℕ
  pub scope : TokenScope

pub record AccountRow : Type 0 where
  pub opaque_record : Bytes
  pub oprf_key_id : String
  pub created_at : ℕ

pub record FailureState : Type 0 where
  pub failure_count : ℕ
  pub locked_until_ms : ℕ

-- A challenge that the relay has issued and keeps until it expires.
pub record BindingChallenge : Type 0 where
  pub server_instance_id : String
  pub operation_id : String
  pub challenge_id : String
  pub nonce : Bytes
  pub auth_tenant_id : String
  pub content_account_id : String
  pub device_id : String
  pub ed25519_pub : Bytes
  pub binding_version : ℕ
  pub expires_at_ms : ℕ

pub record AuthDb : Type 0 where
  pub accounts : List (String × AccountRow)
  pub account_map : List (String × String)
  pub failures : List (String × FailureState)
  pub tokens : List TokenRow
  pub bindings : List ContentBinding
  pub challenges : List BindingChallenge
  pub server_instance_id : String

pub data AuthStoreError : Type 0 where
  handle_exists invalid_token db : AuthStoreError

-- The errors of crates/pergamon-sync-server/src/error.rs that the routes below answer with.
pub data ApiError : Type 0 where
  bad_request unauthorized forbidden internal unavailable : String → ApiError
  conflict : (code message : String) → ApiError

abbrev pub api_error : AuthStoreError → ApiError
api_error handle_exists = conflict "CONFLICT" "an account already exists for this identity"
api_error invalid_token = unauthorized "invalid or expired token"
api_error db = internal "internal storage error"
