-- ===== src/Auth/Steps.antt =====
-- The operations of the auth store, crates/pergamon-sync-server/src/auth, as one step relation on its
-- state, and sequences of them.
use pergamon.Common.{
  ℕ, String, Bool, not, ◌≡◌, refl, sym, ap, subst, inl, inr, ok, ok-injective, Bool-cases,
  Option-cases, Result-cases, unless-eq-ok,
}
use pergamon.Relay.{Bytes}
use pergamon.Throttle.{ThrottleConfig}
use pergamon.Auth.{Primitives, AuthDb, TokenConfig, ContentBinding, BindingChallenge}
use pergamon.Auth.Bearer.{NewToken}
use pergamon.Auth.Accounts.{
  finish_registration_at, register_unbound, record_failure, reset_failures, SameGrants, binding_for,
}
use pergamon.Auth.Tokens.{
  RotatedTokens, mint_pair, rotate_refresh, revoke_device, revoke_token, ValidatedToken,
  is_of_device, is_token,
}
use pergamon.Auth.Binding.{
  BindingStart, BindingFinish, principal, is_valid_start, is_other_operation, drop_expired,
  find_challenge, issue, start, finish,
}
use pergamon.Auth.Moves.{
  Moves, SameGrants-moves, TokenMove, BindingMove, mint_pair-moves, rotate_refresh-moves,
  finish_registration_at-moves, register_unbound-moves, finish-moves,
}

module _ (p : Primitives) (occupied : String → Bool) where
  pub data Step : AuthDb → AuthDb → Type 0 where
    registered_legacy :
        (s s' : AuthDb) (now : ℕ) (identity : String) (bytes : Bytes) (key_id account id : String)
        → finish_registration_at now identity bytes key_id account s ≡ ok (s', id)
        → Step s s'
    registered :
        (s s' : AuthDb) (now : ℕ) (identity : String) (bytes : Bytes) (key_id tenant id : String)
        → register_unbound now identity bytes key_id tenant s ≡ ok (s', id)
        → Step s s'
    failed :
        (s s' : AuthDb) (now : ℕ) (throttle : ThrottleConfig) (identity : String)
        → s' ≡ (record_failure now throttle identity s).0
        → Step s s'
    reset : (s s' : AuthDb) (identity : String) → s' ≡ reset_failures identity s → Step s s'
    minted :
        (s s' : AuthDb) (now refresh_now : ℕ) (a r : NewToken) (tenant device : String)
        (key : Bytes) (config : TokenConfig) (t : RotatedTokens)
        → mint_pair now refresh_now a r tenant device key config s ≡ ok (s', t)
        → Step s s'
    rotated :
        (s s' : AuthDb) (now : ℕ) (a r : NewToken) (id tenant device : String) (key : Bytes)
        (config : TokenConfig) (t : RotatedTokens)
        → rotate_refresh now a r id tenant device key config s ≡ ok (s', t)
        → Step s s'
    device_revoked :
        (s s' : AuthDb) (now : ℕ) (tenant device : String)
        → s' ≡ (revoke_device now tenant device s).0
        → Step s s'
    token_revoked :
        (s s' : AuthDb) (now : ℕ) (id : String) → s' ≡ (revoke_token now id s).0 → Step s s'
    started :
        (s s' : AuthDb) (now : ℕ) (challenge_id : String) (nonce : Bytes) (credential : String)
        (request : BindingStart)
        → s' ≡ (start p now challenge_id nonce credential request s).0
        → Step s s'
    finished :
        (s s' : AuthDb) (now : ℕ) (credential : String) (request : BindingFinish)
        (b : ContentBinding)
        → finish p occupied now credential request s ≡ ok (s', b)
        → Step s s'

  pub data Steps : AuthDb → AuthDb → Type 0 where
    done : (s s' : AuthDb) → s' ≡ s → Steps s s'
    step : (s between s' : AuthDb) → Step s between → Steps between s' → Steps s s'

  issue-SameGrants :
      (now : ℕ) (challenge_id : String) (nonce : Bytes) (request : BindingStart)
      (who : ValidatedToken) (s s' : AuthDb) (c : BindingChallenge)
      → issue now challenge_id nonce request who s ≡ ok (s', c)
      → SameGrants s s'
  unfolding issue
  issue-SameGrants now challenge_id nonce request who s s' c h =
      elim (Option-cases (find_challenge who.auth_tenant_id request.operation_id s.challenges)) [
        | inl e ↦
            subst (SameGrants s)
              (ap (λ (x : AuthDb × BindingChallenge). x.0)
                (ok-injective (unless-eq-ok _ _ _ (rw (issue, e) at h)).1))
              (refl, refl)
        | inr (other, e) ↦
            subst (SameGrants s)
              (ap (λ (x : AuthDb × BindingChallenge). x.0)
                (ok-injective (unless-eq-ok _ _ _ (rw (issue, e) at h)).1))
              (refl, refl)
      ]

  start-SameGrants :
      (now : ℕ) (challenge_id : String) (nonce : Bytes) (credential : String)
      (request : BindingStart) (s : AuthDb)
      → SameGrants s (start p now challenge_id nonce credential request s).0
  unfolding start
  start-SameGrants now challenge_id nonce credential request s =
      elim (Result-cases (principal p now credential s)) [
        | inl (e, h) ↦ rw (start, h) (refl, refl)
        | inr (who, h) ↦ elim (Bool-cases (not (is_valid_start request))) [
          | inl v ↦ rw (start, h, v) (refl, refl)
          | inr v ↦
              elim (Bool-cases (is_other_operation request (binding_for who.auth_tenant_id s))) [
                | inl o ↦ rw (start, h, v, o) (refl, refl)
                | inr o ↦
                    let swept : AuthDb = record s { challenges = drop_expired now s.challenges } in
                    elim (Result-cases (issue now challenge_id nonce request who swept)) [
                      | inl (e, k) ↦ rw (start, h, v, o, k) (refl, refl)
                      | inr ((s', c), k) ↦
                          rw (start, h, v, o, k)
                            (issue-SameGrants now challenge_id nonce request who swept s' c k)
                    ]
              ]
        ]
      ]

  pub step-moves : (s s' : AuthDb) → Step s s' → Moves s s'
  unfolding record_failure reset_failures revoke_device revoke_token
  step-moves s s' (Step.registered_legacy _ _ now identity bytes key_id account id h) =
      finish_registration_at-moves now identity bytes key_id account s s' id h
  step-moves s s' (Step.registered _ _ now identity bytes key_id tenant id h) =
      register_unbound-moves now identity bytes key_id tenant s s' id h
  step-moves s s' (Step.failed _ _ now throttle identity h) =
      SameGrants-moves s s' (ap (λ (x : AuthDb). x.tokens) h, ap (λ (x : AuthDb). x.bindings) h)
  step-moves s s' (Step.reset _ _ identity h) =
      SameGrants-moves s s' (ap (λ (x : AuthDb). x.tokens) h, ap (λ (x : AuthDb). x.bindings) h)
  step-moves s s' (Step.minted _ _ now refresh_now a r tenant device key config t h) =
      mint_pair-moves now refresh_now a r tenant device key config s s' t h
  step-moves s s' (Step.rotated _ _ now a r id tenant device key config t h) =
      rotate_refresh-moves now a r id tenant device key config s s' t h
  step-moves s s' (Step.device_revoked _ _ now tenant device h) = (
    TokenMove.revoked s.tokens s'.tokens (is_of_device tenant device) now
        (ap (λ (x : AuthDb). x.tokens) h),
    BindingMove.kept s.bindings s'.bindings (ap (λ (x : AuthDb). x.bindings) h),
  )
  step-moves s s' (Step.token_revoked _ _ now id h) = (
    TokenMove.revoked s.tokens s'.tokens (is_token id) now (ap (λ (x : AuthDb). x.tokens) h),
    BindingMove.kept s.bindings s'.bindings (ap (λ (x : AuthDb). x.bindings) h),
  )
  step-moves s s' (Step.started _ _ now challenge_id nonce credential request h) =
      SameGrants-moves s s' (
        subst (SameGrants s) (sym h) (start-SameGrants now challenge_id nonce credential request s))
  step-moves s s' (Step.finished _ _ now credential request b h) =
      finish-moves p occupied now credential request s s' b h

  -- What every move of the two tables keeps is kept by any sequence of operations.
  pub Steps-keep {ℓ} :
      (P : AuthDb → Type ℓ)
      → ((s s' : AuthDb) → Moves s s' → P s → P s')
      → (s s' : AuthDb) → Steps s s'
      → P s
      → P s'
  Steps-keep P keep s s' (Steps.done _ _ e) h = subst P (sym e) h
  Steps-keep P keep s s' (Steps.step _ between _ first rest) h =
      Steps-keep P keep between s' rest (keep s between (step-moves s between first) h)
