-- ===== src/Auth/Moves.antt =====
-- What every operation of the auth store, crates/pergamon-sync-server/src/auth, does to the tables of
-- tokens and of bindings.
use pergamon.Common.{
  ℕ, String, Bool, false, Option, none, some, List, ◌∷◌, ◌≡◌, refl, ap, subst, inl, inr, ok,
  >>=-eq-ok, unless-eq-ok, when-eq-ok, ok-injective, Bool-cases, Option-cases, str_eq,
}
use pergamon.Relay.{Bytes}
use pergamon.Auth.{
  Primitives, AuthDb, TokenRow, TokenKind, TokenConfig, ContentBinding, BindingChallenge,
}
use pergamon.Auth.Bearer.{NewToken}
use pergamon.Auth.Accounts.{
  binding_for, insert_binding, finish_registration_at, register_unbound, insert_identity,
  insert_identity-SameGrants, SameGrants, legacy_binding,
}
use pergamon.Auth.Tokens.{
  has_token, token_row, insert_token_row, insert_pair, mint_pair, RotatedTokens, rotate_refresh,
  revoke_where, is_presented, ValidatedToken,
}
use pergamon.Auth.Binding.{
  BindingFinish, or_unauthorized, principal, retire, allocate, new_binding, lift_db-eq-ok,
  is_operation, claim, settle, prove, proved, challenged, finish, find_challenge,
}

pub data TokenMove : List TokenRow → List TokenRow → Type 0 where
  kept : (rows rows' : List TokenRow) → rows' ≡ rows → TokenMove rows rows'
  revoked :
      (rows rows' : List TokenRow) (p : TokenRow → Bool) (now : ℕ)
      → rows' ≡ revoke_where p now rows
      → TokenMove rows rows'
  added :
      (rows rows' : List TokenRow) (row : TokenRow)
      → has_token row.token_id rows ≡ false
      → rows' ≡ row ∷ rows
      → TokenMove rows rows'
  then_tokens :
      (rows between rows' : List TokenRow)
      → TokenMove rows between
      → TokenMove between rows'
      → TokenMove rows rows'

pub data BindingMove : List ContentBinding → List ContentBinding → Type 0 where
  kept : (bs bs' : List ContentBinding) → bs' ≡ bs → BindingMove bs bs'
  retired_by :
      (bs bs' : List ContentBinding) (tenant : String) → bs' ≡ retire tenant bs → BindingMove bs bs'
  inserted :
      (bs bs' : List ContentBinding) (b : ContentBinding)
      → insert_binding b bs ≡ ok bs'
      → BindingMove bs bs'
  then_bindings :
      (bs between bs' : List ContentBinding)
      → BindingMove bs between
      → BindingMove between bs'
      → BindingMove bs bs'

abbrev pub Moves : AuthDb → AuthDb → Type 0
Moves s s' = TokenMove s.tokens s'.tokens × BindingMove s.bindings s'.bindings

module _ (s : AuthDb) where
  abbrev pub stays : Moves s s
  stays = (TokenMove.kept s.tokens s.tokens refl, BindingMove.kept s.bindings s.bindings refl)

  insert_token_row-moves :
      (tenant device : String) (key : Bytes) (t : NewToken) (kind : TokenKind) (expires_at : ℕ)
      (s' : AuthDb)
      → insert_token_row tenant device key t kind expires_at s ≡ ok s'
      → Moves s s'
  unfolding insert_token_row
  insert_token_row-moves tenant device key t kind expires_at s' h =
      let (fresh, done) = unless-eq-ok _ _ _ h in
      subst (Moves s) (ok-injective done) (
        TokenMove.added s.tokens _ (token_row tenant device key t kind expires_at s) fresh refl,
        BindingMove.kept s.bindings s.bindings refl,
      )

pub then_moves : (s t u : AuthDb) → Moves s t → Moves t u → Moves s u
then_moves s t u h k = (
  TokenMove.then_tokens s.tokens t.tokens u.tokens h.0 k.0,
  BindingMove.then_bindings s.bindings t.bindings u.bindings h.1 k.1,
)

pub insert_pair-moves :
    (now refresh_now : ℕ) (a r : NewToken) (tenant device : String) (key : Bytes)
    (config : TokenConfig) (s s' : AuthDb) (t : RotatedTokens)
    → insert_pair now refresh_now a r tenant device key config s ≡ ok (s', t)
    → Moves s s'
unfolding insert_pair
insert_pair-moves now refresh_now a r tenant device key config s s' t h =
    let (s1, first, k) = >>=-eq-ok (insert_token_row tenant device key a _ _ s) _ h in
    let (s2, second, done) = >>=-eq-ok (insert_token_row tenant device key r _ _ s1) _ k in
    subst (Moves s) (ap (λ (x : AuthDb × RotatedTokens). x.0) (ok-injective done)) (
      then_moves s s1 s2 (insert_token_row-moves s tenant device key a _ _ s1 first)
        (insert_token_row-moves s1 tenant device key r _ _ s2 second))

pub mint_pair-moves :
    (now refresh_now : ℕ) (a r : NewToken) (tenant device : String) (key : Bytes)
    (config : TokenConfig) (s s' : AuthDb) (t : RotatedTokens)
    → mint_pair now refresh_now a r tenant device key config s ≡ ok (s', t)
    → Moves s s'
unfolding mint_pair
mint_pair-moves now refresh_now a r tenant device key config s s' t h =
    insert_pair-moves now refresh_now a r tenant device key config s s' t h

pub rotate_refresh-moves :
    (now : ℕ) (a r : NewToken) (id tenant device : String) (key : Bytes) (config : TokenConfig)
    (s s' : AuthDb) (t : RotatedTokens)
    → rotate_refresh now a r id tenant device key config s ≡ ok (s', t)
    → Moves s s'
unfolding rotate_refresh
rotate_refresh-moves now a r id tenant device key config s s' t h =
    let rows = revoke_where (is_presented now id tenant device key s) now s.tokens in
    let cleared : AuthDb = record s { tokens = rows } in
    then_moves s cleared s'
      (
        TokenMove.revoked s.tokens rows (is_presented now id tenant device key s) now refl,
        BindingMove.kept s.bindings s.bindings refl,
      )
      (insert_pair-moves now now a r tenant device key config cleared s' t (when-eq-ok _ _ _ h).1)

pub finish_registration_at-moves :
    (now : ℕ) (identity : String) (bytes : Bytes) (key_id account : String) (s s' : AuthDb)
    (id : String)
    → finish_registration_at now identity bytes key_id account s ≡ ok (s', id)
    → Moves s s'
unfolding finish_registration_at
finish_registration_at-moves now identity bytes key_id account s s' id h =
    let (s1, first, k) = >>=-eq-ok (insert_identity now identity bytes key_id account s) _ h in
    let (bs, second, done) = >>=-eq-ok (insert_binding _ s1.bindings) _ k in
    let same = insert_identity-SameGrants now identity bytes key_id account s s1 first in
    subst (Moves s) (ap (λ (x : AuthDb × String). x.0) (ok-injective done)) (
      TokenMove.kept s.tokens s1.tokens same.0,
      BindingMove.inserted s.bindings bs _
          (subst (λ rows. insert_binding (legacy_binding account) rows ≡ ok bs) same.1 second),
    )

pub register_unbound-moves :
    (now : ℕ) (identity : String) (bytes : Bytes) (key_id tenant : String) (s s' : AuthDb)
    (id : String)
    → register_unbound now identity bytes key_id tenant s ≡ ok (s', id)
    → Moves s s'
unfolding register_unbound
register_unbound-moves now identity bytes key_id tenant s s' id h =
    let (s1, first, done) = >>=-eq-ok (insert_identity now identity bytes key_id tenant s) _ h in
    let same = insert_identity-SameGrants now identity bytes key_id tenant s s1 first in
    subst (Moves s) (ap (λ (x : AuthDb × String). x.0) (ok-injective done))
      (TokenMove.kept s.tokens s1.tokens same.0, BindingMove.kept s.bindings s1.bindings same.1)

pub SameGrants-moves : (s s' : AuthDb) → SameGrants s s' → Moves s s'
SameGrants-moves s s' h =
    (TokenMove.kept s.tokens s'.tokens h.0, BindingMove.kept s.bindings s'.bindings h.1)

allocate-moves :
    (now : ℕ) (request : BindingFinish) (who : ValidatedToken) (c : BindingChallenge)
    (s s' : AuthDb) (b : ContentBinding)
    → allocate now request who c s ≡ ok (s', b)
    → Moves s s'
unfolding allocate
allocate-moves now request who c s s' b h =
    let (bs, second, done) = >>=-eq-ok _ _ (unless-eq-ok _ _ _ h).1 in
    subst (Moves s) (ap (λ (x : AuthDb × ContentBinding). x.0) (ok-injective done)) (
      TokenMove.revoked s.tokens _ _ now refl,
      BindingMove.then_bindings s.bindings (retire who.auth_tenant_id s.bindings) bs
          (BindingMove.retired_by s.bindings _ who.auth_tenant_id refl)
          (BindingMove.inserted _ bs (new_binding request who c) (lift_db-eq-ok _ second)),
    )

module _ (p : Primitives) (occupied : String → Bool) where
  claim-moves :
      (now : ℕ) (request : BindingFinish) (who : ValidatedToken) (c : BindingChallenge)
      (s s' : AuthDb) (b : ContentBinding)
      → claim p occupied now request who c s ≡ ok (s', b)
      → Moves s s'
  unfolding claim
  claim-moves now request who c s s' b h =
      allocate-moves now request who c s s' b (unless-eq-ok _ _ _ h).1

  settle-moves :
      (now : ℕ) (request : BindingFinish) (who : ValidatedToken) (c : BindingChallenge)
      (current : Option ContentBinding) (s s' : AuthDb) (b : ContentBinding)
      → settle p occupied now request who c current s ≡ ok (s', b)
      → Moves s s'
  unfolding settle
  settle-moves now request who c none s s' b h = claim-moves now request who c s s' b h
  settle-moves now request who c (some other) s s' b h =
      elim (Bool-cases (str_eq other.content_account_id c.content_account_id)) [
        | inl e ↦
            subst (Moves s)
              (ap (λ (x : AuthDb × ContentBinding). x.0) (ok-injective (rw (settle, e) at h)))
              (stays s)
        | inr e ↦ claim-moves now request who c s s' b (unless-eq-ok _ _ _ (rw (settle, e) at h)).1
      ]

  challenged-moves :
      (now : ℕ) (request : BindingFinish) (who : ValidatedToken) (s s' : AuthDb)
      (b : ContentBinding)
      → challenged p occupied now request who s ≡ ok (s', b)
      → Moves s s'
  unfolding challenged proved
  challenged-moves now request who s s' b h =
      let (c, _, k) =
        >>=-eq-ok
          (or_unauthorized "invalid binding challenge"
            (find_challenge who.auth_tenant_id request.operation_id s.challenges))
          (proved p occupied now request who s) h in
      let (_, _, done) =
        >>=-eq-ok (prove p occupied now request who c)
          (λ _. settle p occupied now request who c (binding_for who.auth_tenant_id s) s) k in
      settle-moves now request who c (binding_for who.auth_tenant_id s) s s' b done

  pub finish-moves :
      (now : ℕ) (credential : String) (request : BindingFinish) (s s' : AuthDb) (b : ContentBinding)
      → finish p occupied now credential request s ≡ ok (s', b)
      → Moves s s'
  unfolding finish
  finish-moves now credential request s s' b h =
      let (who, _, k) = >>=-eq-ok (principal p now credential s) _ h in
      elim (Option-cases (binding_for who.auth_tenant_id s)) [
        | inl e ↦ challenged-moves now request who s s' b (rw e at k)
        | inr (other, e) ↦
            elim (Bool-cases (is_operation request.operation_id other.operation_id)) [
              | inl t ↦
                  subst (Moves s)
                    (ap (λ (x : AuthDb × ContentBinding). x.0) (ok-injective (rw (e, t) at k)))
                    (stays s)
              | inr t ↦ challenged-moves now request who s s' b (rw (e, t) at k)
            ]
      ]
