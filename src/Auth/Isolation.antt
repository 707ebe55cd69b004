-- ===== src/Auth/Isolation.antt =====
-- Tenants do not share a namespace, crates/pergamon-sync-server/src/auth: the gate of authz.rs over the
-- bindings that the store keeps.
use mathlib.Core.List.{Memᴰ}
use pergamon.Common.{
  ℕ, String, Bool, true, false, Option, none, some, List, [], ◌∷◌, ◌≡◌, refl, sym, ap, ◌∙◌, subst,
  inl, inr, ok, ◌>>=◌, ok-injective, Bool-cases, false≢true, Option-cases, >>=-eq-ok, unless-eq-ok,
  when-eq-ok, str_eq, eq_iff, arith,
}
use pergamon.Relay.{Bytes}
use pergamon.Auth.{
  Primitives, AuthDb, ContentBinding, AuthAccount, TokenRow, TokenKind, access, TokenScope,
  AuthStoreError,
}
use pergamon.Auth.Bearer.{parse_bearer}
use pergamon.Auth.Accounts.{binding_for, find_binding, insert_binding, has_content, is_live_of}
use pergamon.Auth.Tokens.{
  validate_token, load_valid_token, load_row, admits, find_token, bound_content, same_content,
  ValidatedToken, check_scope, validated, principal_of,
}
use pergamon.Auth.Binding.{retire, lift_db, lift_db-eq-ok, or_unauthorized, or_unauthorized-eq-ok}
use pergamon.Auth.Moves.{BindingMove}
use pergamon.Auth.Steps.{Steps, Steps-keep}
use pergamon.Auth.Authz.{
  require_account_auth, authenticate, authorize_account, authorize_target, bearer_from_header,
}

-- No content namespace stands in two rows, retired ones included.
abbrev pub UniqueContent : List ContentBinding → Type 0
UniqueContent [] = Unit
UniqueContent (b ∷ bs) = (has_content b.content_account_id bs ≡ false) × UniqueContent bs

has_content-retire :
    (content tenant : String) (bs : List ContentBinding)
    → has_content content (retire tenant bs) ≡ has_content content bs
unfolding retire
has_content-retire content tenant [] = refl
has_content-retire content tenant (b ∷ bs) = ground (arith, has_content-retire content tenant bs)

UniqueContent-retire :
    (tenant : String) (bs : List ContentBinding)
    → UniqueContent bs
    → UniqueContent (retire tenant bs)
unfolding retire
UniqueContent-retire tenant [] h = tt
UniqueContent-retire tenant (b ∷ bs) h = elim (Bool-cases (str_eq b.auth_tenant_id tenant)) [
  | inl e ↦
      rw e (
        has_content-retire b.content_account_id tenant bs ∙ h.0,
        UniqueContent-retire tenant bs h.1,
      )
  | inr e ↦
      rw e (
        has_content-retire b.content_account_id tenant bs ∙ h.0,
        UniqueContent-retire tenant bs h.1,
      )
]

UniqueContent-insert :
    (b : ContentBinding) (bs bs' : List ContentBinding)
    → insert_binding b bs ≡ ok bs'
    → UniqueContent bs
    → UniqueContent bs'
unfolding insert_binding
UniqueContent-insert b bs bs' h u =
    let (fresh, k) = unless-eq-ok (has_content b.content_account_id bs) AuthStoreError.db _ h in
    subst UniqueContent (ok-injective (unless-eq-ok _ AuthStoreError.db (ok (b ∷ bs)) k).1)
      (fresh, u)

pub UniqueContent-move :
    (bs bs' : List ContentBinding) → BindingMove bs bs' → UniqueContent bs → UniqueContent bs'
UniqueContent-move bs bs' (BindingMove.kept _ _ e) h = subst UniqueContent (sym e) h
UniqueContent-move bs bs' (BindingMove.retired_by _ _ tenant e) h =
    subst UniqueContent (sym e) (UniqueContent-retire tenant bs h)
UniqueContent-move bs bs' (BindingMove.inserted _ _ b e) h = UniqueContent-insert b bs bs' e h
UniqueContent-move bs bs' (BindingMove.then_bindings _ between _ first rest) h =
    UniqueContent-move between bs' rest (UniqueContent-move bs between first h)

-- The row that a tenant is bound by.
find_binding-mem :
    (tenant : String) (bs : List ContentBinding) (b : ContentBinding)
    → find_binding tenant bs ≡ some b
    → (b.auth_tenant_id ≡ tenant) × Memᴰ b bs
unfolding find_binding
find_binding-mem tenant [] b h = cc
find_binding-mem tenant (c ∷ bs) b h = elim (Bool-cases (is_live_of tenant c)) [
  | inl e ↦
      let same : c ≡ b = some_injective (rw e at h) in
      (
        ap (λ (x : ContentBinding). x.auth_tenant_id) (sym same)
            ∙ (eq_iff c.auth_tenant_id tenant).0 (ground (arith, e)),
        Memᴰ.head (sym same),
      )
  | inr e ↦ let (owner, m) = find_binding-mem tenant bs b (rw e at h) in (owner, Memᴰ.tail m)
]
  where
    some_injective :
        {x y : ContentBinding} → ◌≡◌ {A = Option ContentBinding} (some x) (some y) → x ≡ y
    some_injective k = cc

mem-has_content :
    (b : ContentBinding) (bs : List ContentBinding)
    → Memᴰ b bs
    → has_content b.content_account_id bs ≡ true
mem-has_content b [] m = elim m [ ]
mem-has_content b (c ∷ bs) (Memᴰ.head e) =
    subst (λ (x : ContentBinding). has_content x.content_account_id (c ∷ bs) ≡ true) (sym e)
      (rw ((eq_iff c.content_account_id c.content_account_id).1 refl) refl)
mem-has_content b (c ∷ bs) (Memᴰ.tail m) = ground (arith, mem-has_content b bs m)

clash :
    (d c : ContentBinding) (bs : List ContentBinding)
    → has_content d.content_account_id bs ≡ false
    → Memᴰ c bs
    → c.content_account_id ≡ d.content_account_id
    → ⊥
clash d c bs fresh m e =
    false≢true (
      sym (subst (λ content. has_content content bs ≡ false) (sym e) fresh)
      ∙ mem-has_content c bs m)

unique_owner :
    (bs : List ContentBinding) (b c : ContentBinding)
    → UniqueContent bs
    → Memᴰ b bs
    → Memᴰ c bs
    → b.content_account_id ≡ c.content_account_id
    → b.auth_tenant_id ≡ c.auth_tenant_id
unique_owner [] b c u m n e = elim m [ ]
unique_owner (d ∷ bs) b c u (Memᴰ.head p) (Memᴰ.head q) e =
    ap (λ (x : ContentBinding). x.auth_tenant_id) (p ∙ sym q)
unique_owner (d ∷ bs) b c u (Memᴰ.head p) (Memᴰ.tail n) e =
    absurd (clash d c bs u.0 n (sym e ∙ ap (λ (x : ContentBinding). x.content_account_id) p))
unique_owner (d ∷ bs) b c u (Memᴰ.tail m) (Memᴰ.head q) e =
    absurd (clash d b bs u.0 m (e ∙ ap (λ (x : ContentBinding). x.content_account_id) q))
unique_owner (d ∷ bs) b c u (Memᴰ.tail m) (Memᴰ.tail n) e = unique_owner bs b c u.1 m n e

-- The tenant has a live binding of this namespace.
abbrev IsBoundTo : AuthDb → String → Option String → Type 0
IsBoundTo s tenant content =
    (b : ContentBinding) × (binding_for tenant s ≡ some b) × (content ≡ some b.content_account_id)

bound_of_content :
    (s : AuthDb) (tenant : String) (binding : Option ContentBinding) (content : String)
    → binding_for tenant s ≡ binding
    → same_content (bound_content binding) (some content) ≡ true
    → IsBoundTo s tenant (some content)
bound_of_content s tenant none content e h = cc
bound_of_content s tenant (some b) content e h =
    (b, e, ap some (sym ((eq_iff b.content_account_id content).0 h)))

module _ (p : Primitives) (now : ℕ) (s : AuthDb) where
  admits-content :
      (secret : Bytes) (kind : TokenKind) (row : TokenRow)
      → admits p now secret kind s row ≡ true
      → same_content (bound_content (binding_for row.auth_tenant_id s)) row.content_account_id
        ≡ true
  unfolding admits
  admits-content secret kind row h = ground (arith, h)

  validated-fields :
      (row : TokenRow) (scope : TokenScope) (t : ValidatedToken)
      → validated row scope ≡ some t
      → (t.auth_tenant_id ≡ row.auth_tenant_id) × (t.content_account_id ≡ row.content_account_id)
  unfolding validated
  validated-fields row scope t h = ground (arith, h)

  admitted-content :
      (secret : Bytes) (kind : TokenKind) (row : TokenRow) (t : ValidatedToken)
      → admits p now secret kind s row ≡ true
      → (check_scope row.scope row.content_account_id >>= λ scope. ok (validated row scope))
        ≡ ok (some t)
      → same_content (bound_content (binding_for t.auth_tenant_id s)) t.content_account_id ≡ true
  admitted-content secret kind row t e h =
      let (scope, _, k) =
        >>=-eq-ok (check_scope row.scope row.content_account_id) (λ scope. ok (validated row scope))
          h in
      let (tenant, content) = validated-fields row scope t (ok-injective k) in
      rw (tenant, content) (admits-content secret kind row e)

  load_row-content :
      (secret : Bytes) (kind : TokenKind) (found : Option TokenRow) (t : ValidatedToken)
      → load_row p now secret kind s found ≡ ok (some t)
      → same_content (bound_content (binding_for t.auth_tenant_id s)) t.content_account_id ≡ true
  unfolding load_row
  load_row-content secret kind none t h = cc
  load_row-content secret kind (some row) t h = elim (Bool-cases (admits p now secret kind s row)) [
    | inl e ↦ admitted-content secret kind row t e (rw (load_row, e) at h)
    | inr e ↦ cc (rw (load_row, e) at h)
  ]

  load_valid_token-content :
      (bearer : String) (kind : TokenKind) (t : ValidatedToken)
      → load_valid_token p now bearer kind s ≡ ok (some t)
      → same_content (bound_content (binding_for t.auth_tenant_id s)) t.content_account_id ≡ true
  unfolding load_valid_token
  load_valid_token-content bearer kind t h = elim (Option-cases (parse_bearer p bearer)) [
    | inl e ↦ cc (rw (load_valid_token, e) at h)
    | inr ((id, secret), e) ↦
        load_row-content secret kind (find_token id s.tokens) t (rw (load_valid_token, e) at h)
  ]

  principal_of-fields :
      (found : Option ValidatedToken) (w : AuthAccount)
      → principal_of p found ≡ some w
      → (t : ValidatedToken) × (found ≡ some t)
        × (t.auth_tenant_id ≡ w.auth_tenant_id)
        × (t.content_account_id ≡ some w.account_id)
  unfolding principal_of
  principal_of-fields none w h = cc
  principal_of-fields (some t) w h = elim (Option-cases t.content_account_id) [
    | inl e ↦ cc (rw (principal_of, e) at h)
    | inr (account, e) ↦
        let same = some_injective (rw (principal_of, e) at h) in
        (
          t,
          refl,
          ap (λ (x : AuthAccount). x.auth_tenant_id) same,
          e ∙ ap (λ (x : AuthAccount). some x.account_id) same,
        )
  ]
    where
      some_injective : {x y : AuthAccount} → ◌≡◌ {A = Option AuthAccount} (some x) (some y) → x ≡ y
      some_injective k = cc

  principal-bound :
      (bearer : String) (w : AuthAccount)
      → validate_token p now bearer s ≡ ok (some w)
      → IsBoundTo s w.auth_tenant_id (some w.account_id)
  unfolding validate_token
  principal-bound bearer w h =
      let (found, loaded, k) =
        >>=-eq-ok (load_valid_token p now bearer access s) (λ t. ok (principal_of p t)) h in
      let (t, e, tenant, content) = principal_of-fields found w (ok-injective k) in
      let fits = load_valid_token-content bearer access t (loaded ∙ ap ok e) in
      bound_of_content s w.auth_tenant_id (binding_for w.auth_tenant_id s) w.account_id refl
        (rw (tenant, content) at fits)

  authenticate-bound :
      (header : Option String) (w : AuthAccount)
      → authenticate p now header s ≡ ok w
      → IsBoundTo s w.auth_tenant_id (some w.account_id)
  unfolding authenticate
  authenticate-bound header w h =
      let (bearer, _, k) =
        >>=-eq-ok (or_unauthorized "missing or malformed bearer token" (bearer_from_header header))
          (λ bearer.
            lift_db (validate_token p now bearer s)
            >>= or_unauthorized "invalid or expired bearer token")
          h in
      let (found, loaded, answer) =
        >>=-eq-ok (lift_db (validate_token p now bearer s))
          (or_unauthorized "invalid or expired bearer token") k in
      principal-bound bearer w (
        lift_db-eq-ok (validate_token p now bearer s) loaded
        ∙ ap ok (or_unauthorized-eq-ok "invalid or expired bearer token" found answer))

  -- A request that passes the gate of a route of an account has that account as its own.
  gate-bound :
      (path : String) (header : Option String) (target : String) (w : AuthAccount)
      → require_account_auth p now path header (some target) s ≡ ok (some w)
      → IsBoundTo s w.auth_tenant_id (some target)
  unfolding require_account_auth authenticate authorize_account
  gate-bound path header target w h = elim (Bool-cases (str_eq path "/health")) [
    | inl e ↦ cc (rw (require_account_auth, e) at h)
    | inr e ↦
        let (account, known, k) =
          >>=-eq-ok (authenticate p now header s)
            (λ account. authorize_target account (some target) >>= λ _. ok (some account))
            (rw (require_account_auth, e) at h) in
        let (_, allowed, done) =
          >>=-eq-ok (authorize_account account target) (λ _. ok (some account)) k in
        let (same, _) = when-eq-ok (str_eq account.account_id target) _ (ok tt) allowed in
        subst (λ (x : AuthAccount). IsBoundTo s x.auth_tenant_id (some target))
          (some_injective (ok-injective done))
          (subst (λ content. IsBoundTo s account.auth_tenant_id (some content))
            ((eq_iff account.account_id target).0 same) (authenticate-bound header account known))
  ]
    where
      some_injective : {x y : AuthAccount} → ◌≡◌ {A = Option AuthAccount} (some x) (some y) → x ≡ y
      some_injective k = cc

-- In a store that began with no content namespace in two bindings, after any operations of any
-- tenants: two requests that the gate lets through to the routes of one account, with whatever
-- bearer tokens and at whatever times, come from one tenant. The namespaces stay distinct.
pub require_account_auth-isolates :
    (p : Primitives) (occupied : String → Bool) (s s' : AuthDb) (now later : ℕ)
    (path route : String) (header other : Option String) (target : String) (w v : AuthAccount)
    → UniqueContent s.bindings
    → Steps p occupied s s'
    → require_account_auth p now path header (some target) s' ≡ ok (some w)
    → require_account_auth p later route other (some target) s' ≡ ok (some v)
    → (w.auth_tenant_id ≡ v.auth_tenant_id) × UniqueContent s'.bindings
unfolding binding_for
require_account_auth-isolates p occupied s s' now later path route header other target w v u steps h
      k =
    let distinct =
      Steps-keep p occupied (λ x. UniqueContent x.bindings)
        (λ x y m. UniqueContent-move x.bindings y.bindings m.1) s s' steps u in
    let (b, found, content) = gate-bound p now s' path header target w h in
    let (c, again, same) = gate-bound p later s' route other target v k in
    let (owner, here) = find_binding-mem w.auth_tenant_id s'.bindings b found in
    let (rival, there) = find_binding-mem v.auth_tenant_id s'.bindings c again in
    (
      sym owner
          ∙ unique_owner s'.bindings b c distinct here there (text_injective (sym content ∙ same))
          ∙ rival,
      distinct,
    )
  where
    text_injective : {x y : String} → ◌≡◌ {A = Option String} (some x) (some y) → x ≡ y
    text_injective k = cc
