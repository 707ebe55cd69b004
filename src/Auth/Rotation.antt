-- ===== src/Auth/Rotation.antt =====
-- The single use of a refresh token, `rotate_refresh` of crates/pergamon-sync-server/src/auth/store.rs.
use pergamon.Common.{
  ℕ, String, Bool, true, false, ◌&&◌, Option, none, some, List, [], ◌∷◌, ◌≡◌, refl, sym, ◌∙◌, subst,
  inl, inr, ok, err, Bool-cases, Option-cases, when-eq-ok, str_eq, eq_iff, ◌==◌, All, arith,
}
use pergamon.Relay.{Bytes}
use pergamon.Auth.{Primitives, AuthDb, TokenConfig, TokenRow, TokenKind, invalid_token}
use pergamon.Auth.Bearer.{NewToken, parse_bearer}
use pergamon.Auth.Tokens.{
  RotatedTokens, rotate_refresh, revoke_where, count_where, is_presented, is_unrevoked, has_token,
  find_token, admits, load_row, load_valid_token, same_kind,
}
use pergamon.Auth.Moves.{TokenMove, insert_pair-moves}
use pergamon.Auth.Steps.{Steps, Steps-keep}

-- The primary key of the table of tokens.
abbrev pub UniqueIds : List TokenRow → Type 0
UniqueIds [] = Unit
UniqueIds (row ∷ rows) = (has_token row.token_id rows ≡ false) × UniqueIds rows

-- The token is in the table and its row is revoked.
abbrev IsRevokedAs : String → TokenRow → Type 0
IsRevokedAs id row = str_eq row.token_id id ≡ true → is_unrevoked row ≡ false

abbrev pub IsSpent : String → List TokenRow → Type 0
IsSpent id rows = (has_token id rows ≡ true) × All (IsRevokedAs id) rows

has_token-revoke_where :
    (id : String) (q : TokenRow → Bool) (now : ℕ) (rows : List TokenRow)
    → has_token id (revoke_where q now rows) ≡ has_token id rows
unfolding revoke_where
has_token-revoke_where id q now [] = refl
has_token-revoke_where id q now (row ∷ rows) = ground (arith, has_token-revoke_where id q now rows)

All-revoke_where :
    (id : String) (q : TokenRow → Bool) (now : ℕ) (rows : List TokenRow)
    → All (IsRevokedAs id) rows
    → All (IsRevokedAs id) (revoke_where q now rows)
unfolding revoke_where
All-revoke_where id q now [] h = tt
All-revoke_where id q now (row ∷ rows) h = elim (Bool-cases (q row && is_unrevoked row)) [
  | inl e ↦ rw e ((λ _. refl), All-revoke_where id q now rows h.1)
  | inr e ↦ rw e (h.0, All-revoke_where id q now rows h.1)
]

IsSpent-move :
    (id : String) (rows rows' : List TokenRow)
    → TokenMove rows rows'
    → IsSpent id rows
    → IsSpent id rows'
IsSpent-move id rows rows' (TokenMove.kept _ _ e) h = subst (IsSpent id) (sym e) h
IsSpent-move id rows rows' (TokenMove.revoked _ _ q now e) h =
    subst (IsSpent id) (sym e)
      (has_token-revoke_where id q now rows ∙ h.0, All-revoke_where id q now rows h.1)
IsSpent-move id rows rows' (TokenMove.added _ _ row fresh e) h = subst (IsSpent id) (sym e) (
  ground (arith, h.0),
  ((λ same. absurd (ground (arith, (eq_iff row.token_id id).0 same, fresh, h.0))), h.1),
)
IsSpent-move id rows rows' (TokenMove.then_tokens _ between _ first rest) h =
    IsSpent-move id between rows' rest (IsSpent-move id rows between first h)

UniqueIds-revoke_where :
    (q : TokenRow → Bool) (now : ℕ) (rows : List TokenRow)
    → UniqueIds rows
    → UniqueIds (revoke_where q now rows)
unfolding revoke_where
UniqueIds-revoke_where q now [] h = tt
UniqueIds-revoke_where q now (row ∷ rows) h = elim (Bool-cases (q row && is_unrevoked row)) [
  | inl e ↦
      rw e (
        has_token-revoke_where row.token_id q now rows ∙ h.0,
        UniqueIds-revoke_where q now rows h.1,
      )
  | inr e ↦
      rw e (
        has_token-revoke_where row.token_id q now rows ∙ h.0,
        UniqueIds-revoke_where q now rows h.1,
      )
]

absent-All :
    (id : String) (rows : List TokenRow) → has_token id rows ≡ false → All (IsRevokedAs id) rows
absent-All id [] h = tt
absent-All id (row ∷ rows) h =
    ((λ same. absurd (ground (arith, same, h))), absent-All id rows (ground (arith, h)))

-- A statement that revokes one row, of this id, spends the token.
revoke_one-IsSpent :
    (id : String) (q : TokenRow → Bool) (now : ℕ) (rows : List TokenRow)
    → ((row : TokenRow) → q row ≡ true → str_eq row.token_id id ≡ true)
    → UniqueIds rows
    → count_where q rows ≡ 1
    → IsSpent id (revoke_where q now rows)
unfolding revoke_where count_where
revoke_one-IsSpent id q now [] names u n = absurd (omega (arith, n))
revoke_one-IsSpent id q now (row ∷ rows) names u n = elim (Bool-cases (q row && is_unrevoked row)) [
  | inl e ↦
      let same = names row (ground (arith, e)) in
      let alone : has_token id rows ≡ false =
        subst (λ x. has_token x rows ≡ false) ((eq_iff row.token_id id).0 same) u.0 in
      rw e
        ((rw same refl), ((λ _. refl), All-revoke_where id q now rows (absent-All id rows alone)))
  | inr e ↦
      let rest = revoke_one-IsSpent id q now rows names u.1 (rw e at n) in
      rw e (
        ground (arith, rest.0),
        (
          (λ same. absurd (
              ground (
                arith,
                (eq_iff row.token_id id).0 same,
                u.0,
                rest.0,
                has_token-revoke_where id q now rows,
              ))),
          rest.1,
        ),
      )
]

UniqueIds-move :
    (rows rows' : List TokenRow) → TokenMove rows rows' → UniqueIds rows → UniqueIds rows'
UniqueIds-move rows rows' (TokenMove.kept _ _ e) h = subst UniqueIds (sym e) h
UniqueIds-move rows rows' (TokenMove.revoked _ _ q now e) h =
    subst UniqueIds (sym e) (UniqueIds-revoke_where q now rows h)
UniqueIds-move rows rows' (TokenMove.added _ _ row fresh e) h = subst UniqueIds (sym e) (fresh, h)
UniqueIds-move rows rows' (TokenMove.then_tokens _ between _ first rest) h =
    UniqueIds-move between rows' rest (UniqueIds-move rows between first h)

some_injective : {x y : TokenRow} → ◌≡◌ {A = Option TokenRow} (some x) (some y) → x ≡ y
some_injective h = cc

find_token-IsSpent :
    (id : String) (rows : List TokenRow) (row : TokenRow)
    → All (IsRevokedAs id) rows
    → find_token id rows ≡ some row
    → is_unrevoked row ≡ false
unfolding find_token
find_token-IsSpent id [] row h f = cc
find_token-IsSpent id (other ∷ rows) row h f = elim (Bool-cases (str_eq other.token_id id)) [
  | inl e ↦ subst (λ x. is_unrevoked x ≡ false) (some_injective (rw e at f)) (h.0 e)
  | inr e ↦ find_token-IsSpent id rows row h.1 (rw e at f)
]

count_where-IsSpent :
    (id : String) (q : TokenRow → Bool) (rows : List TokenRow)
    → ((row : TokenRow) → q row ≡ true → str_eq row.token_id id ≡ true)
    → All (IsRevokedAs id) rows
    → count_where q rows ≡ 0
unfolding count_where
count_where-IsSpent id q [] names h = refl
count_where-IsSpent id q (row ∷ rows) names h =
    ground (arith, names row, h.0, count_where-IsSpent id q rows names h.1)

is_presented-names :
    (now : ℕ) (id tenant device : String) (key : Bytes) (s : AuthDb) (row : TokenRow)
    → is_presented now id tenant device key s row ≡ true
    → str_eq row.token_id id ≡ true
unfolding is_presented
is_presented-names now id tenant device key s row h = elim (Bool-cases (str_eq row.token_id id)) [
  | inl e ↦ e
  | inr e ↦ cc (rw e at h)
]

admits-unrevoked :
    (p : Primitives) (now : ℕ) (secret : Bytes) (kind : TokenKind) (s : AuthDb) (row : TokenRow)
    → is_unrevoked row ≡ false
    → admits p now secret kind s row ≡ false
unfolding admits
admits-unrevoked p now secret kind s row h = elim (Bool-cases (same_kind row.kind kind)) [
  | inl e ↦ rw (e, h) refl
  | inr e ↦ rw e refl
]

load_valid_token-IsSpent :
    (p : Primitives) (now : ℕ) (bearer : String) (kind : TokenKind) (id : String) (secret : Bytes)
    (s : AuthDb)
    → parse_bearer p bearer ≡ some (id, secret)
    → IsSpent id s.tokens
    → load_valid_token p now bearer kind s ≡ ok none
unfolding load_valid_token load_row
load_valid_token-IsSpent p now bearer kind id secret s parsed spent =
    elim (Option-cases (find_token id s.tokens)) [
      | inl e ↦ rw (load_valid_token, parsed, e) refl
      | inr (row, e) ↦
          rw (load_valid_token, parsed, e)
            (rw
              (admits-unrevoked p now secret kind s row
                (find_token-IsSpent id s.tokens row spent.1 e))
              refl)
    ]

-- In a store whose token ids are distinct, a refresh token that was rotated is spent for good:
-- after any sequence of operations its bearer string is accepted by nothing, as an access or as a
-- refresh token, and it cannot be rotated again. The ids stay distinct.
pub rotate_refresh-IsSpent :
    (p : Primitives) (occupied : String → Bool) (now : ℕ) (a r : NewToken)
    (id tenant device : String) (key : Bytes) (config : TokenConfig) (s s' s'' : AuthDb)
    (t : RotatedTokens)
    → UniqueIds s.tokens
    → rotate_refresh now a r id tenant device key config s ≡ ok (s', t)
    → Steps p occupied s' s''
    → UniqueIds s''.tokens
      × ((later : ℕ) (bearer : String) (kind : TokenKind) (secret : Bytes)
          → parse_bearer p bearer ≡ some (id, secret)
          → load_valid_token p later bearer kind s'' ≡ ok none)
      × ((later : ℕ) (b q : NewToken) (other machine : String) (pub_key : Bytes)
          → rotate_refresh later b q id other machine pub_key config s'' ≡ err invalid_token)
unfolding rotate_refresh
rotate_refresh-IsSpent p occupied now a r id tenant device key config s s' s'' t u h steps =
    let presented = is_presented now id tenant device key s in
    let (once, pair) = when-eq-ok (count_where presented s.tokens == 1) invalid_token _ h in
    let cleared : AuthDb = record s { tokens = revoke_where presented now s.tokens } in
    let spent =
      revoke_one-IsSpent id presented now s.tokens (is_presented-names now id tenant device key s) u
        (ground (arith, once)) in
    let moved = insert_pair-moves now now a r tenant device key config cleared s' t pair in
    let at_end =
      Steps-keep p occupied (λ x. UniqueIds x.tokens × IsSpent id x.tokens)
        (λ x y m k.
          (UniqueIds-move x.tokens y.tokens m.0 k.0, IsSpent-move id x.tokens y.tokens m.0 k.1))
        s' s'' steps
        (
          UniqueIds-move cleared.tokens s'.tokens moved.0
              (UniqueIds-revoke_where presented now s.tokens u),
          IsSpent-move id cleared.tokens s'.tokens moved.0 spent,
        ) in
    (
      at_end.0,
      λ later bearer kind secret parsed.
          load_valid_token-IsSpent p later bearer kind id secret s'' parsed at_end.1,
      λ later b q other machine pub_key.
          rw
            (count_where-IsSpent id (is_presented later id other machine pub_key s'') s''.tokens
              (is_presented-names later id other machine pub_key s'') at_end.1.1)
            refl,
    )
