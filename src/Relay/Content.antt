-- ===== src/Relay/Content.antt =====
-- Reading blobs: `blob_get` and `blob_probe` of crates/pergamon-sync-server/src/store.rs.
use mathlib.Core.List.{Perm, perm_middle}
use mathlib.Core.List.Perm
use pergamon.Common.{
  String, ◌≡◌, refl, sym, subst, ap, ◌∙◌, inl, inr, Bool, true, false, ◌&&◌, Option, none, some,
  List, [], ◌∷◌, ◌++◌, arith, any, All, All-append, str_eq, eq_iff, eq_refl, Bool-cases, ok,
  if◌then◌else◌,
}
use pergamon.Relay.{Bytes, BlobRow, SyncStore, blob_put, insert_blob, blob_present}
use pergamon.Relay.Isolation.{blob_put-insert_blob}

-- `SELECT bytes FROM blobs WHERE account_id = ?1 AND ct_hash = ?2`, over the rows
pub bytes_of : String → String → List BlobRow → Option Bytes
bytes_of account hash [] = none
bytes_of account hash (b ∷ rows) =
    if str_eq b.account_id account && str_eq b.ct_hash hash
    then some b.bytes
    else bytes_of account hash rows

pub blob_get : SyncStore → String → String → Option Bytes
unfolding bytes_of
blob_get s account hash = bytes_of account hash s.blobs

pub blob_probe : SyncStore → String → List String → List String × List String
blob_probe s account [] = ([], [])
blob_probe s account (hash ∷ hashes) =
    let (present, missing) = blob_probe s account hashes in
    if blob_present s account hash then (hash ∷ present, missing) else (present, hash ∷ missing)

-- Every stored blob stands under the hash of its bytes.
abbrev pub IsAddressed : (Bytes → String) → SyncStore → Type 0
IsAddressed sha256 s = All (λ (b : BlobRow). sha256 b.bytes ≡ b.ct_hash) s.blobs

some-injective : {x y : Bytes} → some x ≡ some y → x ≡ y
some-injective h = cc

bytes_of-present :
    (account hash : String) (rows : List BlobRow)
    → any (λ b. str_eq b.account_id account && str_eq b.ct_hash hash) rows ≡ true
    → (bytes : Bytes) × (bytes_of account hash rows ≡ some bytes)
unfolding bytes_of
bytes_of-present account hash [] h = cc
bytes_of-present account hash (b ∷ rows) h =
    elim (Bool-cases (str_eq b.account_id account && str_eq b.ct_hash hash)) [
      | inl here ↦ (b.bytes, rw (bytes_of, here) refl)
      | inr other ↦
          let (bytes, e) = bytes_of-present account hash rows (rw other at h) in
          (bytes, rw (bytes_of, other) e)
    ]

bytes_of-hash :
    (sha256 : Bytes → String) (account hash : String) (rows : List BlobRow) (bytes : Bytes)
    → All (λ (b : BlobRow). sha256 b.bytes ≡ b.ct_hash) rows
    → bytes_of account hash rows ≡ some bytes
    → sha256 bytes ≡ hash
unfolding bytes_of
bytes_of-hash sha256 account hash [] bytes v h = cc
bytes_of-hash sha256 account hash (b ∷ rows) bytes v h =
    elim (Bool-cases (str_eq b.account_id account && str_eq b.ct_hash hash)) [
      | inl here ↦
          let same : b.bytes ≡ bytes = some-injective (rw (here, bytes_of) at h) in
          sym (ap sha256 same) ∙ v.0 ∙ (eq_iff b.ct_hash hash).0 (ground (arith, here))
      | inr other ↦ bytes_of-hash sha256 account hash rows bytes v.1 (rw (other, bytes_of) at h)
    ]

any-last :
    (p : BlobRow → Bool) (rows : List BlobRow) (b : BlobRow)
    → p b ≡ true
    → any p (rows ++ b ∷ []) ≡ true
any-last p [] b h = ground arith
any-last p (x ∷ rows) b h = ground (arith, any-last p rows b h)

module _ (sha256 : Bytes → String) (s : SyncStore) (account hash : String) (bytes : Bytes) where
  blob_present-insert_blob : blob_present (insert_blob s account hash bytes) account hash ≡ true
  unfolding insert_blob blob_present
  blob_present-insert_blob = elim (Bool-cases (blob_present s account hash)) [
    | inl old ↦ rw old old
    | inr new ↦ rw new (any-last _ s.blobs _ (rw (eq_refl account, eq_refl hash)))
  ]

  insert_blob-IsAddressed :
      sha256 bytes ≡ hash
      → IsAddressed sha256 s
      → IsAddressed sha256 (insert_blob s account hash bytes)
  unfolding insert_blob
  insert_blob-IsAddressed e v = elim (Bool-cases (blob_present s account hash)) [
    | inl old ↦ rw old v
    | inr new ↦ rw new (All-append _ s.blobs _ v (e, tt))
  ]

  blob_put-hash :
      {s' : SyncStore} → blob_put sha256 s account hash bytes ≡ ok s' → sha256 bytes ≡ hash
  unfolding blob_put
  blob_put-hash h = elim (Bool-cases (str_eq (sha256 bytes) hash)) [
    | inl e ↦ (eq_iff (sha256 bytes) hash).0 e
    | inr e ↦ cc (rw (e, blob_put) at h)
  ]

  -- In a store where every blob stands under the hash of its bytes, and for bytes that share their
  -- hash with no others, an upload that succeeds is read back as it was sent and is no longer
  -- missing in a probe; the store it leaves is of the same kind.
  pub blob_get-blob_put :
      (s' : SyncStore)
      → IsAddressed sha256 s
      → ((x : Bytes) → sha256 x ≡ sha256 bytes → x ≡ bytes)
      → blob_put sha256 s account hash bytes ≡ ok s'
      → (blob_get s' account hash ≡ some bytes)
        × (blob_probe s' account (hash ∷ []) ≡ (hash ∷ [], []))
        × IsAddressed sha256 s'
  unfolding blob_get blob_probe blob_present
  blob_get-blob_put s' v alone h =
      let e = blob_put-hash h in
      let inserted = blob_put-insert_blob sha256 s account hash bytes h in
      let here =
        subst (λ (x : SyncStore). blob_present x account hash ≡ true) inserted
          blob_present-insert_blob in
      let addressed = subst (IsAddressed sha256) inserted (insert_blob-IsAddressed e v) in
      let (found, got) = bytes_of-present account hash s'.blobs here in
      let same =
        alone found (bytes_of-hash sha256 account hash s'.blobs found addressed got ∙ sym e) in
      (got ∙ ap some same, rw here refl, addressed)

-- A probe splits the hashes: the two lists have the same hashes as the request, each as often, the
-- first those that the account has and the second those that it does not have.
pub blob_probe-splits :
    (s : SyncStore) (account : String) (hashes : List String)
    → Perm ((blob_probe s account hashes).0 ++ (blob_probe s account hashes).1) hashes
      × All (λ h. blob_present s account h ≡ true) (blob_probe s account hashes).0
      × All (λ h. blob_present s account h ≡ false) (blob_probe s account hashes).1
unfolding blob_probe
blob_probe-splits s account [] = (Perm.refl [], tt, tt)
blob_probe-splits s account (hash ∷ hashes) =
    let rest = blob_probe s account hashes in
    let (same, present, missing) = blob_probe-splits s account hashes in
    elim (Bool-cases (blob_present s account hash)) [
      | inl here ↦ rw here (Perm.cons hash same, (here, present), missing)
      | inr gone ↦
          rw gone
            (Perm.trans (perm_middle rest.0 rest.1) (Perm.cons hash same), present, (gone, missing))
    ]
