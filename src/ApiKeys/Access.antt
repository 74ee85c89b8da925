-- ===== src/ApiKeys/Access.antt =====
-- Who gets past `ApiKeyAuthenticator.authenticate`.
use rag_pipeline_windows.Base.{
  ℕ, ◌==◌, not, ◌&&◌, String, true, false, Option, some, ◌⊎◌, inl, inr, ◌≡◌, refl, sym, ap, ◌∙◌,
  arith, eq_iff, Bool-cases, Option-cases,
}
use rag_pipeline_windows.Base.Dict.{lookup}
use rag_pipeline_windows.ApiKeys.{KeyRecord, PermissionSet}
use rag_pipeline_windows.ApiKeys.Limits.{check}
use rag_pipeline_windows.ApiKeys.Authenticator.{
  Authenticator, AuthResult, AuthReply, accepted, Moment, enforce, master_result, result_of, reload,
  is_expired, authenticate_record, authenticate_key, authenticate, is_disabled,
}

enforce_lem :
    (t : Moment) (r s : AuthResult) (a : Authenticator) → (enforce t r a).0 ≡ accepted s → r ≡ s
unfolding enforce
enforce_lem t r s a e =
    elim (Bool-cases
      (check t.ticks_per_second r.key_id r.rate_limit_per_minute t.monotonic a.rate_limiter).0.0) [
        | inl c ↦ ground (arith, c, e)
        | inr c ↦ ground (arith, c, e)
      ]

module _ (sha256 : String → String) (parse : String → Option ℕ) where
  -- The identity `r` is the one that the record under the hash of the credential stands for.
  abbrev pub Entitled : Moment → String → Authenticator → AuthResult → Type 0
  Entitled t supplied a r =
      (k : KeyRecord) × (set : PermissionSet) × (lookup (sha256 supplied) (reload t.iso a).0.keys
        ≡ some k)
      × (is_disabled k.status ≡ false)
      × (is_expired sha256 parse t.utc k.expires_at ≡ false)
      × (lookup k.permission_set (reload t.iso (reload t.iso a).1).0.permission_sets ≡ some set)
      × (result_of (sha256 supplied) k set a.default_rate_limit ≡ r)

  record_runs :
      (t : Moment) (key_hash : String) (k : KeyRecord) (set : PermissionSet) (a : Authenticator)
      → is_disabled k.status ≡ false
      → is_expired sha256 parse t.utc k.expires_at ≡ false
      → lookup k.permission_set (reload t.iso a).0.permission_sets ≡ some set
      → authenticate_record sha256 parse t key_hash k a
        ≡ enforce t (result_of key_hash k set a.default_rate_limit) (reload t.iso a).1
  unfolding authenticate_record
  record_runs t key_hash k set a d x n = rw (d, x, n) refl

  record_lem :
      (t : Moment) (supplied : String) (k : KeyRecord) (a : Authenticator) (r : AuthResult)
      → lookup (sha256 supplied) (reload t.iso a).0.keys ≡ some k
      → (authenticate_record sha256 parse t (sha256 supplied) k (reload t.iso a).1).0 ≡ accepted r
      → Entitled t supplied a r
  unfolding authenticate_record
  record_lem t supplied k a r l e = elim (Bool-cases (is_disabled k.status)) [
    | inl d ↦ ground (arith, d, e)
    | inr d ↦ elim (Bool-cases (is_expired sha256 parse t.utc k.expires_at)) [
      | inl x ↦ ground (arith, d, x, e)
      | inr x ↦
          elim (Option-cases
            (lookup k.permission_set (reload t.iso (reload t.iso a).1).0.permission_sets)) [
              | inl n ↦ ground (arith, d, x, n, e)
              | inr (set, n) ↦ (
                k,
                set,
                l,
                d,
                x,
                n,
                enforce_lem t (result_of (sha256 supplied) k set a.default_rate_limit) r
                    (reload t.iso (reload t.iso a).1).1
                    (ap (λ (v : AuthReply × Authenticator). v.0)
                        (sym (record_runs t (sha256 supplied) k set (reload t.iso a).1 d x n))
                      ∙ e),
              )
            ]
    ]
  ]

  key_lem :
      (t : Moment) (supplied : String) (a : Authenticator) (r : AuthResult)
      → (authenticate_key sha256 parse t supplied a).0 ≡ accepted r
      → Entitled t supplied a r
  unfolding authenticate_key
  key_lem t supplied a r e =
      elim (Option-cases (lookup (sha256 supplied) (reload t.iso a).0.keys)) [
        | inl n ↦ ground (arith, n, e)
        | inr (k, n) ↦
            record_lem t supplied k a r n
              (ap (λ (v : AuthReply × Authenticator). v.0) (sym (key_runs k n)) ∙ e)
      ]
    where
      key_runs :
          (k : KeyRecord)
          → lookup (sha256 supplied) (reload t.iso a).0.keys ≡ some k
          → authenticate_key sha256 parse t supplied a
            ≡ authenticate_record sha256 parse t (sha256 supplied) k (reload t.iso a).1
      key_runs k n = rw (n, authenticate_key) refl

  -- A caller that `authenticate` accepts gave a credential that is not empty, and is either the master, who
  -- gave the master token, which is not empty; or stands under the hash of the credential in the store with a
  -- record whose status is not disabled and that has not expired, whose permission set still exists, and the identity
  -- returned has the role that the set's admin flag gives and the limit of the record.
  pub authenticate-Entitled :
      (t : Moment) (supplied master_token : String) (a : Authenticator) (r : AuthResult)
      → (authenticate sha256 parse t supplied master_token a).0 ≡ accepted r
      → ((supplied == "") ≡ false)
        × (((master_token ≡ supplied) × (master_result a.default_rate_limit ≡ r))
            ⊎ Entitled t supplied a r)
  unfolding authenticate
  authenticate-Entitled t supplied master_token a r e = elim (Bool-cases (supplied == "")) [
    | inl z ↦ ground (arith, z, e)
    | inr z ↦ elim (Bool-cases (not (master_token == "") && supplied == master_token)) [
      | inl m ↦ (
        z,
        inl (
          ground (arith, m, eq_iff supplied master_token),
          enforce_lem t (master_result a.default_rate_limit) r a
              (ap (λ (v : AuthReply × Authenticator). v.0) (sym (master_runs z m)) ∙ e),
        ),
      )
      | inr m ↦ (
        z,
        inr (
            key_lem t supplied a r
              (ap (λ (v : AuthReply × Authenticator). v.0) (sym (others_run z m)) ∙ e)),
      )
    ]
  ]
    where
      master_runs :
          (supplied == "") ≡ false
          → (not (master_token == "") && supplied == master_token) ≡ true
          → authenticate sha256 parse t supplied master_token a
            ≡ enforce t (master_result a.default_rate_limit) a
      master_runs z m = rw (z, m) refl

      others_run :
          (supplied == "") ≡ false
          → (not (master_token == "") && supplied == master_token) ≡ false
          → authenticate sha256 parse t supplied master_token a
            ≡ authenticate_key sha256 parse t supplied a
      others_run z m = rw (z, m) refl
