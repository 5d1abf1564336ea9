-- ===== src/Pod/Auth/Freshness.antt =====
-- How long the cache can hide a change of the htpasswd file.
use kubepage_operator.Prelude.{
  ℕ, ◌+◌, ◌≤◌, String, false, some, [], ◌==◌, ◌≡◌, refl, Bool-cases, Option-cases, inl, inr, arith,
  is_some, eq_refl,
}
use kubepage_operator.Prelude.Format.{Format}
use kubepage_operator.Prelude.Map.{lookup, lookup-set, lookup-delete, lookup-nil}
use kubepage_operator.Api.{Dashboard}
use kubepage_operator.Cluster.{Read, found, not_found, failed, SecretReader}
use kubepage_operator.Pod.Htpasswd.{Passwords}
use kubepage_operator.Pod.Auth.{
  AuthCache, AuthCacheEntry, Loaded, auth_secret, cache_key, is_fresh, basic_auth_cache_ttl,
  load_named, load_dashboard, load_basic_auth, store_loaded, secret_entries, invalidate_auth_cache,
}

-- Every entry expires by a time.
abbrev pub ExpiresBy : ℕ → AuthCache → Type 0
ExpiresBy t cache =
    (key : String) (entry : AuthCacheEntry) → lookup key cache ≡ some entry → entry.expiry ≤ t

module _ (fmt : Format) (passwords : Passwords) where
  -- A load answers as with an empty cache where the Dashboard's own entry is not in force.
  load_stale :
      (secret_reader : SecretReader) (namespace dashboard_name : String) (answer : Read Dashboard)
      (now later : ℕ) (cache : AuthCache)
      → is_fresh fmt passwords now (lookup (cache_key namespace dashboard_name) cache) ≡ false
      → (load_dashboard fmt passwords secret_reader namespace dashboard_name answer now later
          cache).0
        ≡ (load_dashboard fmt passwords secret_reader namespace dashboard_name answer now later
            []).0
  unfolding load_dashboard load_named
  load_stale secret_reader namespace dashboard_name not_found now later cache h = refl
  load_stale secret_reader namespace dashboard_name (failed e) now later cache h = refl
  load_stale secret_reader namespace dashboard_name (found dash) now later cache h =
      elim (Option-cases (auth_secret dash.auth)) [
        | inl unnamed ↦ rw unnamed refl
        | inr (name, named) ↦ rw (named, h, lookup-nil) refl
      ]

  ExpiresBy-store_loaded :
      (t later : ℕ) (key : String) (loaded : Loaded) (cache : AuthCache)
      → ExpiresBy t cache
      → t ≤ later + basic_auth_cache_ttl
      → ExpiresBy (later + basic_auth_cache_ttl) (store_loaded fmt passwords key later loaded cache)
  unfolding store_loaded
  ExpiresBy-store_loaded t later key loaded cache h le k entry e =
      elim (Bool-cases (is_some loaded.error)) [
        | inl error ↦ let old = h k entry (rw error at e) in omega arith
        | inr stored ↦ elim (Bool-cases (key == k)) [
          | inl same ↦ ground (arith, rw (lookup-set, same) at (rw stored at e))
          | inr other ↦
              let old = h k entry (rw (lookup-set, other) at (rw stored at e)) in omega arith
        ]
      ]

  ExpiresBy-weaken : (t u : ℕ) (cache : AuthCache) → t ≤ u → ExpiresBy t cache → ExpiresBy u cache
  ExpiresBy-weaken t u cache le h key entry e = let old = h key entry e in omega arith

  ExpiresBy-load_dashboard :
      (secret_reader : SecretReader) (namespace dashboard_name : String) (answer : Read Dashboard)
      (t now later : ℕ) (cache : AuthCache)
      → ExpiresBy t cache
      → t ≤ later + basic_auth_cache_ttl
      → ExpiresBy
          (later + basic_auth_cache_ttl)
          (load_dashboard fmt passwords secret_reader namespace dashboard_name answer now later
            cache).1
  unfolding load_dashboard load_named
  ExpiresBy-load_dashboard secret_reader namespace dashboard_name not_found t now later cache h le =
      ExpiresBy-weaken t _ cache le h
  ExpiresBy-load_dashboard secret_reader namespace dashboard_name (failed e) t now later cache h
        le =
      ExpiresBy-weaken t _ cache le h
  ExpiresBy-load_dashboard secret_reader namespace dashboard_name (found dash) t now later cache h
        le =
      elim (Option-cases (auth_secret dash.auth)) [
        | inl unnamed ↦ rw unnamed (ExpiresBy-weaken t _ cache le h)
        | inr (name, named) ↦
            elim (Bool-cases
              (is_fresh fmt passwords now (lookup (cache_key namespace dashboard_name) cache))) [
                | inl fresh ↦ rw (named, fresh) (ExpiresBy-weaken t _ cache le h)
                | inr stale ↦
                    rw (named, stale)
                      (ExpiresBy-store_loaded t later (cache_key namespace dashboard_name)
                        (secret_entries fmt passwords name (secret_reader namespace name)) cache h
                        le)
              ]
      ]

  expired :
      (t now : ℕ) (key : String) (cache : AuthCache)
      → ExpiresBy t cache
      → t ≤ now
      → is_fresh fmt passwords now (lookup key cache) ≡ false
  expired t now key cache h le = elim (Option-cases (lookup key cache)) [
    | inl absent ↦ rw absent refl
    | inr (entry, stored) ↦ let old = h key entry stored in rw stored (ground arith)
  ]

  -- Where every entry of the cache expires at most 30 seconds after the clock of a load, another load
  -- that starts 30 seconds or more after that clock gives what it would give with an empty cache,
  -- whatever the Dashboard and the Secrets have become: no htpasswd file is used for longer.
  pub load_basic_auth-expires :
      (reader reader' : String → String → Read Dashboard)
      (secret_reader secret_reader' : SecretReader) (namespace dashboard_name : String)
      (t now later now' later' : ℕ) (cache : AuthCache)
      → ExpiresBy t cache
      → t ≤ later + basic_auth_cache_ttl
      → later + basic_auth_cache_ttl ≤ now'
      → (load_basic_auth fmt passwords reader' secret_reader' namespace dashboard_name now' later'
          (load_basic_auth fmt passwords reader secret_reader namespace dashboard_name now later
            cache).1).0
        ≡ (load_basic_auth fmt passwords reader' secret_reader' namespace dashboard_name now' later'
            []).0
  unfolding load_basic_auth
  load_basic_auth-expires reader reader' secret_reader secret_reader' namespace dashboard_name t now
        later now' later' cache h le after =
      let kept =
        ExpiresBy-load_dashboard secret_reader namespace dashboard_name
          (reader namespace dashboard_name) t now later cache h le in
      load_stale secret_reader' namespace dashboard_name (reader' namespace dashboard_name) now'
        later' _ (expired (later + basic_auth_cache_ttl) now' _ _ kept after)

  -- After InvalidateAuthCache a load of the Dashboard gives what it would give with an empty cache.
  pub load_basic_auth-invalidate :
      (reader : String → String → Read Dashboard) (secret_reader : SecretReader)
      (namespace dashboard_name : String) (now later : ℕ) (cache : AuthCache)
      → (load_basic_auth fmt passwords reader secret_reader namespace dashboard_name now later
          (invalidate_auth_cache namespace dashboard_name cache)).0
        ≡ (load_basic_auth fmt passwords reader secret_reader namespace dashboard_name now later
            []).0
  unfolding load_basic_auth invalidate_auth_cache
  load_basic_auth-invalidate reader secret_reader namespace dashboard_name now later cache =
      load_stale secret_reader namespace dashboard_name (reader namespace dashboard_name) now later
        _ (rw (lookup-delete, eq_refl) refl)
