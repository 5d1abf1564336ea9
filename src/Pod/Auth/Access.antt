-- ===== src/Pod/Auth/Access.antt =====
-- Whom the middleware lets through.
use kubepage_operator.Prelude.{
  ℕ, String, Bool, true, false, Option, none, some, ◌==◌, ◌||◌, ◌≡◌, refl, ltb, Bool-cases,
  Option-cases, inl, inr,
}
use kubepage_operator.Prelude.Format.{Format}
use kubepage_operator.Prelude.Map.{Map, lookup}
use kubepage_operator.Api.{Dashboard}
use kubepage_operator.Cluster.{Read, found, not_found, failed, Secret, SecretReader}
use kubepage_operator.Pod.Htpasswd.{Passwords, parse_htpasswd}
use kubepage_operator.Pod.Auth.{
  AuthCache, Loaded, Request, Response, served, server_error, too_many_requests, unauthorized,
  htpasswd_secret_key, healthz_path, max_concurrent_auth_checks, auth_secret, cache_key, is_fresh,
  load_named, load_dashboard, load_basic_auth, secret_entries, file_entries, begin_check,
  finish_check, authorize, conclude, enter, respond,
}

abbrev pub is_served : Response → Bool
is_served served = true
is_served server_error = false
is_served too_many_requests = false
is_served unauthorized = false

module _ (fmt : Format) (passwords : Passwords) where
  open passwords use {compare_hash}

  abbrev matches : Option String → String → Bool
  matches none password = false
  matches (some hash) password = compare_hash hash password

  -- The user is in the file, and the password is the user's.
  abbrev pub authenticates : Map String → Option (String × String) → Bool
  authenticates entries none = false
  authenticates entries (some (username, password)) = matches (lookup username entries) password

  abbrev file_admits : Option String → Option (String × String) → Bool
  file_admits none credentials = false
  file_admits (some contents) credentials =
      authenticates (parse_htpasswd passwords contents) credentials

  abbrev secret_admits : Read Secret → Option (String × String) → Bool
  secret_admits not_found credentials = false
  secret_admits (failed e) credentials = false
  secret_admits (found secret) credentials =
      file_admits (lookup htpasswd_secret_key secret.contents) credentials

  abbrev named_admits : SecretReader → String → Option String → Option (String × String) → Bool
  named_admits secret_reader namespace none credentials = true
  named_admits secret_reader namespace (some name) credentials =
      secret_admits (secret_reader namespace name) credentials

  -- Whether the Dashboard and its Secret admit the bearer of some credentials.
  abbrev pub admits : SecretReader → String → Read Dashboard → Option (String × String) → Bool
  admits secret_reader namespace not_found credentials = true
  admits secret_reader namespace (failed e) credentials = false
  admits secret_reader namespace (found dash) credentials =
      named_admits secret_reader namespace (auth_secret dash.auth) credentials

  abbrev passes : Loaded → Option (String × String) → ℕ → Bool
  passes loaded credentials in_flight =
      is_served (conclude passwords (authorize passwords loaded credentials in_flight).0)

  begin_check-authenticates :
      (entries : Map String) (credentials : Option (String × String)) (in_flight : ℕ)
      → ltb in_flight max_concurrent_auth_checks ≡ true
      → is_served (conclude passwords (begin_check passwords entries credentials in_flight).0)
        ≡ authenticates entries credentials
  unfolding begin_check conclude finish_check
  begin_check-authenticates entries none in_flight free = refl
  begin_check-authenticates entries (some (username, password)) in_flight free =
      elim (Option-cases (lookup username entries)) [
        | inl unknown ↦ rw (free, unknown) refl
        | inr (hash, known) ↦
            rw (free, known)
              (elim (Bool-cases (compare_hash hash password)) [
                | inl same ↦ rw same refl
                | inr other ↦ rw other refl
              ])
      ]

  secret_passes :
      (name : String) (answer : Read Secret) (credentials : Option (String × String))
      (in_flight : ℕ)
      → ltb in_flight max_concurrent_auth_checks ≡ true
      → passes (secret_entries fmt passwords name answer) credentials in_flight
        ≡ secret_admits answer credentials
  unfolding secret_entries file_entries authorize conclude
  secret_passes name not_found credentials in_flight free = refl
  secret_passes name (failed e) credentials in_flight free = refl
  secret_passes name (found secret) credentials in_flight free =
      elim (Option-cases (lookup htpasswd_secret_key secret.contents)) [
        | inl missing ↦ rw missing refl
        | inr (contents, present) ↦ rw present (
            begin_check-authenticates (parse_htpasswd passwords contents) credentials in_flight
              free)
      ]

  named_passes :
      (secret_reader : SecretReader) (namespace dashboard_name : String) (name : Option String)
      (credentials : Option (String × String)) (now later : ℕ) (cache : AuthCache) (in_flight : ℕ)
      → ltb in_flight max_concurrent_auth_checks ≡ true
      → is_fresh fmt passwords now (lookup (cache_key namespace dashboard_name) cache) ≡ false
      → passes
          (load_named fmt passwords secret_reader namespace dashboard_name name now later cache).0
          credentials
          in_flight
        ≡ named_admits secret_reader namespace name credentials
  unfolding load_named authorize conclude
  named_passes secret_reader namespace dashboard_name none credentials now later cache in_flight
        free stale =
      refl
  named_passes secret_reader namespace dashboard_name (some name) credentials now later cache
        in_flight free stale =
      rw stale (secret_passes name (secret_reader namespace name) credentials in_flight free)

  dashboard_passes :
      (secret_reader : SecretReader) (namespace dashboard_name : String) (answer : Read Dashboard)
      (credentials : Option (String × String)) (now later : ℕ) (cache : AuthCache) (in_flight : ℕ)
      → ltb in_flight max_concurrent_auth_checks ≡ true
      → is_fresh fmt passwords now (lookup (cache_key namespace dashboard_name) cache) ≡ false
      → passes
          (load_dashboard fmt passwords secret_reader namespace dashboard_name answer now later
            cache).0
          credentials
          in_flight
        ≡ admits secret_reader namespace answer credentials
  unfolding load_dashboard authorize conclude
  dashboard_passes secret_reader namespace dashboard_name not_found credentials now later cache
        in_flight free stale =
      refl
  dashboard_passes secret_reader namespace dashboard_name (failed e) credentials now later cache
        in_flight free stale =
      refl
  dashboard_passes secret_reader namespace dashboard_name (found dash) credentials now later cache
        in_flight free stale =
      named_passes secret_reader namespace dashboard_name (auth_secret dash.auth) credentials now
        later cache in_flight free stale

  -- While fewer than four comparisons run and the cache has no entry of the Dashboard in force, a request reaches the
  -- wrapped handler exactly if it asks for /healthz, or the Dashboard is missing or names no Secret
  -- for basic authentication, or the request's user stands in that Secret's htpasswd file with a hash
  -- that matches the password. So an error in reading the Dashboard, or a Secret that is missing, unreadable
  -- or without the key, lets nobody else in.
  pub respond_lem :
      (reader : String → String → Read Dashboard) (secret_reader : SecretReader)
      (namespace dashboard_name : String) (request : Request) (now later : ℕ) (cache : AuthCache)
      (in_flight : ℕ)
      → ltb in_flight max_concurrent_auth_checks ≡ true
      → is_fresh fmt passwords now (lookup (cache_key namespace dashboard_name) cache) ≡ false
      → is_served (
          respond fmt passwords reader secret_reader namespace dashboard_name request now later
            cache in_flight)
        ≡ (request.path == healthz_path
            || admits secret_reader namespace (reader namespace dashboard_name) request.credentials)
  unfolding respond enter load_basic_auth
  respond_lem reader secret_reader namespace dashboard_name request now later cache in_flight free
        stale =
      elim (Bool-cases (request.path == healthz_path)) [
        | inl health ↦ rw health (unfold conclude in refl)
        | inr page ↦ rw page (
            dashboard_passes secret_reader namespace dashboard_name
              (reader namespace dashboard_name) request.credentials now later cache in_flight free
              stale)
      ]
