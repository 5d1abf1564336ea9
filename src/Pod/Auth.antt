-- ===== src/Pod/Auth.antt =====
-- internal/dashboard/auth.go: HTTP Basic authentication with a cache of the htpasswd file.
pub mod Access
pub mod Freshness
pub mod Limit
mod Tests
use Prim.Native.Char.{Char}
use Prim.Native.String
use kubepage_operator.Prelude.{
  ℕ, suc, ◌+◌, ◌-◌, ◌*◌, String, Bool, true, false, not, Option, none, some, List, [], ◌∷◌, ◌==◌,
  ◌&&◌, ◌||◌, ltb, if◌then◌else◌, or_else, is_some,
}
use kubepage_operator.Prelude.Format.{Format, text, has_prefix, cut}
use kubepage_operator.Prelude.Map
use kubepage_operator.Prelude.Map.{Map}
use kubepage_operator.Api.{AuthSpec, Dashboard}
use kubepage_operator.Pod.Htpasswd.{Passwords, parse_htpasswd}
use kubepage_operator.Cluster.{Read, found, not_found, failed, Secret, SecretReader}

abbrev pub htpasswd_secret_key : String
htpasswd_secret_key = ".htpasswd"

-- Times and durations are in nanoseconds.
abbrev pub basic_auth_cache_ttl : ℕ
basic_auth_cache_ttl = 30 * 1000000000

pub record AuthCacheEntry : Type 0 where
  pub entries : Map String
  pub enabled : Bool
  pub expiry : ℕ

abbrev pub AuthCache : Type 0
AuthCache = Map AuthCacheEntry

-- What `loadBasicAuth` returns.
pub record Loaded : Type 0 where
  pub entries : Map String
  pub enabled : Bool
  pub error : Option String

abbrev auth_secret : Option AuthSpec → Option String
auth_secret none = none
auth_secret (some auth) = auth.basic_auth_secret_ref

abbrev pub cache_key : String → String → String
cache_key namespace dashboard_name = text (namespace ∷ "/" ∷ dashboard_name ∷ [])

unfoldable pub invalidate_auth_cache : String → String → AuthCache → AuthCache
invalidate_auth_cache namespace dashboard_name cache =
    Map.delete (cache_key namespace dashboard_name) cache

module _ (fmt : Format) (passwords : Passwords) where
  open fmt use {quote}

  abbrev refused : String → Loaded
  refused e = record { entries = []; enabled = true; error = some e }

  -- From the Secret: what is returned, and the entry that is stored, if any.
  file_entries : String → Option String → Loaded
  file_entries name none = refused (
      text
        ("basic auth Secret " ∷ quote name ∷ " has no " ∷ quote htpasswd_secret_key ∷ " key" ∷ []))
  file_entries name (some contents) = record {
    entries = parse_htpasswd passwords contents;
    enabled = true;
    error = none;
  }

  secret_entries : String → Read Secret → Loaded
  unfolding file_entries
  secret_entries name not_found =
      refused (text ("getting basic auth Secret " ∷ quote name ∷ ": not found" ∷ []))
  secret_entries name (failed e) =
      refused (text ("getting basic auth Secret " ∷ quote name ∷ ": " ∷ e ∷ []))
  secret_entries name (found secret) =
      file_entries name (Map.lookup htpasswd_secret_key secret.contents)

  store_loaded : String → ℕ → Loaded → AuthCache → AuthCache
  store_loaded key later loaded cache =
      if is_some loaded.error
      then cache
      else Map.set key
          (record {
            entries = loaded.entries;
            enabled = true;
            expiry = later + basic_auth_cache_ttl;
          })
          cache

  abbrev is_fresh : ℕ → Option AuthCacheEntry → Bool
  is_fresh now none = false
  is_fresh now (some entry) = ltb now entry.expiry

  abbrev cached_entries : Option AuthCacheEntry → Loaded
  cached_entries none = record { entries = []; enabled = false; error = none }
  cached_entries (some entry) = record {
    entries = entry.entries;
    enabled = entry.enabled;
    error = none;
  }

  abbrev open_access : Loaded
  open_access = record { entries = []; enabled = false; error = none }

  -- The code's two reads of the clock are `now` and `later`.
  load_named :
      SecretReader → String → String → Option String → ℕ → ℕ → AuthCache → Loaded × AuthCache
  unfolding secret_entries store_loaded
  load_named secret_reader namespace dashboard_name none now later cache = (open_access, cache)
  load_named secret_reader namespace dashboard_name (some secret) now later cache =
      let key = cache_key namespace dashboard_name in
      let kept = Map.lookup key cache in
      let loaded = secret_entries secret (secret_reader namespace secret) in
      if is_fresh now kept
      then (cached_entries kept, cache)
      else (loaded, store_loaded key later loaded cache)

  load_dashboard :
      SecretReader → String → String → Read Dashboard → ℕ → ℕ → AuthCache → Loaded × AuthCache
  unfolding load_named
  load_dashboard secret_reader namespace dashboard_name not_found now later cache =
      (open_access, cache)
  load_dashboard secret_reader namespace dashboard_name (failed e) now later cache = (
    record { entries = []; enabled = false; error = some (text ("getting Dashboard: " ∷ e ∷ [])) },
    cache,
  )
  load_dashboard secret_reader namespace dashboard_name (found dash) now later cache =
      load_named secret_reader namespace dashboard_name (auth_secret dash.auth) now later cache

  unfoldable pub load_basic_auth :
      (String → String → Read Dashboard)
      → SecretReader
      → String
      → String
      → ℕ
      → ℕ
      → AuthCache
      → Loaded × AuthCache
  unfolding load_dashboard
  load_basic_auth reader secret_reader namespace dashboard_name now later cache =
      load_dashboard secret_reader namespace dashboard_name (reader namespace dashboard_name) now
        later cache

abbrev pub healthz_path : String
healthz_path = "/healthz"

abbrev pub max_concurrent_auth_checks : ℕ
max_concurrent_auth_checks = 4

-- A request, by its path and the user name and password of its Authorization header, if it has them.
pub record Request : Type 0 where
  pub path : String
  pub credentials : Option (String × String)

-- Who answers: the wrapped handler, or the middleware with status 500, 429 or 401.
pub data Response : Type 0 where
  served server_error too_many_requests unauthorized : Response

-- A bcrypt comparison that is under way.
pub record Check : Type 0 where
  pub known : Bool
  pub hash : String
  pub password : String

pub data Entered : Type 0 where
  answered : Response → Entered
  checking : Check → Entered

module _ (passwords : Passwords) where
  open passwords use {compare_hash, dummy_hash}

  -- `in_flight` counts what `authCheckSem` holds.
  unfoldable pub begin_check : Map String → Option (String × String) → ℕ → Entered × ℕ
  begin_check entries none in_flight = (answered unauthorized, in_flight)
  begin_check entries (some (username, password)) in_flight =
      let hash = Map.lookup username entries in
      let check : Check = record {
        known = is_some hash;
        hash = or_else hash dummy_hash;
        password = password;
      } in
      if ltb in_flight max_concurrent_auth_checks
      then (checking check, suc in_flight)
      else (answered too_many_requests, in_flight)

  authorize : Loaded → Option (String × String) → ℕ → Entered × ℕ
  authorize loaded credentials in_flight =
      if is_some loaded.error
      then (answered server_error, in_flight)
      else if not loaded.enabled
      then (answered served, in_flight)
      else begin_check loaded.entries credentials in_flight

  unfoldable pub finish_check : Check → ℕ → Response × ℕ
  finish_check check in_flight = (
    if check.known && compare_hash check.hash check.password then served else unauthorized,
    in_flight - 1,
  )

  -- A request's own answer: nothing that other requests do while it is checked changes it.
  conclude : Entered → Response
  conclude (answered r) = r
  conclude (checking check) = (finish_check check 1).0

module _ (fmt : Format) (passwords : Passwords) (reader : String → String → Read Dashboard)
    (secret_reader : SecretReader) (namespace dashboard_name : String) where
  -- The middleware up to the comparison.
  unfoldable pub enter : Request → ℕ → ℕ → AuthCache → ℕ → (Entered × ℕ) × AuthCache
  unfolding authorize
  enter request now later cache in_flight =
      let (loaded, cache') =
        load_basic_auth fmt passwords reader secret_reader namespace dashboard_name now later
          cache in
      if request.path == healthz_path
      then ((answered served, in_flight), cache)
      else (authorize passwords loaded request.credentials in_flight, cache')

  unfoldable pub respond : Request → ℕ → ℕ → AuthCache → ℕ → Response
  unfolding conclude enter
  respond request now later cache in_flight =
      conclude passwords (enter request now later cache in_flight).0.0
