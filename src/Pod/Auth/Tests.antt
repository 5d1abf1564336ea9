-- ===== src/Pod/Auth/Tests.antt =====
-- Requests to the dashboard pod of `home`, whose htpasswd file has the user "ann" with password "pw".
use kubepage_operator.Prelude.{
  ℕ, ◌≤◌, String, none, some, [], ◌∷◌, ◌==◌, ◌||◌, ◌&&◌, ◌≡◌, refl, length, arith,
}
use kubepage_operator.Prelude.Format.{cut}
use kubepage_operator.Prelude.Map
use kubepage_operator.Prelude.Map.{lookup, lookup-nil}
use kubepage_operator.Api.{Dashboard}
use kubepage_operator.Cluster.{Read, found, not_found, SecretReader}
use kubepage_operator.Pod.Htpasswd.{Passwords, parse_htpasswd}
use kubepage_operator.Pod.Auth.{
  Request, Response, served, server_error, unauthorized, too_many_requests, healthz_path,
  max_concurrent_auth_checks, load_named, load_dashboard, load_basic_auth, secret_entries,
  file_entries, store_loaded, invalidate_auth_cache, begin_check, finish_check, authorize, conclude,
  enter, respond,
}
use kubepage_operator.Pod.Auth.Access.{is_served, admits, respond_lem}
use kubepage_operator.Pod.Auth.Freshness.{ExpiresBy, load_basic_auth-expires}
use kubepage_operator.Pod.Auth.Limit.{Checks, at_start, arrives, arrive, idle, Reachable-bound}
use kubepage_operator.Fixtures.{plain_format, home}

abbrev plain : Passwords
plain = record {
  trimmed_lines = λ s. "# users" ∷ "bob:{SHA}x" ∷ s ∷ [];
  compare_hash = λ hash password. hash == "$2y$05" && password == "pw";
  dummy_hash = "$2a$";
}

abbrev login_secret : SecretReader
login_secret namespace name =
    found (record { labels = []; contents = (".htpasswd", "ann:$2y$05") ∷ [] })

abbrev read_home : String → String → Read Dashboard
read_home namespace name = found home

abbrev as_user : String → String → Request
as_user name password = record { path = "/"; credentials = some (name, password) }

auth_computed : Unit {0}
unfolding respond enter conclude authorize begin_check finish_check load_basic_auth load_dashboard
    load_named secret_entries file_entries store_loaded parse_htpasswd cut lookup Map.set Map.delete
    invalidate_auth_cache
auth_computed = tt

abbrev answer : Request → ℕ → Response
answer request in_flight =
    respond plain_format plain read_home login_secret "apps" "home" request 5 5 [] in_flight

respond_tests :
    (answer (as_user "ann" "pw") 0 ≡ served)
    × (answer (as_user "ann" "no") 0 ≡ unauthorized)
    × (answer (as_user "bob" "pw") 0 ≡ unauthorized)
    × (answer (as_user "ann" "pw") 4 ≡ too_many_requests)
    × (answer (record { path = "/healthz"; credentials = none }) 4 ≡ served)
    × (respond plain_format plain read_home
          (λ namespace name. not_found)
          "apps"
          "home"
          (as_user "ann" "pw")
          5
          5
          []
          0
        ≡ server_error)
unfolding auth_computed
respond_tests = (refl, refl, refl, refl, refl, refl)

respond_lem_example : is_served (answer (as_user "ann" "pw") 3) ≡ (
    "/" == healthz_path
    || admits plain_format plain login_secret "apps" (found home) (some ("ann", "pw")))
unfolding lookup
respond_lem_example =
    respond_lem plain_format plain read_home login_secret "apps" "home" (as_user "ann" "pw") 5 5 []
      3 refl refl

nothing-ExpiresBy : ExpiresBy 0 []
unfolding lookup
nothing-ExpiresBy key entry e = cc

-- The Secret is gone when the entry has expired.
load_basic_auth-expires_example :
    (load_basic_auth plain_format plain read_home
      (λ namespace name. not_found)
      "apps"
      "home"
      40000000000
      40000000000
      (load_basic_auth plain_format plain read_home login_secret "apps" "home" 5 5 []).1).0
    ≡ (load_basic_auth plain_format plain read_home
        (λ namespace name. not_found)
        "apps"
        "home"
        40000000000
        40000000000
        []).0
load_basic_auth-expires_example =
    load_basic_auth-expires plain_format plain read_home read_home login_secret
      (λ namespace name. not_found) "apps" "home" 0 5 5 40000000000 40000000000 [] nothing-ExpiresBy
      (omega arith) (omega arith)

abbrev one_running : Checks
one_running = arrive plain [] (some ("eve", "guess")) idle

Reachable-bound_example :
    (one_running.in_flight ≡ length one_running.running)
    × (length one_running.running ≤ max_concurrent_auth_checks)
Reachable-bound_example = Reachable-bound plain (arrives [] (some ("eve", "guess")) at_start)
