-- ===== src/Pod/Auth/Limit.antt =====
-- The bound on the comparisons that run at once, over every interleaving of requests.
use kubepage_operator.Prelude.{
  ℕ, suc, ◌≤◌, String, Option, none, some, List, [], ◌∷◌, ◌++◌, ◌≡◌, refl, length, ltb, arith, ap,
  Bool-cases, inl, inr,
}
use kubepage_operator.Prelude.Map.{Map}
use kubepage_operator.Pod.Htpasswd.{Passwords}
use kubepage_operator.Pod.Auth.{
  Check, Entered, answered, checking, max_concurrent_auth_checks, begin_check, finish_check,
}

-- The semaphore, and the comparisons that run.
pub record Checks : Type 0 where
  pub in_flight : ℕ
  pub running : List Check

abbrev pub idle : Checks
idle = record { in_flight = 0; running = [] }

abbrev started : Entered → List Check → List Check
started (answered r) running = running
started (checking check) running = check ∷ running

module _ (passwords : Passwords) where
  -- A request comes as far as the comparison, with the entries that it has loaded.
  abbrev pub arrive : Map String → Option (String × String) → Checks → Checks
  arrive entries credentials s =
      let (entered, in_flight) = begin_check passwords entries credentials s.in_flight in
      record { in_flight = in_flight; running = started entered s.running }

  -- Of the requests under way, any may come next, and any comparison may end.
  pub data Reachable : Checks → Type 0 where
    at_start : Reachable idle
    arrives :
        {s : Checks} (entries : Map String) (credentials : Option (String × String))
        → Reachable s
        → Reachable (arrive entries credentials s)
    finishes :
        {n : ℕ} (before : List Check) (check : Check) (after : List Check)
        → Reachable (record { in_flight = n; running = before ++ check ∷ after })
        → Reachable
            (record { in_flight = (finish_check passwords check n).1; running = before ++ after })

  abbrev IsBounded : Checks → Type 0
  IsBounded s = (s.in_flight ≡ length s.running) × (s.in_flight ≤ max_concurrent_auth_checks)

  arrive-IsBounded :
      (entries : Map String) (credentials : Option (String × String)) (s : Checks)
      → IsBounded s
      → IsBounded (arrive entries credentials s)
  unfolding begin_check
  arrive-IsBounded entries none s h = h
  arrive-IsBounded entries (some (username, password)) s (same, bound) =
      elim (Bool-cases (ltb s.in_flight max_concurrent_auth_checks)) [
        | inl free ↦ rw free (ap suc same, ground arith)
        | inr full ↦ rw full (same, bound)
      ]

  length-insert :
      (before : List Check) (check : Check) (after : List Check)
      → length (before ++ check ∷ after) ≡ suc (length (before ++ after))
  length-insert [] check after = refl
  length-insert (c ∷ before) check after = ap suc (length-insert before check after)

  Reachable-IsBounded : {s : Checks} → Reachable s → IsBounded s
  unfolding finish_check
  Reachable-IsBounded at_start = (refl, omega arith)
  Reachable-IsBounded (arrives {s} entries credentials h) =
      arrive-IsBounded entries credentials s (Reachable-IsBounded h)
  Reachable-IsBounded (finishes before check after h) =
      let (same, bound) = Reachable-IsBounded h in
      let one = length-insert before check after in (omega arith, omega arith)

  -- However requests and the ends of their comparisons interleave, the semaphore holds as many
  -- places as comparisons run, and at most four run at once.
  pub Reachable-bound :
      {s : Checks}
      → Reachable s
      → (s.in_flight ≡ length s.running) × (length s.running ≤ max_concurrent_auth_checks)
  Reachable-bound h = let (same, bound) = Reachable-IsBounded h in (same, omega arith)
