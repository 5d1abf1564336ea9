-- ===== src/Controller/Rbac/Names.antt =====
-- Which Secrets the Role of a dashboard pod names.
use kubepage_operator.Prelude.{
  String, Bool, true, false, List, [], ◌∷◌, ◌++◌, ◌==◌, ◌&&◌, ◌||◌, ◌≡◌, refl, sym, ◌∙◌,
  if◌then◌else◌, contains, contains-append, arith, eq_iff, Bool-cases, inl, inr,
}
use kubepage_operator.Prelude.Format.{Format}
use kubepage_operator.Prelude.Result.{ok, bind-eq-ok, ok-injective}
use kubepage_operator.Prelude.Sort.{sort, contains-sort}
use kubepage_operator.Api.{Dashboard}
use kubepage_operator.Cluster.{Reader, SecretReader, Read, found, not_found, failed, Secret}
use kubepage_operator.Controller.Rbac.{
  add_names, all_references, is_allowed, label_check, filter_labeled_secrets, is_labeled,
  referenced_secret_names, auth_secret_names, compact_from, compact, add_auth_names, role_names,
}

contains-add_names :
    (ns names : List String) (s : String)
    → contains (add_names ns names) s ≡ (contains ns s || contains names s)
unfolding add_names
contains-add_names [] names s = refl
contains-add_names (n ∷ ns) names s =
    contains-add_names ns (if contains names n then names else n ∷ names) s
    ∙ ground (arith, eq_iff n s)

contains-compact_from :
    (prev : String) (xs : List String) (s : String)
    → contains (compact_from prev xs) s ≡ (prev == s || contains xs s)
unfolding compact_from
contains-compact_from prev [] s = refl
contains-compact_from prev (x ∷ xs) s =
    ground (arith, contains-compact_from x xs s, eq_iff prev x, eq_iff prev s, eq_iff x s)

contains-compact : (xs : List String) (s : String) → contains (compact xs) s ≡ contains xs s
unfolding compact
contains-compact [] s = refl
contains-compact (x ∷ xs) s = contains-compact_from x xs s

contains-add_auth_names :
    (names auth : List String) (s : String)
    → contains (add_auth_names names auth) s ≡ (contains names s || contains auth s)
unfolding add_auth_names
contains-add_auth_names names [] s = ground arith
contains-add_auth_names names (a ∷ auth) s =
    contains-compact (sort (names ++ a ∷ auth)) s
    ∙ contains-sort (names ++ a ∷ auth) s
    ∙ contains-append names (a ∷ auth) s

or_false : (b : Bool) → (b || false) ≡ b
or_false true = refl
or_false false = refl

kept_name :
    (keep : Bool) (name s : String) (names rest : List String) (p : String → Bool)
    → keep ≡ p name
    → contains rest s ≡ (contains names s && p s)
    → contains (if keep then name ∷ rest else rest) s ≡ (contains (name ∷ names) s && p s)
kept_name keep name s names rest p e h = ground (arith, eq_iff name s)

module _ (fmt : Format) (client : Reader) (direct_reader : SecretReader) where
  -- The Secret is there and carries the label.
  abbrev pub allows : Read Secret → Bool
  allows not_found = false
  allows (failed e) = false
  allows (found secret) = is_allowed fmt client direct_reader secret

  check_allows :
      (name : String) (answer : Read Secret) (keep : Bool)
      → label_check fmt client direct_reader name answer ≡ ok keep
      → keep ≡ allows answer
  unfolding label_check
  check_allows name not_found keep e = ground arith
  check_allows name (failed msg) keep e = cc
  check_allows name (found secret) keep e = sym (ok-injective e)

  contains-filter_labeled_secrets :
      (namespace : String) (names out : List String) (s : String)
      → filter_labeled_secrets fmt client direct_reader namespace names ≡ ok out
      → contains out s ≡ (contains names s && allows (direct_reader namespace s))
  unfolding filter_labeled_secrets
  contains-filter_labeled_secrets namespace [] out s e = rw (← ok-injective e) refl
  contains-filter_labeled_secrets namespace (name ∷ names) out s e =
      let (keep, e1, rest1) =
        bind-eq-ok (label_check fmt client direct_reader name (direct_reader namespace name)) _ e in
      let (rest, e2, last) =
        bind-eq-ok (filter_labeled_secrets fmt client direct_reader namespace names) _ rest1 in
      let ih = contains-filter_labeled_secrets namespace names rest s e2 in
      let kept = check_allows name (direct_reader namespace name) keep e1 in
      rw (← ok-injective last)
        (kept_name keep name s names rest (λ n. allows (direct_reader namespace n)) kept ih)

  -- What the Role names, by the references of the Dashboard's objects (`all`).
  abbrev pub permitted : Dashboard → String → Bool
  permitted dash s =
      if is_labeled fmt client direct_reader dash.secret_policy
      then allows (direct_reader dash.namespace s)
      else true

  contains-referenced :
      (dash : Dashboard) (names refs : List String) (s : String)
      → all_references fmt client direct_reader dash ≡ ok refs
      → referenced_secret_names fmt client direct_reader dash ≡ ok names
      → contains names s ≡ (contains refs s && permitted dash s)
  unfolding referenced_secret_names
  contains-referenced dash names refs s er en =
      let out = sort (add_names refs []) in
      let outs : contains out s ≡ contains refs s =
        contains-sort (add_names refs []) s ∙ contains-add_names refs [] s ∙ or_false _ in
      elim (Bool-cases (is_labeled fmt client direct_reader dash.secret_policy)) [
        | inl labeled ↦
            let e = rw (er, labeled) at en in
            rw labeled (contains-filter_labeled_secrets dash.namespace out names s e ∙ rw outs refl)
        | inr free ↦
            let e = rw (er, free) at en in rw (free, ← ok-injective e) (outs ∙ ground arith)
      ]

  -- The names, by the collected references.
  pub contains-role_names :
      (dash : Dashboard) (names refs : List String) (s : String)
      → all_references fmt client direct_reader dash ≡ ok refs
      → role_names fmt client direct_reader dash ≡ ok names
      → contains names s
        ≡ (contains refs s && permitted dash s || contains (auth_secret_names dash) s)
  unfolding role_names referenced_secret_names
  contains-role_names dash names refs s er en =
      let (secret_names, e1, last) =
        bind-eq-ok (referenced_secret_names fmt client direct_reader dash) _ en in
      let found_names = contains-referenced dash secret_names refs s er e1 in
      rw (← ok-injective last, contains-add_auth_names, found_names) refl
