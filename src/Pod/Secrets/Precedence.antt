-- ===== src/Pod/Secrets/Precedence.antt =====
-- Which source a resolved secret field comes from.
use kubepage_operator.Prelude.{
  String, Option, none, some, [], ◌∷◌, ◌≡◌, refl, sym, ◌∙◌, ◌==◌, arith, eq_iff, Bool-cases, inl,
  inr, ap,
}
use kubepage_operator.Prelude.Format.{Format}
use kubepage_operator.Prelude.Map
use kubepage_operator.Prelude.Map.{
  Map, lookup, set, lookup-set, lookup-copy, IsMap-copy, lookup_absent, lookup-cons, lookup-nil,
  IsMap, first_of,
}
use kubepage_operator.Prelude.Result.{Result, ok, err, Result-cases, ok-injective, bind-eq-ok}
use kubepage_operator.Api.{SecretValueSource, WidgetDefaultsEntry}
use kubepage_operator.Cluster.{Read, found, not_found, failed, Secret, SecretReader}
use kubepage_operator.Pod.Secrets.{
  fill_secrets, merge_entry, resolve_secret, all_keys, resolve_secret_ref_fields, resolve_fields,
  add_secret_ref, resolve_widget_secrets,
}

abbrev pub to_option : Result String → Option String
to_option (ok s) = some s
to_option (err e) = none

first_of_nothing {ℓ} : {A : Type ℓ} (o : Option A) → first_of o none ≡ o
first_of_nothing none = refl
first_of_nothing (some s) = refl

filled :
    (k : String) (defaults : Map SecretValueSource)
    → IsMap defaults
    → (lookup k (fill_secrets [] defaults) ≡ lookup k defaults) × IsMap (fill_secrets [] defaults)
unfolding Map.copy lookup
filled k [] h = (refl, tt)
filled k (d ∷ ds) h =
    (lookup-copy k [] (d ∷ ds) h ∙ rw lookup-nil (first_of_nothing _), IsMap-copy [] (d ∷ ds) tt)

abbrev pub default_secrets : Option WidgetDefaultsEntry → Map SecretValueSource
default_secrets none = []
default_secrets (some entry) = entry.secrets

abbrev pub default_ca_cert : Option WidgetDefaultsEntry → Option SecretValueSource
default_ca_cert none = none
default_ca_cert (some entry) = entry.ca_cert

-- The secrets that a widget type has by default, and the caCert.
merged :
    (k : String) (ca_cert : Option SecretValueSource) (entry : Option WidgetDefaultsEntry)
    → IsMap (default_secrets entry)
    → (lookup k (merge_entry [] ca_cert entry).0 ≡ lookup k (default_secrets entry))
      × IsMap (merge_entry [] ca_cert entry).0
      × ((merge_entry [] ca_cert entry).1 ≡ first_of ca_cert (default_ca_cert entry))
unfolding merge_entry
merged k ca_cert none h = (refl, tt, ground arith)
merged k ca_cert (some entry) h =
    let (same, is_map) = filled k entry.secrets h in (same, is_map, ground arith)

module _ (fmt : Format) (secret_reader : SecretReader) (namespace : String) where
  -- What the source of a field gives.
  abbrev pub resolved : Option SecretValueSource → Option String
  resolved none = none
  resolved (some src) = to_option (resolve_secret fmt secret_reader namespace src)

  abbrev contents_of : Read Secret → Map String
  contents_of (found secret) = secret.contents
  contents_of not_found = []
  contents_of (failed e) = []

  -- What the Secret of a secretRef has under a key.
  abbrev pub referred : Option String → String → Option String
  referred none k = none
  referred (some name) k = lookup k (contents_of (secret_reader namespace name))

  lookup-resolve_fields :
      (k : String) (srcs : Map SecretValueSource) (acc m : Map String)
      → IsMap srcs
      → resolve_fields fmt secret_reader namespace srcs acc ≡ ok m
      → lookup k m ≡ first_of (resolved (lookup k srcs)) (lookup k acc)
  unfolding resolve_fields
  lookup-resolve_fields k [] acc m h e = unfold lookup in ground arith
  lookup-resolve_fields k ((field, src) ∷ rest) acc m (h, hs) e =
      elim (Result-cases (resolve_secret fmt secret_reader namespace src)) [
        | inl (value, v) ↦
            let ih = lookup-resolve_fields k rest (set field value acc) m hs (rw v at e) in
            elim (Bool-cases (field == k)) [
              | inl same ↦
                  let absent : lookup k rest ≡ none =
                    rw ((eq_iff field k).0 same) at (lookup_absent field rest h) in
                  rw (ih, lookup-set, lookup-cons) (rw (same, absent) (rw v refl))
              | inr other ↦ rw (ih, lookup-set, lookup-cons) (rw other refl)
            ]
        | inr (msg, v) ↦ cc (rw v at e)
      ]

  all_keys_same :
      (k name : String) (answer : Read Secret) (fields : Map String)
      → IsMap (contents_of answer)
      → all_keys fmt secret_reader namespace name answer ≡ ok fields
      → IsMap fields × (lookup k fields ≡ lookup k (contents_of answer))
  unfolding all_keys
  all_keys_same k name not_found fields h e = cc
  all_keys_same k name (failed msg) fields h e = cc
  all_keys_same k name (found secret) fields h e =
      let same : Map.copy [] secret.contents ≡ fields = cc in
      rw (← same) (
        IsMap-copy [] secret.contents tt,
        lookup-copy k [] secret.contents h ∙ rw lookup-nil (first_of_nothing _),
      )

  lookup-add_secret_ref :
      (k : String) (secret_ref : Option String) (acc m : Map String)
      → ((name : String) → IsMap (contents_of (secret_reader namespace name)))
      → add_secret_ref fmt secret_reader namespace secret_ref acc ≡ ok m
      → lookup k m ≡ first_of (referred secret_ref k) (lookup k acc)
  unfolding add_secret_ref resolve_secret_ref_fields
  lookup-add_secret_ref k none acc m maps e = ground arith
  lookup-add_secret_ref k (some name) acc m maps e =
      let answer = secret_reader namespace name in
      elim (Result-cases (all_keys fmt secret_reader namespace name answer)) [
        | inl (fields, v) ↦
            let (is_map, same) = all_keys_same k name answer fields (maps name) v in
            let e' : Map.copy acc fields ≡ m = ok-injective (rw v at e) in
            rw (← e', lookup-copy k acc fields is_map, same) refl
        | inr (msg, v) ↦ cc (rw v at e)
      ]

  -- Where the maps of sources and of Secret keys hold a key once, and a widget's secrets resolve:
  -- each field has the value of its own source if it names one,
  -- else that of the key of its secretRef's Secret, else that of the Dashboard's default for the
  -- widget's type; and the caCert is the widget's own, else the default one.
  pub resolve_widget_secrets_precedence :
      (widget_type : String) (secrets : Map SecretValueSource) (secret_ref : Option String)
      (ca_cert : Option SecretValueSource) (defaults : Map WidgetDefaultsEntry)
      (out_ca : Option SecretValueSource) (out : Map String) (k : String)
      → IsMap secrets
      → IsMap (default_secrets (lookup widget_type defaults))
      → ((name : String) → IsMap (contents_of (secret_reader namespace name)))
      → resolve_widget_secrets fmt secret_reader namespace widget_type secrets secret_ref ca_cert
          defaults
        ≡ ok (out_ca, out)
      → (lookup k out
          ≡ first_of (resolved (lookup k secrets)) (
              first_of
                (referred secret_ref k)
                (resolved (lookup k (default_secrets (lookup widget_type defaults))))))
        × (out_ca ≡ first_of ca_cert (default_ca_cert (lookup widget_type defaults)))
  unfolding resolve_widget_secrets
  resolve_widget_secrets_precedence widget_type secrets secret_ref ca_cert defaults out_ca out k
        is_secrets is_defaults maps e =
      let entry = lookup widget_type defaults in
      let (same, is_map, ca) = merged k ca_cert entry is_defaults in
      let (from_defaults, e1, rest1) =
        bind-eq-ok (resolve_fields fmt secret_reader namespace (merge_entry [] ca_cert entry).0 [])
          _ e in
      let (with_ref, e2, rest2) =
        bind-eq-ok (add_secret_ref fmt secret_reader namespace secret_ref from_defaults) _ rest1 in
      let (final, e3, last) =
        bind-eq-ok (resolve_fields fmt secret_reader namespace secrets with_ref) _ rest2 in
      let one = lookup-resolve_fields k _ [] from_defaults is_map e1 in
      let two = lookup-add_secret_ref k secret_ref from_defaults with_ref maps e2 in
      let three = lookup-resolve_fields k secrets with_ref final is_secrets e3 in
      let pair = ok-injective last in
      (
        rw (← ap (λ p. p.1) pair, three, two, one) (rw (same, lookup-nil, first_of_nothing) refl),
        sym (ap (λ p. p.0) pair) ∙ ca,
      )
