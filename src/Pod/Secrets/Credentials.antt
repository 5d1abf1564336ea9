-- ===== src/Pod/Secrets/Credentials.antt =====
-- The credentials of a widget depend on the Secrets that it references alone.
use kubepage_operator.Prelude.{
  String, true, Option, List, [], ◌++◌, ◌≡◌, refl, ap, contains, contains-append, arith,
}
use kubepage_operator.Prelude.Format.{Format}
use kubepage_operator.Prelude.Map.{Map, lookup}
use kubepage_operator.Prelude.Result.{ok, bind-congr, bind-eq-ok, ok-injective}
use kubepage_operator.Api.{SecretValueSource, WidgetDefaultsEntry}
use kubepage_operator.Cluster.{SecretReader}
use kubepage_operator.Controller.References.{cert_names, option_names, secrets_names}
use kubepage_operator.Pod.Secrets.{
  merge_entry, resolve_fields, add_secret_ref, resolve_widget_secrets, resolve_ca_cert,
}
use kubepage_operator.Pod.Secrets.Reads.{
  Agree, Agree-weaken, resolve_fields-reads, add_secret_ref-reads, resolve_ca_cert-reads,
  names-merged, read_names, widget_credentials,
}

module _ (fmt : Format) (one two : SecretReader) (namespace : String) where
  module _ (widget_type : String) (secrets : Map SecretValueSource) (secret_ref : Option String)
      (ca_cert : Option SecretValueSource) (defaults : Map WidgetDefaultsEntry)
      (h : Agree fmt one two namespace
        (read_names secrets secret_ref ca_cert (lookup widget_type defaults))) where
    abbrev merged : Map SecretValueSource × Option SecretValueSource
    merged = merge_entry [] ca_cert (lookup widget_type defaults)

    weaken :
        (ys : List String)
        → ((n : String)
            → contains ys n ≡ true
            → contains (read_names secrets secret_ref ca_cert (lookup widget_type defaults)) n
              ≡ true)
        → Agree fmt one two namespace ys
    weaken ys sub = Agree-weaken fmt one two namespace _ ys sub h

    on_secrets : Agree fmt one two namespace (secrets_names secrets)
    on_secrets = weaken _ λ n k. simp contains-append (rw k refl)

    on_ref : Agree fmt one two namespace (option_names secret_ref)
    on_ref = weaken _ λ n k. simp contains-append (ground (arith, k))

    on_merged : Agree fmt one two namespace (secrets_names merged.0 ++ cert_names merged.1)
    on_merged = weaken _ λ n k.
        let m = names-merged ca_cert (lookup widget_type defaults) n k in
        simp contains-append (ground (arith, simp contains-append at m))

    on_defaults : Agree fmt one two namespace (secrets_names merged.0)
    on_defaults =
        Agree-weaken fmt one two namespace _ _ (λ n k. simp contains-append (rw k refl)) on_merged

    on_ca : Agree fmt one two namespace (cert_names merged.1)
    on_ca =
        Agree-weaken fmt one two namespace _ _ (λ n k. simp contains-append (ground (arith, k)))
          on_merged

    secrets_same :
        resolve_widget_secrets fmt one namespace widget_type secrets secret_ref ca_cert defaults
        ≡ resolve_widget_secrets fmt two namespace widget_type secrets secret_ref ca_cert defaults
    unfolding resolve_widget_secrets
    secrets_same =
        bind-congr _ _ _ _ (resolve_fields-reads fmt one two namespace merged.0 [] on_defaults)
          λ d e1.
            bind-congr _ _ _ _ (add_secret_ref-reads fmt one two namespace secret_ref d on_ref)
              λ r e2.
                bind-congr _ _ _ _ (resolve_fields-reads fmt one two namespace secrets r on_secrets)
                  λ s e3. refl

    ca_is_merged :
        (ca : Option SecretValueSource) (out : Map String)
        → resolve_widget_secrets fmt one namespace widget_type secrets secret_ref ca_cert defaults
          ≡ ok (ca, out)
        → merged.1 ≡ ca
    unfolding resolve_widget_secrets
    ca_is_merged ca out e =
        let (d, e1, rest1) = bind-eq-ok (resolve_fields fmt one namespace merged.0 []) _ e in
        let (r, e2, rest2) = bind-eq-ok (add_secret_ref fmt one namespace secret_ref d) _ rest1 in
        let (s, e3, last) = bind-eq-ok (resolve_fields fmt one namespace secrets r) _ rest2 in
        ap (λ p. p.0) (ok-injective last)

    -- Two readers that agree on the Secrets that a widget references, by its own fields or by the
    -- defaults of its type, give it the same secrets and the same caCert, errors included.
    pub credentials_same :
        widget_credentials fmt one namespace widget_type secrets secret_ref ca_cert defaults
        ≡ widget_credentials fmt two namespace widget_type secrets secret_ref ca_cert defaults
    credentials_same = bind-congr _ _ _ _ secrets_same λ (ca, out) e.
        let ca_same : resolve_ca_cert fmt one namespace ca ≡ resolve_ca_cert fmt two namespace ca =
          rw (ca_is_merged ca out e) at
            (resolve_ca_cert-reads fmt one two namespace merged.1 on_ca) in
        rw ca_same refl
