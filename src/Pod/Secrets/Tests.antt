-- ===== src/Pod/Secrets/Tests.antt =====
-- The secrets of the fixtures' widget.
use kubepage_operator.Prelude.{
  String, none, some, List, [], ◌∷◌, ◌≡◌, refl, ◌==◌, if◌then◌else◌, Bool-cases, inl, inr, eq_iff,
}
use kubepage_operator.Prelude.Map
use kubepage_operator.Prelude.Map.{Map, lookup, first_of}
use kubepage_operator.Prelude.Result.{ok, err}
use kubepage_operator.Cluster.{SecretReader, found, not_found}
use kubepage_operator.Pod.Secrets.{
  merge_entry, merge_widget_secrets, key_of, resolve_source, resolve_secret, all_keys,
  resolve_secret_ref_fields, resolve_fields, add_secret_ref, resolve_widget_secrets,
  resolve_ca_cert,
}
use kubepage_operator.Pod.Secrets.Precedence.{
  default_secrets, default_ca_cert, resolved, referred, resolve_widget_secrets_precedence,
}
use kubepage_operator.Pod.Secrets.Reads.{widget_credentials, Agree, read_names}
use kubepage_operator.Pod.Secrets.Credentials.{credentials_same}
use kubepage_operator.Fixtures.{plain_format, from_secret, sonarr, home, secrets, token_secret}

secrets_computed : Unit {0}
unfolding resolve_widget_secrets resolve_fields add_secret_ref resolve_secret_ref_fields all_keys
    resolve_secret resolve_source key_of merge_widget_secrets merge_entry resolve_ca_cert lookup
    Map.set Map.copy
secrets_computed = tt

-- The same Secrets, but for one that the widget does not reference.
abbrev fewer : SecretReader
fewer namespace name = if name == "other" then not_found else found token_secret

abbrev sonarr_secrets : Map String
sonarr_secrets = ("user", "t-1") ∷ ("token", "t-1") ∷ ("key", "t-1") ∷ []

resolve_widget_secrets_tests :
    (resolve_widget_secrets plain_format secrets "apps" "sonarr" sonarr.secrets
        (some "shared")
        none
        home.widget_defaults
      ≡ ok (some (from_secret "defaults"), sonarr_secrets))
    × (resolve_widget_secrets plain_format
          (λ ns n. not_found)
          "apps"
          "plex"
          []
          (some "shared")
          none
          home.widget_defaults
        ≡ err "resolving secretRef shared: secret shared does not exist in namespace apps")
unfolding secrets_computed
resolve_widget_secrets_tests = (refl, refl)

resolve_widget_secrets_precedence_example :
    (lookup "token" sonarr_secrets
      ≡ first_of (resolved plain_format secrets "apps" (lookup "token" sonarr.secrets)) (
          first_of (referred plain_format secrets "apps" (some "shared") "token") (
            resolved plain_format secrets "apps"
              (lookup "token" (default_secrets (lookup "sonarr" home.widget_defaults))))))
    × (some (from_secret "defaults")
        ≡ first_of none (default_ca_cert (lookup "sonarr" home.widget_defaults)))
unfolding secrets_computed
resolve_widget_secrets_precedence_example =
    resolve_widget_secrets_precedence plain_format secrets "apps" "sonarr" sonarr.secrets
      (some "shared") none home.widget_defaults (some (from_secret "defaults")) sonarr_secrets
      "token" (refl, tt) (refl, tt) (λ name. (refl, tt)) refl

abbrev referenced : List String
referenced = read_names sonarr.secrets (some "shared") none (lookup "sonarr" home.widget_defaults)

fewer-Agree : Agree plain_format secrets fewer "apps" referenced
unfolding secrets_computed
fewer-Agree n k = elim (Bool-cases (n == "other")) [
  | inl other ↦ let e : n ≡ "other" = (eq_iff n "other").0 other in absurd (cc (rw e at k))
  | inr this ↦ rw this refl
]

credentials_same_example :
    widget_credentials plain_format secrets "apps" "sonarr" sonarr.secrets
      (some "shared")
      none
      home.widget_defaults
    ≡ widget_credentials plain_format fewer "apps" "sonarr" sonarr.secrets
        (some "shared")
        none
        home.widget_defaults
unfolding secrets_computed
credentials_same_example =
    credentials_same plain_format secrets fewer "apps" "sonarr" sonarr.secrets (some "shared") none
      home.widget_defaults fewer-Agree
