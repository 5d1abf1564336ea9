-- ===== src/Pod/Secrets.antt =====
-- internal/dashboard/poller.go and widget_defaults.go: the resolution of a widget's secrets.
pub mod Precedence
pub mod Reads
pub mod Credentials
mod Tests
use kubepage_operator.Prelude.{String, Option, none, some, List, [], ◌∷◌, ◌==◌, if◌then◌else◌}
use kubepage_operator.Prelude.Format.{Format, text}
use kubepage_operator.Prelude.Map
use kubepage_operator.Prelude.Map.{Map}
use kubepage_operator.Prelude.Result.{Result, ok, err, ◌>>=◌, wrap}
use kubepage_operator.Api.{SecretKeySelector, SecretValueSource, WidgetDefaultsEntry}
use kubepage_operator.Cluster.{Read, found, not_found, failed, Secret, SecretReader}

-- The explicit secrets win over those of the defaults; the own caCert over the default one.
abbrev fill_secrets : Map SecretValueSource → Map SecretValueSource → Map SecretValueSource
fill_secrets secrets [] = secrets
fill_secrets secrets (d ∷ defaults) = Map.copy (Map.copy [] (d ∷ defaults)) secrets

abbrev own_or : Option SecretValueSource → Option SecretValueSource → Option SecretValueSource
own_or none default = default
own_or (some own) default = some own

pub merge_entry :
    Map SecretValueSource
    → Option SecretValueSource
    → Option WidgetDefaultsEntry
    → Map SecretValueSource × Option SecretValueSource
merge_entry secrets ca_cert none = (secrets, ca_cert)
merge_entry secrets ca_cert (some entry) =
    (fill_secrets secrets entry.secrets, own_or ca_cert entry.ca_cert)

unfoldable pub merge_widget_secrets :
    String
    → Map SecretValueSource
    → Option SecretValueSource
    → Map WidgetDefaultsEntry
    → Map SecretValueSource × Option SecretValueSource
unfolding merge_entry
merge_widget_secrets widget_type secrets ca_cert defaults =
    merge_entry secrets ca_cert (Map.lookup widget_type defaults)

module _ (fmt : Format) (secret_reader : SecretReader) (namespace : String) where
  open fmt use {quote}

  key_of : SecretKeySelector → Read Secret → Result String
  key_of ref not_found =
      err
        (text ("secret " ∷ quote ref.name ∷ " does not exist in namespace " ∷ quote namespace ∷ []))
  key_of ref (failed e) = err (text ("getting Secret " ∷ quote ref.name ∷ ": " ∷ e ∷ []))
  key_of ref (found secret) = elim (Map.lookup ref.key secret.contents) [
    | none ↦
        err (text ("key " ∷ quote ref.key ∷ " does not exist in Secret " ∷ quote ref.name ∷ []))
    | some value ↦ ok value
  ]

  resolve_source : Option SecretKeySelector → Option String → Result String
  resolve_source (some ref) value = key_of ref (secret_reader namespace ref.name)
  resolve_source none (some value) = ok value
  resolve_source none none = err "neither value nor secretKeyRef set"

  unfoldable pub resolve_secret : SecretValueSource → Result String
  unfolding resolve_source key_of
  resolve_secret src = resolve_source src.secret_key_ref src.value

  all_keys : String → Read Secret → Result (Map String)
  all_keys name not_found =
      err (text ("secret " ∷ quote name ∷ " does not exist in namespace " ∷ quote namespace ∷ []))
  all_keys name (failed e) = err (text ("getting Secret " ∷ quote name ∷ ": " ∷ e ∷ []))
  all_keys name (found secret) = ok (Map.copy [] secret.contents)

  unfoldable pub resolve_secret_ref_fields : String → Result (Map String)
  unfolding all_keys
  resolve_secret_ref_fields name = all_keys name (secret_reader namespace name)

  abbrev in_field : String → String → String
  in_field field e = text ("resolving secret field " ∷ quote field ∷ ": " ∷ e ∷ [])

  -- The loops over a map of secret sources.
  unfoldable pub resolve_fields : Map SecretValueSource → Map String → Result (Map String)
  resolve_fields [] secrets = ok secrets
  resolve_fields ((field, src) ∷ rest) secrets = do
    value ← wrap (in_field field) (resolve_secret src)
    resolve_fields rest (Map.set field value secrets)

  unfoldable pub add_secret_ref : Option String → Map String → Result (Map String)
  add_secret_ref none secrets = ok secrets
  add_secret_ref (some name) secrets = do
    ref_fields ←
        wrap (λ e. text ("resolving secretRef " ∷ quote name ∷ ": " ∷ e ∷ []))
          (resolve_secret_ref_fields name)
    ok (Map.copy secrets ref_fields)

  -- Gives the caCert to use and the resolved secrets.
  unfoldable pub resolve_widget_secrets :
      String
      → Map SecretValueSource
      → Option String
      → Option SecretValueSource
      → Map WidgetDefaultsEntry
      → Result (Option SecretValueSource × Map String)
  unfolding resolve_fields add_secret_ref merge_widget_secrets
  resolve_widget_secrets widget_type secrets secret_ref ca_cert_src widget_defaults =
      let (defaults, ca_cert) = merge_widget_secrets widget_type [] ca_cert_src widget_defaults in
      do
        from_defaults ← resolve_fields defaults []
        with_ref ← add_secret_ref secret_ref from_defaults
        resolved ← resolve_fields secrets with_ref
        ok (ca_cert, resolved)

  -- The caCert that `httpClientForCACert` resolves, if one is set.
  unfoldable pub resolve_ca_cert : Option SecretValueSource → Result (Option String)
  resolve_ca_cert none = ok none
  resolve_ca_cert (some ca_cert) = do
    ca_pem ← wrap (λ e. text ("resolving caCert: " ∷ e ∷ [])) (resolve_secret ca_cert)
    ok (some ca_pem)
