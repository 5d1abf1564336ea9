-- ===== src/Controller/References.antt =====
-- internal/controller/dashboard_rbac.go, referencedSecretNames: the names of the Secrets that a
-- widget, an entry or a widget default references.
use kubepage_operator.Prelude.{String, Option, none, some, List, [], ◌∷◌, ◌++◌, concat_map}
use kubepage_operator.Prelude.Map.{Map}
use kubepage_operator.Api.{
  SecretKeySelector, SecretValueSource, ServiceWidget, ServiceEntry, InfoWidgetEntry,
  WidgetDefaultsEntry,
}

abbrev pub selector_names : Option SecretKeySelector → List String
selector_names none = []
selector_names (some ref) = ref.name ∷ []

abbrev pub source_names : SecretValueSource → List String
source_names src = selector_names src.secret_key_ref

abbrev pub cert_names : Option SecretValueSource → List String
cert_names none = []
cert_names (some src) = source_names src

abbrev pub option_names : Option String → List String
option_names none = []
option_names (some name) = name ∷ []

-- The loop over a map of secret sources.
abbrev pub secrets_names : Map SecretValueSource → List String
secrets_names [] = []
secrets_names ((field, src) ∷ rest) = source_names src ++ secrets_names rest

abbrev pub widget_names : ServiceWidget → List String
widget_names w = secrets_names w.secrets ++ (option_names w.secret_ref ++ cert_names w.ca_cert)

abbrev pub info_widget_names : InfoWidgetEntry → List String
info_widget_names w = secrets_names w.secrets ++ (option_names w.secret_ref ++ cert_names w.ca_cert)

abbrev pub entry_names : ServiceEntry → List String
entry_names e = concat_map widget_names e.widgets

abbrev pub defaults_names : Map WidgetDefaultsEntry → List String
defaults_names [] = []
defaults_names ((type, entry) ∷ rest) =
    (secrets_names entry.secrets ++ cert_names entry.ca_cert) ++ defaults_names rest
