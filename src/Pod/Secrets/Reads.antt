-- ===== src/Pod/Secrets/Reads.antt =====
-- Which Secrets the resolution of a widget's secrets reads: two readers that agree on the names of
-- its references give the same result.
use kubepage_operator.Prelude.{
  String, Bool, true, false, Option, none, some, List, [], ◌∷◌, ◌++◌, ◌==◌, ◌||◌, ◌≡◌, refl, ◌∙◌,
  contains, contains-append, arith, eq_refl, Bool-cases, inl, inr,
}
use kubepage_operator.Prelude.Format.{Format}
use kubepage_operator.Prelude.Map.{Map, set, copy}
use kubepage_operator.Prelude.Result.{Result, ok, ◌>>=◌, bind-wrap-congr}
use kubepage_operator.Api.{SecretKeySelector, SecretValueSource, WidgetDefaultsEntry}
use kubepage_operator.Cluster.{SecretReader}
use kubepage_operator.Pod.Secrets.{
  merge_entry, fill_secrets, resolve_source, resolve_secret, resolve_secret_ref_fields,
  resolve_fields, add_secret_ref, resolve_widget_secrets, resolve_ca_cert,
}
use kubepage_operator.Controller.References.{
  selector_names, source_names, cert_names, option_names, secrets_names,
}

or_true : (b : Bool) → (b || true) ≡ true
or_true true = refl
or_true false = refl

module _ (fmt : Format) (one two : SecretReader) (namespace : String) where
  -- The readers agree on the names of a list.
  abbrev pub Agree : List String → Type 0
  Agree names = (n : String) → contains names n ≡ true → one namespace n ≡ two namespace n

  Agree-left : (xs ys : List String) → Agree (xs ++ ys) → Agree xs
  Agree-left xs ys h n k = h n (contains-append xs ys n ∙ rw k refl)

  Agree-right : (xs ys : List String) → Agree (xs ++ ys) → Agree ys
  Agree-right xs ys h n k = h n (contains-append xs ys n ∙ rw k (or_true (contains xs n)))

  Agree-one : (name : String) → Agree (name ∷ []) → one namespace name ≡ two namespace name
  Agree-one name h = h name (rw eq_refl refl)

  resolve_source-reads :
      (ref : Option SecretKeySelector) (value : Option String)
      → Agree (selector_names ref)
      → resolve_source fmt one namespace ref value ≡ resolve_source fmt two namespace ref value
  unfolding resolve_secret
  resolve_source-reads none (some value) h = refl
  resolve_source-reads none none h = refl
  resolve_source-reads (some ref) value h = rw (Agree-one ref.name h) refl

  resolve_secret-reads :
      (src : SecretValueSource)
      → Agree (source_names src)
      → resolve_secret fmt one namespace src ≡ resolve_secret fmt two namespace src
  unfolding resolve_secret
  resolve_secret-reads src h = resolve_source-reads src.secret_key_ref src.value h

  pub resolve_fields-reads :
      (srcs : Map SecretValueSource) (acc : Map String)
      → Agree (secrets_names srcs)
      → resolve_fields fmt one namespace srcs acc ≡ resolve_fields fmt two namespace srcs acc
  unfolding resolve_fields
  resolve_fields-reads [] acc h = refl
  resolve_fields-reads ((field, src) ∷ rest) acc h =
      let here = resolve_secret-reads src (Agree-left (source_names src) (secrets_names rest) h) in
      bind-wrap-congr _ _ _ _ _ here λ value.
        resolve_fields-reads rest (set field value acc)
          (Agree-right (source_names src) (secrets_names rest) h)

  pub add_secret_ref-reads :
      (secret_ref : Option String) (acc : Map String)
      → Agree (option_names secret_ref)
      → add_secret_ref fmt one namespace secret_ref acc
        ≡ add_secret_ref fmt two namespace secret_ref acc
  unfolding add_secret_ref resolve_secret_ref_fields
  add_secret_ref-reads none acc h = refl
  add_secret_ref-reads (some name) acc h = rw (Agree-one name h) refl

  pub resolve_ca_cert-reads :
      (ca_cert : Option SecretValueSource)
      → Agree (cert_names ca_cert)
      → resolve_ca_cert fmt one namespace ca_cert ≡ resolve_ca_cert fmt two namespace ca_cert
  unfolding resolve_ca_cert
  resolve_ca_cert-reads none h = refl
  resolve_ca_cert-reads (some ca) h = rw (resolve_secret-reads ca h) refl

  pub Agree-weaken :
      (xs ys : List String)
      → ((n : String) → contains ys n ≡ true → contains xs n ≡ true)
      → Agree xs
      → Agree ys
  Agree-weaken xs ys sub h n k = h n (sub n k)

-- Filling in the defaults adds no names.
names-set :
    (field : String) (src : SecretValueSource) (m : Map SecretValueSource) (n : String)
    → contains (secrets_names (set field src m)) n ≡ true
    → contains (source_names src ++ secrets_names m) n ≡ true
unfolding set
names-set field src [] n h = h
names-set field src ((j, w) ∷ m) n h = elim (Bool-cases (j == field)) [
  | inl same ↦ simp contains-append (ground (arith, simp contains-append at (rw same at h)))
  | inr other ↦
      let ih = names-set field src m n in
      simp contains-append
        (ground (arith, simp contains-append at ih, simp contains-append at (rw other at h)))
]

names-copy :
    (dst src : Map SecretValueSource) (n : String)
    → contains (secrets_names (copy dst src)) n ≡ true
    → contains (secrets_names src ++ secrets_names dst) n ≡ true
unfolding copy
names-copy dst [] n h = h
names-copy dst ((j, v) ∷ src) n h =
    let ih = names-copy (set j v dst) src n h in
    let stored = names-set j v dst n in
    simp contains-append
      (ground (arith, simp contains-append at ih, simp contains-append at stored))

names-filled :
    (defaults : Map SecretValueSource) (n : String)
    → contains (secrets_names (fill_secrets [] defaults)) n ≡ true
    → contains (secrets_names defaults) n ≡ true
unfolding copy
names-filled [] n h = h
names-filled ((j, v) ∷ ds) n h =
    let all = names-copy [] ((j, v) ∷ ds) n h in
    simp contains-append (ground (arith, simp contains-append at all))

-- The names of a widget type's defaults.
abbrev pub entry_defaults_names : Option WidgetDefaultsEntry → List String
entry_defaults_names none = []
entry_defaults_names (some entry) = secrets_names entry.secrets ++ cert_names entry.ca_cert

pub names-merged :
    (ca_cert : Option SecretValueSource) (entry : Option WidgetDefaultsEntry) (n : String)
    → contains
        (secrets_names (merge_entry [] ca_cert entry).0
          ++ cert_names (merge_entry [] ca_cert entry).1)
        n
      ≡ true
    → contains (cert_names ca_cert ++ entry_defaults_names entry) n ≡ true
unfolding merge_entry
names-merged ca_cert none n h = simp contains-append (ground (arith, h))
names-merged none (some entry) n h =
    simp contains-append (ground (arith, simp contains-append at h, names-filled entry.secrets n))
names-merged (some ca) (some entry) n h =
    simp contains-append (ground (arith, simp contains-append at h, names-filled entry.secrets n))

-- Everything that the resolution of a widget's secrets and of its caCert may read.
abbrev pub read_names :
    Map SecretValueSource
    → Option String
    → Option SecretValueSource
    → Option WidgetDefaultsEntry
    → List String
read_names secrets secret_ref ca_cert entry =
    (secrets_names secrets ++ (option_names secret_ref ++ cert_names ca_cert))
    ++ entry_defaults_names entry

-- The secrets of a widget, and the caCert of its client.
abbrev pub widget_credentials :
    Format
    → SecretReader
    → String
    → String
    → Map SecretValueSource
    → Option String
    → Option SecretValueSource
    → Map WidgetDefaultsEntry
    → Result (Map String × Option String)
widget_credentials fmt reader namespace widget_type secrets secret_ref ca_cert defaults = do
  (ca, resolved) ←
      resolve_widget_secrets fmt reader namespace widget_type secrets secret_ref ca_cert defaults
  ca_pem ← resolve_ca_cert fmt reader namespace ca
  ok (resolved, ca_pem)
