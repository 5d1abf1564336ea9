-- ===== src/Controller/Rbac/WidgetNames.antt =====
-- What a widget references, beside the lists of names that referencedSecretNames collects.
use kubepage_operator.Prelude.{
  String, Bool, true, false, Option, none, some, List, [], ◌∷◌, ◌++◌, ◌||◌, ◌≡◌, refl, ◌⊎◌, inl,
  inr, arith, contains, contains-append, In, concat_map, eq_iff, ap, sym, eq_refl,
}
use kubepage_operator.Prelude.Map.{Map}
use kubepage_operator.Api.{SecretKeySelector, SecretValueSource, WidgetDefaultsEntry}
use kubepage_operator.Controller.References.{
  selector_names, source_names, cert_names, option_names, secrets_names, defaults_names,
}

-- A field of `secrets`, the Secret of `secretRef`, or the CA certificate names the Secret.
pub data Names (secrets : Map SecretValueSource) (secret_ref : Option String)
    (ca_cert : Option SecretValueSource) (s : String) : Type 0 where
  by_field :
      (field : String) (src : SecretValueSource) (ref : SecretKeySelector)
      → In (field, src) secrets
      → src.secret_key_ref ≡ some ref
      → ref.name ≡ s
      → Names secrets secret_ref ca_cert s
  by_secret_ref : secret_ref ≡ some s → Names secrets secret_ref ca_cert s
  by_ca_cert :
      (src : SecretValueSource) (ref : SecretKeySelector)
      → ca_cert ≡ some src
      → src.secret_key_ref ≡ some ref
      → ref.name ≡ s
      → Names secrets secret_ref ca_cert s

or_true : (a b : Bool) → (a || b) ≡ true → (a ≡ true) ⊎ (b ≡ true)
or_true true b h = inl refl
or_true false b h = inr h

pub contains-append_true :
    (xs ys : List String) (s : String)
    → contains (xs ++ ys) s ≡ true
    → (contains xs s ≡ true) ⊎ (contains ys s ≡ true)
contains-append_true xs ys s h = or_true (contains xs s) _ (rw contains-append at h)

pub concat_map-In :
    {A : Type 0} (f : A → List String) (xs : List A) (s : String)
    → contains (concat_map f xs) s ≡ true
    → (x : A) × In x xs × (contains (f x) s ≡ true)
concat_map-In f [] s h = absurd (cc h)
concat_map-In f (x ∷ xs) s h = elim (contains-append_true (f x) (concat_map f xs) s h) [
  | inl here ↦ (x, inl refl, here)
  | inr later ↦ let (y, i, found) = concat_map-In f xs s later in (y, inr i, found)
]

contains-option_names :
    (o : Option String) (s : String) → contains (option_names o) s ≡ true → o ≡ some s
contains-option_names none s h = absurd (cc h)
contains-option_names (some n) s h = let e : n ≡ s = ground (arith, eq_iff n s) in rw e refl

contains-selector_names :
    (o : Option SecretKeySelector) (s : String)
    → contains (selector_names o) s ≡ true
    → (ref : SecretKeySelector) × (o ≡ some ref) × (ref.name ≡ s)
contains-selector_names none s h = absurd (cc h)
contains-selector_names (some ref) s h = (ref, refl, ground (arith, eq_iff ref.name s))

contains-cert_names :
    (o : Option SecretValueSource) (s : String)
    → contains (cert_names o) s ≡ true
    → (src : SecretValueSource) × (ref : SecretKeySelector) × (o ≡ some src)
      × (src.secret_key_ref ≡ some ref)
      × (ref.name ≡ s)
contains-cert_names none s h = absurd (cc h)
contains-cert_names (some src) s h =
    let (ref, e, name) = contains-selector_names src.secret_key_ref s h in (src, ref, refl, e, name)

contains-secrets_names :
    (secrets : Map SecretValueSource) (s : String)
    → contains (secrets_names secrets) s ≡ true
    → (field : String) × (src : SecretValueSource) × (ref : SecretKeySelector) × In
        (field, src)
        secrets
      × (src.secret_key_ref ≡ some ref)
      × (ref.name ≡ s)
contains-secrets_names [] s h = absurd (cc h)
contains-secrets_names ((field, src) ∷ secrets) s h =
    elim (contains-append_true (source_names src) (secrets_names secrets) s h) [
      | inl here ↦
          let (ref, e, name) = contains-selector_names src.secret_key_ref s here in
          (field, src, ref, inl refl, e, name)
      | inr later ↦
          let (other, src', ref, i, e, name) = contains-secrets_names secrets s later in
          (other, src', ref, inr i, e, name)
    ]

-- The names that a widget's references give, one way and the other.
pub contains-Names :
    (secrets : Map SecretValueSource) (secret_ref : Option String)
    (ca_cert : Option SecretValueSource) (s : String)
    → contains (secrets_names secrets ++ (option_names secret_ref ++ cert_names ca_cert)) s ≡ true
    → Names secrets secret_ref ca_cert s
contains-Names secrets secret_ref ca_cert s h =
    elim (contains-append_true (secrets_names secrets) _ s h) [
      | inl own ↦
          let (field, src, ref, i, e, name) = contains-secrets_names secrets s own in
          by_field field src ref i e name
      | inr rest ↦
          elim (contains-append_true (option_names secret_ref) (cert_names ca_cert) s rest) [
            | inl named ↦ by_secret_ref (contains-option_names secret_ref s named)
            | inr cert ↦
                let (src, ref, o, e, name) = contains-cert_names ca_cert s cert in
                by_ca_cert src ref o e name
          ]
    ]

selector_names-contains :
    (o : Option SecretKeySelector) (ref : SecretKeySelector) (s : String)
    → o ≡ some ref
    → ref.name ≡ s
    → contains (selector_names o) s ≡ true
selector_names-contains o ref s e name = rw (e, selector_names) (ground (arith, eq_iff ref.name s))

secrets_names-contains :
    (secrets : Map SecretValueSource) (field : String) (src : SecretValueSource) (s : String)
    → In (field, src) secrets
    → contains (source_names src) s ≡ true
    → contains (secrets_names secrets) s ≡ true
secrets_names-contains [] field src s i h = absurd i
secrets_names-contains (x ∷ secrets) field src s (inl e) h =
    let here : contains (source_names x.1) s ≡ true = rw (ap (λ p. p.1) e) at h in
    rw (contains-append, here) refl
secrets_names-contains (x ∷ secrets) field src s (inr i) h =
    let later = secrets_names-contains secrets field src s i h in rw contains-append (ground arith)

pub Names-contains :
    (secrets : Map SecretValueSource) (secret_ref : Option String)
    (ca_cert : Option SecretValueSource) (s : String)
    → Names secrets secret_ref ca_cert s
    → contains (secrets_names secrets ++ (option_names secret_ref ++ cert_names ca_cert)) s ≡ true
Names-contains secrets secret_ref ca_cert s (by_field field src ref i e name) =
    let own =
      secrets_names-contains secrets field src s i
        (selector_names-contains src.secret_key_ref ref s e name) in
    rw (contains-append, own) refl
Names-contains secrets secret_ref ca_cert s (by_secret_ref e) =
    rw (contains-append, contains-append, e) (ground (arith, eq_refl s))
Names-contains secrets secret_ref ca_cert s (by_ca_cert src ref o e name) =
    let cert = selector_names-contains src.secret_key_ref ref s e name in
    rw (contains-append, contains-append, o) (ground arith)

pub contains-defaults_names :
    (defaults : Map WidgetDefaultsEntry) (s : String)
    → contains (defaults_names defaults) s ≡ true
    → (type : String) × (entry : WidgetDefaultsEntry) × In (type, entry) defaults
      × Names entry.secrets none entry.ca_cert s
contains-defaults_names [] s h = absurd (cc h)
contains-defaults_names ((type, entry) ∷ rest) s h =
    elim (contains-append_true (secrets_names entry.secrets ++ cert_names entry.ca_cert)
      (defaults_names rest) s h) [
        | inl here ↦ (type, entry, inl refl, contains-Names entry.secrets none entry.ca_cert s here)
        | inr later ↦
            let (type', entry', i, names) = contains-defaults_names rest s later in
            (type', entry', inr i, names)
      ]

pub defaults_names-contains :
    (defaults : Map WidgetDefaultsEntry) (type : String) (entry : WidgetDefaultsEntry) (s : String)
    → In (type, entry) defaults
    → Names entry.secrets none entry.ca_cert s
    → contains (defaults_names defaults) s ≡ true
defaults_names-contains [] type entry s i h = absurd i
defaults_names-contains ((type', first) ∷ rest) type entry s (inl e) h =
    let same : first ≡ entry = ap (λ p. p.1) (sym e) in
    let here = Names-contains entry.secrets none entry.ca_cert s h in
    let own : contains (secrets_names first.secrets ++ cert_names first.ca_cert) s ≡ true =
      rw same here in
    rw (contains-append, own) refl
defaults_names-contains (x ∷ rest) type entry s (inr i) h =
    let later = defaults_names-contains rest type entry s i h in rw contains-append (ground arith)
