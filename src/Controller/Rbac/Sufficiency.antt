-- ===== src/Controller/Rbac/Sufficiency.antt =====
-- The Role is enough: with only the Secrets that it names, every bound widget gets the credentials
-- that it would get with all of them.
use kubepage_operator.Prelude.{
  ℕ, String, true, false, List, [], ◌∷◌, ◌++◌, ◌==◌, ◌≡◌, refl, if◌then◌else◌, concat_map, contains,
  contains-append, contains-concat_map, In, arith, Bool-cases, inl, inr,
}
use kubepage_operator.Prelude.Format.{Format}
use kubepage_operator.Prelude.Map.{Map, lookup}
use kubepage_operator.Prelude.Result.{ok}
use kubepage_operator.Api.{
  ref_name, bound_to, ServiceWidget, ServiceEntry, ServiceCard, service_entries, InfoWidgetEntry,
  InfoWidget, info_widget_entries, WidgetDefaultsEntry, Dashboard,
}
use kubepage_operator.Cluster.{Reader, SecretReader, failed, items}
use kubepage_operator.Controller.Binding.{namespace_dashboard_count}
use kubepage_operator.Controller.References.{
  widget_names, info_widget_names, entry_names, defaults_names,
}
use kubepage_operator.Pod.Secrets.Reads.{entry_defaults_names, widget_credentials, Agree}
use kubepage_operator.Pod.Secrets.Credentials.{credentials_same}
use kubepage_operator.Controller.Rbac.{
  card_names, info_names, all_references, is_labeled, role_names,
}
use kubepage_operator.Controller.Rbac.Names.{contains-role_names}

-- What the API server lets the dashboard pod read: the Secrets that its Role names.
abbrev pub restrict : List String → SecretReader → SecretReader
restrict names reader namespace name =
    if contains names name then reader namespace name else failed "forbidden"

names-defaults :
    (widget_type : String) (defaults : Map WidgetDefaultsEntry) (n : String)
    → contains (entry_defaults_names (lookup widget_type defaults)) n ≡ true
    → contains (defaults_names defaults) n ≡ true
unfolding lookup
names-defaults widget_type [] n h = h
names-defaults widget_type ((j, entry) ∷ rest) n h = elim (Bool-cases (j == widget_type)) [
  | inl same ↦ simp contains-append (ground (arith, simp contains-append at (rw same at h)))
  | inr other ↦
      let ih = names-defaults widget_type rest n (rw other at h) in
      simp contains-append (ground (arith, ih))
]

module _ (fmt : Format) (client : Reader) (direct_reader secret_reader : SecretReader)
    (dash : Dashboard) where
  -- The answers of the client, and the Role that comes of them.
  pub record IsRole (names : List String) (count : ℕ) (cards : List ServiceCard)
      (infos : List InfoWidget) : Type 0 where
    pub role : role_names fmt client direct_reader dash ≡ ok names
    pub unlabeled : is_labeled fmt client direct_reader dash.secret_policy ≡ false
    pub counted : namespace_dashboard_count client dash.namespace ≡ ok count
    pub cards_listed : client.list_service_cards dash.namespace ≡ items cards
    pub infos_listed : client.list_info_widgets dash.namespace ≡ items infos

  module _ {names : List String} {count : ℕ} {cards : List ServiceCard} {infos : List InfoWidget}
      (h : IsRole names count cards infos) where
    refs : List String
    refs =
        concat_map (card_names dash count) cards
        ++ (concat_map (info_names dash count) infos ++ defaults_names dash.widget_defaults)

    refs_are : all_references fmt client direct_reader dash ≡ ok refs
    unfolding all_references refs
    refs_are = rw (h.counted, h.cards_listed, h.infos_listed) refl

    role-refs : (n : String) → contains refs n ≡ true → contains names n ≡ true
    role-refs n k =
        let exact =
          contains-role_names fmt client direct_reader dash names refs n refs_are h.role in
        rw exact (rw (h.unlabeled, k) refl)

    refs-card_names :
        (card : ServiceCard) (entry : ServiceEntry) (w : ServiceWidget) (n : String)
        → In card cards
        → bound_to (ref_name card.dashboard_ref) dash.name count ≡ true
        → In entry (service_entries card)
        → In w entry.widgets
        → contains (widget_names w) n ≡ true
        → contains refs n ≡ true
    unfolding refs card_names
    refs-card_names card entry w n c b e i k =
        let in_entry = contains-concat_map widget_names w entry.widgets n i k in
        let in_card = contains-concat_map entry_names entry (service_entries card) n e in_entry in
        let in_all = contains-concat_map (card_names dash count) card cards n c (rw b in_card) in
        simp contains-append (rw in_all refl)

    refs-info_names :
        (info : InfoWidget) (entry : InfoWidgetEntry) (n : String)
        → In info infos
        → bound_to (ref_name info.dashboard_ref) dash.name count ≡ true
        → In entry (info_widget_entries info)
        → contains (info_widget_names entry) n ≡ true
        → contains refs n ≡ true
    unfolding refs info_names
    refs-info_names info entry n c b e k =
        let in_info =
          contains-concat_map info_widget_names entry (info_widget_entries info) n e k in
        let in_all = contains-concat_map (info_names dash count) info infos n c (rw b in_info) in
        simp contains-append (ground (arith, in_all))

    refs-defaults_names :
        (widget_type : String) (n : String)
        → contains (entry_defaults_names (lookup widget_type dash.widget_defaults)) n ≡ true
        → contains refs n ≡ true
    unfolding refs
    refs-defaults_names widget_type n k =
        simp contains-append (ground (arith, names-defaults widget_type dash.widget_defaults n k))

    Agree-refs :
        (xs : List String)
        → ((n : String) → contains xs n ≡ true → contains refs n ≡ true)
        → Agree fmt (restrict names secret_reader) secret_reader dash.namespace xs
    Agree-refs xs sub n k = rw (role-refs n (sub n k)) refl

    split_names :
        (xs ys : List String) (n : String)
        → (contains xs n ≡ true → contains refs n ≡ true)
        → (contains ys n ≡ true → contains refs n ≡ true)
        → contains (xs ++ ys) n ≡ true
        → contains refs n ≡ true
    split_names xs ys n f g k = elim (Bool-cases (contains xs n)) [
      | inl here ↦ f here
      | inr there ↦ g (ground (arith, contains-append xs ys n, k))
    ]

    -- Where secretPolicy is not Labeled and the client's answers gave a Role, a widget of a listed
    -- ServiceCard that is bound to the Dashboard gets, through the Secrets that the Role names, the
    -- secrets and the caCert that it would get through all Secrets, errors included.
    pub service_widget_role_suffices :
        (card : ServiceCard) (entry : ServiceEntry) (w : ServiceWidget)
        → In card cards
        → bound_to (ref_name card.dashboard_ref) dash.name count ≡ true
        → In entry (service_entries card)
        → In w entry.widgets
        → widget_credentials fmt
            (restrict names secret_reader)
            dash.namespace
            w.type
            w.secrets
            w.secret_ref
            w.ca_cert
            dash.widget_defaults
          ≡ widget_credentials fmt secret_reader dash.namespace w.type w.secrets w.secret_ref
              w.ca_cert dash.widget_defaults
    service_widget_role_suffices card entry w c b e i =
        credentials_same fmt (restrict names secret_reader) secret_reader dash.namespace w.type
          w.secrets w.secret_ref w.ca_cert dash.widget_defaults
          (Agree-refs _ λ n k.
            split_names (widget_names w) _ n (refs-card_names card entry w n c b e i)
              (refs-defaults_names w.type n) k)

    -- Where secretPolicy is not Labeled and the client's answers gave a Role, an entry of a listed
    -- InfoWidget that is bound to the Dashboard gets, through the Secrets that the Role names, the
    -- secrets and the caCert that it would get through all Secrets, errors included.
    pub info_widget_role_suffices :
        (info : InfoWidget) (entry : InfoWidgetEntry)
        → In info infos
        → bound_to (ref_name info.dashboard_ref) dash.name count ≡ true
        → In entry (info_widget_entries info)
        → widget_credentials fmt
            (restrict names secret_reader)
            dash.namespace
            entry.type
            entry.secrets
            entry.secret_ref
            entry.ca_cert
            dash.widget_defaults
          ≡ widget_credentials fmt secret_reader dash.namespace entry.type entry.secrets
              entry.secret_ref entry.ca_cert dash.widget_defaults
    info_widget_role_suffices info entry c b e =
        credentials_same fmt (restrict names secret_reader) secret_reader dash.namespace entry.type
          entry.secrets entry.secret_ref entry.ca_cert dash.widget_defaults
          (Agree-refs _ λ n k.
            split_names (info_widget_names entry) _ n (refs-info_names info entry n c b e)
              (refs-defaults_names entry.type n) k)
