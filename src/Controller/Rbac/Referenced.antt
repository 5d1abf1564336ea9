-- ===== src/Controller/Rbac/Referenced.antt =====
-- What the objects of a Dashboard reference, object by object, beside the lists of names that
-- referencedSecretNames collects.
use kubepage_operator.Prelude.{
  ℕ, String, true, none, List, ◌++◌, ◌≡◌, refl, inl, inr, arith, Bool-cases, contains,
  contains-append, In, concat_map, contains-concat_map,
}
use kubepage_operator.Api.{
  bound_to, ref_name, ServiceWidget, ServiceEntry, ServiceCard, service_entries, InfoWidgetEntry,
  InfoWidget, info_widget_entries, WidgetDefaultsEntry, Dashboard,
}
use kubepage_operator.Controller.References.{
  widget_names, info_widget_names, entry_names, defaults_names,
}
use kubepage_operator.Controller.Rbac.{card_names, info_names, all_references}
use kubepage_operator.Controller.Binding.{namespace_dashboard_count}
use kubepage_operator.Cluster.{Reader, SecretReader, items}
use kubepage_operator.Prelude.Format.{Format}
use kubepage_operator.Prelude.Result.{ok}
use kubepage_operator.Controller.Rbac.WidgetNames.{
  Names, contains-append_true, concat_map-In, contains-Names, Names-contains,
  contains-defaults_names, defaults_names-contains,
}

-- A widget of a bound ServiceCard, an entry of a bound InfoWidget, or a widget default of the
-- Dashboard names the Secret.
pub data IsReferenced (dash : Dashboard) (count : ℕ) (cards : List ServiceCard)
    (infos : List InfoWidget) (s : String) : Type 0 where
  by_widget :
      (card : ServiceCard) (se : ServiceEntry) (w : ServiceWidget)
      → In card cards
      → bound_to (ref_name card.dashboard_ref) dash.name count ≡ true
      → In se (service_entries card)
      → In w se.widgets
      → Names w.secrets w.secret_ref w.ca_cert s
      → IsReferenced dash count cards infos s
  by_info_widget :
      (iw : InfoWidget) (entry : InfoWidgetEntry)
      → In iw infos
      → bound_to (ref_name iw.dashboard_ref) dash.name count ≡ true
      → In entry (info_widget_entries iw)
      → Names entry.secrets entry.secret_ref entry.ca_cert s
      → IsReferenced dash count cards infos s
  by_default :
      (type : String) (entry : WidgetDefaultsEntry)
      → In (type, entry) dash.widget_defaults
      → Names entry.secrets none entry.ca_cert s
      → IsReferenced dash count cards infos s

module _ (dash : Dashboard) (count : ℕ) (cards : List ServiceCard) (infos : List InfoWidget)
    (s : String) where
  pub refs : List String
  refs =
      concat_map (card_names dash count) cards
      ++ (concat_map (info_names dash count) infos ++ defaults_names dash.widget_defaults)

  card-IsReferenced :
      (card : ServiceCard)
      → In card cards
      → contains (card_names dash count card) s ≡ true
      → IsReferenced dash count cards infos s
  unfolding card_names
  card-IsReferenced card i h =
      elim (Bool-cases (bound_to (ref_name card.dashboard_ref) dash.name count)) [
        | inr unbound ↦ absurd (cc (rw unbound at h))
        | inl bound ↦
            let (se, e, in_entry) =
              concat_map-In entry_names (service_entries card) s (rw bound at h) in
            let (w, k, in_widget) = concat_map-In widget_names se.widgets s in_entry in
            by_widget card se w i bound e k
              (contains-Names w.secrets w.secret_ref w.ca_cert s in_widget)
      ]

  info-IsReferenced :
      (iw : InfoWidget)
      → In iw infos
      → contains (info_names dash count iw) s ≡ true
      → IsReferenced dash count cards infos s
  unfolding info_names
  info-IsReferenced iw i h =
      elim (Bool-cases (bound_to (ref_name iw.dashboard_ref) dash.name count)) [
        | inr unbound ↦ absurd (cc (rw unbound at h))
        | inl bound ↦
            let (entry, e, names) =
              concat_map-In info_widget_names (info_widget_entries iw) s (rw bound at h) in
            by_info_widget iw entry i bound e
              (contains-Names entry.secrets entry.secret_ref entry.ca_cert s names)
      ]

  pub refs-IsReferenced : contains refs s ≡ true → IsReferenced dash count cards infos s
  unfolding refs
  refs-IsReferenced h =
      elim (contains-append_true (concat_map (card_names dash count) cards) _ s h) [
        | inl card ↦
            let (c, i, names) = concat_map-In (card_names dash count) cards s card in
            card-IsReferenced c i names
        | inr rest ↦
            elim (contains-append_true (concat_map (info_names dash count) infos) _ s rest) [
              | inl info ↦
                  let (iw, i, names) = concat_map-In (info_names dash count) infos s info in
                  info-IsReferenced iw i names
              | inr default ↦
                  let (type, entry, i, names) =
                    contains-defaults_names dash.widget_defaults s default in
                  by_default type entry i names
            ]
      ]

  pub IsReferenced-refs : IsReferenced dash count cards infos s → contains refs s ≡ true
  unfolding refs card_names info_names
  IsReferenced-refs (by_widget card se w i bound e k names) =
      let own = Names-contains w.secrets w.secret_ref w.ca_cert s names in
      let in_entry = contains-concat_map widget_names w se.widgets s k own in
      let in_card = contains-concat_map entry_names se (service_entries card) s e in_entry in
      let all = contains-concat_map (card_names dash count) card cards s i (rw bound in_card) in
      rw (contains-append, all) refl
  IsReferenced-refs (by_info_widget iw entry i bound e names) =
      let own = Names-contains entry.secrets entry.secret_ref entry.ca_cert s names in
      let in_info = contains-concat_map info_widget_names entry (info_widget_entries iw) s e own in
      let all = contains-concat_map (info_names dash count) iw infos s i (rw bound in_info) in
      rw (contains-append, contains-append, all) (ground arith)
  IsReferenced-refs (by_default type entry i names) =
      let all = defaults_names-contains dash.widget_defaults type entry s i names in
      rw (contains-append, contains-append, all) (ground arith)

  pub all_references-refs :
      (fmt : Format) (client : Reader) (direct_reader : SecretReader)
      → namespace_dashboard_count client dash.namespace ≡ ok count
      → client.list_service_cards dash.namespace ≡ items cards
      → client.list_info_widgets dash.namespace ≡ items infos
      → all_references fmt client direct_reader dash ≡ ok refs
  unfolding all_references refs
  all_references-refs fmt client direct_reader counted listed infos_listed =
      rw (counted, listed, infos_listed) refl
