-- ===== src/Controller/Rbac.antt =====
-- internal/controller/dashboard_rbac.go: the Role of the dashboard pod.
pub mod Names
pub mod WidgetNames
pub mod Referenced
pub mod Exact
pub mod Sufficiency
pub mod Rules
mod Tests
use kubepage_operator.Prelude.{
  ℕ, String, Bool, true, false, Option, none, some, List, [], ◌∷◌, ◌++◌, ◌==◌, ◌&&◌, if◌then◌else◌,
  concat_map, contains, eqb, length,
}
use kubepage_operator.Prelude.Format.{Format, text}
use kubepage_operator.Prelude.Map
use kubepage_operator.Prelude.Map.{Map}
use kubepage_operator.Prelude.Result.{Result, ok, err, ◌>>=◌, wrap}
use kubepage_operator.Prelude.Sort.{sort}
use kubepage_operator.Api.{
  ref_name, bound_to, SecretKeySelector, SecretValueSource, ServiceWidget, ServiceEntry,
  ServiceCard, service_entries, InfoWidgetEntry, InfoWidget, info_widget_entries,
  WidgetDefaultsEntry, DiscoverySpec, has_source, discovery_source_ingress,
  discovery_source_httproute, secret_policy_labeled, secret_allow_widgets_label, Dashboard,
  AuthSpec,
}
use kubepage_operator.Cluster.{
  Reader, SecretReader, Read, found, not_found, failed, Secret, Listed, items, list_failed,
}
use kubepage_operator.Controller.References.{
  option_names, entry_names, info_widget_names, defaults_names,
}
use kubepage_operator.Controller.Binding.{namespace_dashboard_count}

-- rbacv1.PolicyRule
pub record PolicyRule : Type 0 where
  pub api_groups : List String
  pub resources : List String
  pub verbs : List String
  pub resource_names : List String

abbrev pub dashboard_config_rule : PolicyRule
dashboard_config_rule = record {
  api_groups = "page.kubepage.dev" ∷ [];
  resources = "dashboards" ∷ "servicecards" ∷ "bookmarks" ∷ "infowidgets" ∷ [];
  verbs = "get" ∷ "list" ∷ "watch" ∷ [];
  resource_names = [];
}

abbrev pub dashboard_ingress_rule : PolicyRule
dashboard_ingress_rule = record {
  api_groups = "networking.k8s.io" ∷ [];
  resources = "ingresses" ∷ [];
  verbs = "get" ∷ "list" ∷ "watch" ∷ [];
  resource_names = [];
}

abbrev pub dashboard_httproute_rule : PolicyRule
dashboard_httproute_rule = record {
  api_groups = "gateway.networking.k8s.io" ∷ [];
  resources = "httproutes" ∷ [];
  verbs = "get" ∷ "list" ∷ "watch" ∷ [];
  resource_names = [];
}

abbrev pub dashboard_pods_rule : PolicyRule
dashboard_pods_rule = record {
  api_groups = "" ∷ [];
  resources = "pods" ∷ "services" ∷ [];
  verbs = "get" ∷ "list" ∷ "watch" ∷ [];
  resource_names = [];
}

discovery_rules : Option DiscoverySpec → Bool → List PolicyRule
discovery_rules none gateway_api_enabled = []
discovery_rules (some discovery) gateway_api_enabled =
    if discovery.enabled
    then (if has_source discovery discovery_source_ingress then dashboard_ingress_rule ∷ [] else [])
      ++ (if has_source discovery discovery_source_httproute && gateway_api_enabled
          then dashboard_httproute_rule ∷ []
          else [])
    else []

secret_rules : List String → List PolicyRule
secret_rules [] = []
secret_rules (name ∷ names) =
    record {
      api_groups = "" ∷ [];
      resources = "secrets" ∷ [];
      verbs = "get" ∷ [];
      resource_names = name ∷ names;
    }
    ∷ []

unfoldable pub dashboard_roles : List String → Option DiscoverySpec → Bool → List PolicyRule
unfolding discovery_rules secret_rules
dashboard_roles secret_names discovery gateway_api_enabled =
    (dashboard_config_rule ∷ dashboard_pods_rule ∷ [])
    ++ (discovery_rules discovery gateway_api_enabled ++ secret_rules secret_names)

module _ (dash : Dashboard) (dash_count : ℕ) where
  -- An object that is not bound to the Dashboard is passed over.
  card_names : ServiceCard → List String
  card_names card =
      if bound_to (ref_name card.dashboard_ref) dash.name dash_count
      then concat_map entry_names (service_entries card)
      else []

  info_names : InfoWidget → List String
  info_names w =
      if bound_to (ref_name w.dashboard_ref) dash.name dash_count
      then concat_map info_widget_names (info_widget_entries w)
      else []

-- The set `names`, which a name enters once.
add_names : List String → List String → List String
add_names [] names = names
add_names (n ∷ ns) names = add_names ns (if contains names n then names else n ∷ names)

abbrev listed_as : {A : Type 0} → String → Listed A → Result (List A)
listed_as what (items xs) = ok xs
listed_as what (list_failed e) = err (text ("listing " ∷ what ∷ ": " ∷ e ∷ []))

module _ (fmt : Format) (client : Reader) (direct_reader : SecretReader) where
  open fmt use {quote}

  abbrev is_allowed : Secret → Bool
  is_allowed secret = elim (Map.lookup secret_allow_widgets_label secret.labels) [
    | none ↦ false
    | some value ↦ value == "true"
  ]

  -- One name of the loop: kept, dropped, or an error that ends the loop.
  label_check : String → Read Secret → Result Bool
  label_check name not_found = ok false
  label_check name (failed e) =
      err (text ("getting Secret " ∷ quote name ∷ " to check secretPolicy label: " ∷ e ∷ []))
  label_check name (found secret) = ok (is_allowed secret)

  unfoldable pub filter_labeled_secrets : String → List String → Result (List String)
  unfolding label_check
  filter_labeled_secrets namespace [] = ok []
  filter_labeled_secrets namespace (name ∷ names) = do
    keep ← label_check name (direct_reader namespace name)
    rest ← filter_labeled_secrets namespace names
    ok (if keep then name ∷ rest else rest)

  abbrev is_labeled : Option String → Bool
  is_labeled none = false
  is_labeled (some policy) = policy == secret_policy_labeled

  -- Every reference, in the order of the loops.
  pub all_references : Dashboard → Result (List String)
  unfolding card_names info_names
  all_references dash = do
    dash_count ←
        wrap (λ e. text ("counting Dashboards: " ∷ e ∷ []))
          (namespace_dashboard_count client dash.namespace)
    cards ← listed_as "ServiceCards" (client.list_service_cards dash.namespace)
    info_widgets ← listed_as "InfoWidgets" (client.list_info_widgets dash.namespace)
    ok (
        concat_map (card_names dash dash_count) cards
        ++ (concat_map (info_names dash dash_count) info_widgets
            ++ defaults_names dash.widget_defaults))

  unfoldable pub referenced_secret_names : Dashboard → Result (List String)
  unfolding all_references add_names
  referenced_secret_names dash = do
    names ← all_references dash
    let out = sort (add_names names [])
    if is_labeled dash.secret_policy then filter_labeled_secrets dash.namespace out else ok out

abbrev basic_auth_names : Option AuthSpec → List String
basic_auth_names none = []
basic_auth_names (some auth) = option_names auth.basic_auth_secret_ref

unfoldable pub auth_secret_names : Dashboard → List String
auth_secret_names dash = basic_auth_names dash.auth

-- slices.Compact: equal neighbours become one.
compact_from : String → List String → List String
compact_from prev [] = prev ∷ []
compact_from prev (x ∷ xs) = let rest = compact_from x xs in if prev == x then rest else prev ∷ rest

compact : List String → List String
unfolding compact_from
compact [] = []
compact (x ∷ xs) = compact_from x xs

-- The names of the Role: the auth Secret joins the referenced ones.
unfoldable pub add_auth_names : List String → List String → List String
unfolding compact
add_auth_names secret_names [] = secret_names
add_auth_names secret_names (a ∷ auth) = compact (sort (secret_names ++ a ∷ auth))

equal_slices : List String → List String → Bool
equal_slices [] [] = true
equal_slices [] (y ∷ ys) = false
equal_slices (x ∷ xs) [] = false
equal_slices (x ∷ xs) (y ∷ ys) = x == y && equal_slices xs ys

string_slices_equal_sorted : List String → List String → Bool
unfolding equal_slices
string_slices_equal_sorted a b = eqb (length a) (length b) && equal_slices (sort a) (sort b)

abbrev rule_equal : PolicyRule → PolicyRule → Bool
rule_equal a b =
    string_slices_equal_sorted a.api_groups b.api_groups
    && (string_slices_equal_sorted a.resources b.resources
        && (string_slices_equal_sorted a.verbs b.verbs
            && string_slices_equal_sorted a.resource_names b.resource_names))

unfoldable pub policy_rules_equal : List PolicyRule → List PolicyRule → Bool
unfolding string_slices_equal_sorted
policy_rules_equal [] [] = true
policy_rules_equal [] (b ∷ bs) = false
policy_rules_equal (a ∷ as') [] = false
policy_rules_equal (a ∷ as') (b ∷ bs) = rule_equal a b && policy_rules_equal as' bs

-- The call by which a reconcile changes the Role, if any.
pub data RoleChange : Type 0 where
  create_role update_role : List PolicyRule → RoleChange
  keep_role : RoleChange

change_role : List PolicyRule → Read (List PolicyRule) → Result RoleChange
change_role desired not_found = ok (create_role desired)
change_role desired (failed e) = err e
change_role desired (found rules) =
    if policy_rules_equal rules desired then ok keep_role else ok (update_role desired)

-- `get_role` reads the rules of the Role named like the Dashboard; `owned` is the error of
-- `SetControllerReference`, if it gives one.
module _ (fmt : Format) (client : Reader) (direct_reader : SecretReader) where
  pub role_names : Dashboard → Result (List String)
  role_names dash = do
    secret_names ← referenced_secret_names fmt client direct_reader dash
    ok (add_auth_names secret_names (auth_secret_names dash))

  unfoldable pub reconcile_role :
      (String → String → Read (List PolicyRule))
      → Option String
      → Bool
      → Dashboard
      → Result RoleChange
  unfolding role_names change_role
  reconcile_role get_role owned gateway_api_enabled dash = do
    secret_names ← role_names dash
    let desired = dashboard_roles secret_names dash.discovery gateway_api_enabled
    elim owned [ none ↦ change_role desired (get_role dash.namespace dash.name) | some e ↦ err e ]
