-- ===== src/Controller/Rbac/Rules.antt =====
-- What the rules of the Role grant.
use kubepage_operator.Prelude.{
  String, Bool, true, false, Option, none, some, List, [], ◌∷◌, ◌==◌, ◌&&◌, ◌||◌, ◌≡◌, refl, any,
  any-append, contains, arith, ◌∙◌, eq_iff,
}
use kubepage_operator.Api.{
  DiscoverySpec, has_source, discovery_source_ingress, discovery_source_httproute,
}
use kubepage_operator.Controller.Rbac.{PolicyRule, discovery_rules, secret_rules, dashboard_roles}

abbrev is_nil : List String → Bool
is_nil [] = true
is_nil (x ∷ xs) = false

or_false : (b : Bool) → (b || false) ≡ b
or_false true = refl
or_false false = refl

-- A list that may hold the wildcard, which stands for everything.
abbrev pub lists : List String → String → Bool
lists given x = contains given "*" || contains given x

-- How RBAC reads a rule: with wildcards in its groups, resources and verbs, and an empty list of
-- resource names for all names.
abbrev pub grants : String → String → String → String → PolicyRule → Bool
grants group resource verb name rule =
    lists rule.api_groups group
    && (lists rule.resources resource
        && (lists rule.verbs verb
            && (is_nil rule.resource_names || contains rule.resource_names name)))

secret_rules_grant :
    (verb name : String) (names : List String)
    → any (grants "" "secrets" verb name) (secret_rules names)
      ≡ (verb == "get" && contains names name)
unfolding secret_rules
secret_rules_grant verb name [] = ground arith
secret_rules_grant verb name (n ∷ ns) = ground (arith, eq_iff "get" verb, eq_iff verb "get")

discovery_grant_no_secrets :
    (verb name : String) (discovery : Option DiscoverySpec) (gateway : Bool)
    → any (grants "" "secrets" verb name) (discovery_rules discovery gateway) ≡ false
unfolding discovery_rules
discovery_grant_no_secrets verb name none gateway = refl
discovery_grant_no_secrets verb name (some d) gateway = ground arith

-- The Role lets the pod use a verb on a Secret exactly where the verb is "get" and the Secret is one
-- of the names given; so it never lists or watches Secrets, and with no names it reads none.
pub dashboard_roles_secrets :
    (verb name : String) (names : List String) (discovery : Option DiscoverySpec) (gateway : Bool)
    → any (grants "" "secrets" verb name) (dashboard_roles names discovery gateway)
      ≡ (verb == "get" && contains names name)
unfolding dashboard_roles
dashboard_roles_secrets verb name names discovery gateway =
    any-append (grants "" "secrets" verb name) (discovery_rules discovery gateway)
      (secret_rules names)
    ∙ rw (discovery_grant_no_secrets verb name discovery gateway)
        (secret_rules_grant verb name names)

-- Whether a discovery is enabled and scans a source.
abbrev pub scans : Option DiscoverySpec → String → Bool
scans none source = false
scans (some d) source = d.enabled && has_source d source

abbrev pub is_read : String → Bool
is_read verb = contains ("get" ∷ "list" ∷ "watch" ∷ []) verb

secret_rules_no_discovery :
    (group resource verb name : String) (names : List String)
    → ("" == group) ≡ false
    → any (grants group resource verb name) (secret_rules names) ≡ false
unfolding secret_rules
secret_rules_no_discovery group resource verb name [] h = refl
secret_rules_no_discovery group resource verb name (n ∷ ns) h = rw h refl

discovery_grants :
    (verb name : String) (discovery : Option DiscoverySpec) (gateway : Bool)
    → (any (grants "networking.k8s.io" "ingresses" verb name) (discovery_rules discovery gateway)
        ≡ (scans discovery discovery_source_ingress && is_read verb))
      × (any
            (grants "gateway.networking.k8s.io" "httproutes" verb name)
            (discovery_rules discovery gateway)
          ≡ (scans discovery discovery_source_httproute && gateway && is_read verb))
unfolding discovery_rules
discovery_grants verb name none gateway = (refl, refl)
discovery_grants verb name (some d) gateway = (ground arith, ground arith)

-- The Role reads Ingresses exactly while discovery is enabled and scans them, and HTTPRoutes exactly
-- while it is enabled, scans them and the cluster has the Gateway API; it grants no other verb on
-- them than get, list and watch.
pub dashboard_roles_discovery :
    (verb name : String) (names : List String) (discovery : Option DiscoverySpec) (gateway : Bool)
    → (any
          (grants "networking.k8s.io" "ingresses" verb name)
          (dashboard_roles names discovery gateway)
        ≡ (scans discovery discovery_source_ingress && is_read verb))
      × (any
            (grants "gateway.networking.k8s.io" "httproutes" verb name)
            (dashboard_roles names discovery gateway)
          ≡ (scans discovery discovery_source_httproute && gateway && is_read verb))
unfolding dashboard_roles
dashboard_roles_discovery verb name names discovery gateway =
    let (ingress, route) = discovery_grants verb name discovery gateway in
    (
      any-append (grants "networking.k8s.io" "ingresses" verb name)
            (discovery_rules discovery gateway) (secret_rules names)
          ∙ rw
              (
                ingress,
                secret_rules_no_discovery "networking.k8s.io" "ingresses" verb name names refl,
              )
              (or_false _),
      any-append (grants "gateway.networking.k8s.io" "httproutes" verb name)
            (discovery_rules discovery gateway) (secret_rules names)
          ∙ rw
              (
                route,
                secret_rules_no_discovery "gateway.networking.k8s.io" "httproutes" verb name names
                    refl,
              )
              (or_false _),
    )
