-- ===== src/Controller/WidgetSchema.antt =====
-- internal/dashboard/widgetschema/widgetschema.go: the known config keys of every widget type.
use kubepage_operator.Prelude.{String, not, List, [], ◌∷◌, ◌++◌, contains, select}
use kubepage_operator.Prelude.Map.{Map}
use kubepage_operator.Prelude.Sort.{sort}

pub record ConfigSchema : Type 0 where
  pub required : List String
  pub optional : List String

abbrev none_known : ConfigSchema
none_known = record { required = []; optional = [] }

abbrev optionally : List String → ConfigSchema
optionally keys = record { required = []; optional = keys }

abbrev pub config_schemas : Map ConfigSchema
config_schemas =
    ("plex", none_known)
    ∷ ("stash", none_known)
    ∷ ("paperlessngx", none_known)
    ∷ ("grafana", none_known)
    ∷ ("prometheus", none_known)
    ∷ ("truenas", none_known)
    ∷ ("linkwarden", none_known)
    ∷ ("homeassistant", none_known)
    ∷ ("sonarr", none_known)
    ∷ ("radarr", none_known)
    ∷ ("jellyfin", none_known)
    ∷ ("jellyseerr", none_known)
    ∷ ("immich", none_known)
    ∷ ("adguard", none_known)
    ∷ ("pihole", none_known)
    ∷ ("uptime-kuma", none_known)
    ∷ ("portainer", none_known)
    ∷ ("argocd", none_known)
    ∷ ("gitea", none_known)
    ∷ ("tautulli", none_known)
    ∷ ("netdata", none_known)
    ∷ ("gatus", none_known)
    ∷ ("nextcloud", none_known)
    ∷ ("cloudflared", record { required = "accountId" ∷ "tunnelId" ∷ []; optional = [] })
    ∷ ("customapi", record { required = "mappings" ∷ []; optional = [] })
    ∷ (
      "prometheusmetric",
      record { required = "query" ∷ []; optional = "label" ∷ "emptyValue" ∷ [] },
    )
    ∷ ("unifi", optionally ("site" ∷ "insecureTLS" ∷ []))
    ∷ ("iframe", optionally ("height" ∷ []))
    ∷ ("proxmox", optionally ("node" ∷ "insecureTLS" ∷ []))
    ∷ ("opnsense", optionally ("wan" ∷ []))
    ∷ ("speedtest", optionally ("version" ∷ []))
    ∷ ("mealie", optionally ("version" ∷ []))
    ∷ ("greeting", optionally ("text" ∷ []))
    ∷ ("datetime", optionally ("format" ∷ []))
    ∷ ("logo", none_known)
    ∷ (
      "openmeteo",
      record { required = "latitude" ∷ "longitude" ∷ []; optional = "units" ∷ "label" ∷ [] },
    )
    ∷ (
      "openweathermap",
      record { required = "latitude" ∷ "longitude" ∷ []; optional = "units" ∷ "label" ∷ [] },
    )
    ∷ ("kubemetrics", optionally ("cpuLabel" ∷ "memoryLabel" ∷ []))
    ∷ ("glances", optionally ("apiVersion" ∷ []))
    ∷ ("longhorn", none_known)
    ∷ []

-- The missing and the unknown keys. `config_keys` are the map's keys, in the order of its `range`.
unfoldable pub validate_config : List String → ConfigSchema → List String × List String
validate_config config_keys schema = (
  sort (select (λ key. not (contains config_keys key)) schema.required),
  sort (select (λ key. not (contains (schema.required ++ schema.optional) key)) config_keys),
)
