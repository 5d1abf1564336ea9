-- ===== src/Fixtures.antt =====
-- The inputs of the tests: a namespace with one Dashboard, a card and a header widget,
-- and an API server that answers.
use Prim.Native.Nat.{compare}
use kubepage_operator.Prelude.{
  ℕ, ◌*◌, ◌==◌, if◌then◌else◌, String, true, false, none, some, List, [], ◌∷◌, refl,
}
use kubepage_operator.Prelude.Format.{Format}
use kubepage_operator.Api.{
  SecretValueSource, ServiceWidget, ServiceEntry, ServiceCard, InfoWidgetEntry, InfoWidget,
  WidgetDefaultsEntry, DiscoverySpec, Dashboard,
}
use kubepage_operator.Cluster.{
  Reader, found, not_found, Read, Secret, SecretReader, items, list_failed,
}
use kubepage_operator.Pod.Kube.{Service, Pod, KubeClient, Monitors}
use kubepage_operator.Prelude.Result.{err}
use kubepage_operator.Pod.Highlight.{Engine}
use kubepage_operator.Pod.Poll.{Widget, Polling, PollState}
use kubepage_operator.Pod.Field.{Field}
use kubepage_operator.Pod.Store.{Card}
use kubepage_operator.Pod.HeaderWidgets.{HeaderWidget}
use kubepage_operator.Pod.Monitor.{answered_up}
use kubepage_operator.Pod.Work.{Cycling}
use kubepage_operator.Pod.Schedule.{second}
use kubepage_operator.Controller.Binding.Agreement.{find_named, Serves}

abbrev pub plain_format : Format
plain_format = record { quote = λ s. s; decimal = λ n. "0" }

abbrev pub from_secret : String → SecretValueSource
from_secret name = record {
  value = none;
  secret_key_ref = some (record { name = name; key = "token" });
}

abbrev pub sonarr : ServiceWidget
sonarr = record {
  type = "sonarr";
  url = none;
  secrets = ("key", from_secret "sonarr") ∷ [];
  secret_ref = some "shared";
  ca_cert = none;
  config = some "{\"qeury\": 1}";
  fields = [];
  highlight = [];
  poll_interval_seconds = none;
}

abbrev pub media_entry : ServiceEntry
media_entry = record {
  group = "";
  name = "Sonarr";
  order = none;
  href = some "https://sonarr.example";
  internal_url = none;
  target = none;
  icon = none;
  description = none;
  show_stats = none;
  error_display = none;
  monitor = some "self";
  app = none;
  namespace = none;
  pod_selector = none;
  status_style = none;
  widgets = sonarr ∷ [];
}

abbrev pub media_card : ServiceCard
media_card = record {
  namespace = "apps";
  name = "media";
  dashboard_ref = none;
  group = "Media";
  services = media_entry ∷ [];
}

abbrev pub weather : InfoWidgetEntry
weather = record {
  type = "openweathermap";
  url = none;
  order = none;
  icon = none;
  align = none;
  secrets = ("key", from_secret "weather") ∷ [];
  secret_ref = none;
  ca_cert = none;
  config = none;
  poll_interval_seconds = none;
}

abbrev pub header : InfoWidget
header = record {
  namespace = "apps";
  name = "header";
  dashboard_ref = some "home";
  widgets = weather ∷ [];
}

abbrev pub sonarr_defaults : WidgetDefaultsEntry
sonarr_defaults = record {
  secrets = ("user", from_secret "defaults") ∷ [];
  ca_cert = some (from_secret "defaults");
}

abbrev pub scan_ingresses : DiscoverySpec
scan_ingresses = record {
  enabled = true;
  annotation_prefix = none;
  homepage_compat = none;
  namespaces = [];
  sources = [];
}

abbrev pub home : Dashboard
home = record {
  namespace = "apps";
  name = "home";
  widget_defaults = ("sonarr", sonarr_defaults) ∷ [];
  secret_policy = none;
  auth = some (record { basic_auth_secret_ref = some "login" });
  style = none;
  discovery = some scan_ingresses;
  monitor_namespaces = [];
  cluster_domain = none;
}

abbrev pub boards : List Dashboard
boards = home ∷ []

abbrev pub server : Reader
server = record {
  get_dashboard = λ namespace name. find_named name boards;
  list_dashboards = λ namespace. items boards;
  list_service_cards = λ namespace. items (media_card ∷ []);
  list_info_widgets = λ namespace. items (header ∷ []);
}

abbrev pub token_secret : Secret
token_secret = record { labels = []; contents = ("token", "t-1") ∷ [] }

abbrev pub secrets : SecretReader
secrets namespace name = found token_secret

pub server-Serves : Serves server "apps" boards
server-Serves = record { listed = refl; got = λ name. refl; distinct = (refl, tt) }

-- A namespace with one Service and one ready pod, and a cluster whose other namespaces hold `others`.
abbrev pub ready_pod : Pod
ready_pod = record { conditions = record { type = "Ready"; holds = true } ∷ [] }

abbrev pub starting_pod : Pod
starting_pod = record { conditions = record { type = "Ready"; holds = false } ∷ [] }

abbrev pub sonarr_service : Service
sonarr_service = record {
  name = "sonarr";
  ports = record { name = "metrics"; port = 9 } ∷ record { name = "http"; port = 8989 } ∷ [];
}

abbrev pub client_of : Read Service → List Pod → KubeClient
client_of svc pods = record {
  get_service = λ namespace name. svc;
  list_services = λ namespace label app. items [];
  list_pods = λ namespace selector. items pods;
}

abbrev pub monitors_with : List Pod → Monitors
monitors_with others = record {
  reader = client_of (found sonarr_service) (ready_pod ∷ starting_pod ∷ []);
  kube_reader = client_of not_found others;
  is_selector = λ selector. true;
  preview = false;
  sample_data = false;
}

-- A poller whose one type of widget fails.
abbrev pub no_engine : Engine
no_engine = record {
  to_lower = λ s. s;
  compile = λ p. none;
  Float = ℕ;
  parse_float = λ s. none;
  compare_floats = compare;
}

abbrev pub failing : Widget
failing = record { sample = none; poll = λ cfg. err "Unreachable" }

abbrev pub polling : Polling
polling = record {
  fmt = plain_format;
  engine = no_engine;
  monitors = monitors_with [];
  secret_reader = secrets;
  interval = 15 * second;
  lookup = λ type. if type == "sonarr" then some (λ ca_pem. failing) else none;
  build_client = λ ca_pem. none;
}

abbrev pub start : PollState polling
start = record {
  store = [];
  schedule = record { widget_last_polled = []; clamp_warned = [] };
  failures = [];
  regexes = [];
}

abbrev pub cycling : Cycling
cycling = record {
  polling = polling;
  namespace = "apps";
  dashboard_name = "home";
  reader = server;
  list_ingresses = λ ns. items [];
  list_extra_ingresses = λ ns. list_failed "forbidden";
  list_routes = λ ns. items [];
  list_extra_routes = λ ns. items [];
  gateway_api_enabled = false;
  probe_http = λ url. answered_up "3ms";
  clock = λ key. record { now = 1; later = 1; stamp = 1 };
  cluster_poll = λ type. none;
  current_hashes = λ store. record { fragment = "f"; header = "h" };
}

-- A header widget of the page, and the live card of one.
abbrev pub header_widget : String → String → String → HeaderWidget
header_widget key type align = record {
  key = key;
  name = "header";
  type = type;
  order = none;
  icon_url = "";
  config = [];
  align = align;
}

abbrev pub header_card_of : String → List Field → Card
header_card_of key fields = record {
  key = key;
  group = "";
  service_name = "header";
  widget_type = "openmeteo";
  order = none;
  icon_url = "";
  description = "";
  href = "";
  target = "";
  header = true;
  show_stats = true;
  hide_errors = false;
  status = "";
  status_style = "";
  latency = "";
  pod_status = "";
  pod_ready_text = "";
  fields = fields;
  error = "";
  updated_at = 1;
}
