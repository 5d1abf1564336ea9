-- ===== src/Pod/Kube.antt =====
-- What the poller reads of a cluster for the monitors (internal/dashboard/poller.go): Services and
-- pods, through a client; and the settings that the monitors depend on.
use kubepage_operator.Prelude.{ℕ, String, Bool, List}
use kubepage_operator.Api.{LabelSelector}
use kubepage_operator.Cluster.{Read, Listed}

-- corev1.ServicePort and corev1.Service, as far as a URL needs them
pub record ServicePort : Type 0 where
  pub name : String
  pub port : ℕ

pub record Service : Type 0 where
  pub name : String
  pub ports : List ServicePort

-- A condition of a pod, and whether its status is True.
pub record PodCondition : Type 0 where
  pub type : String
  pub holds : Bool

pub record Pod : Type 0 where
  pub conditions : List PodCondition

-- A client: `Get` of a Service by namespace and name, `List` of the Services with a label, and of
-- the pods that a selector matches, by namespace.
pub record KubeClient : Type 0 where
  pub get_service : String → String → Read Service
  pub list_services : String → String → String → Listed Service
  pub list_pods : String → LabelSelector → Listed Pod

-- The Poller's fields that the monitors read: `reader` is scoped to the pod's own namespace, and
-- `kube_reader` to the cluster. `is_selector` is `LabelSelectorAsSelector`'s check of a selector.
pub record Monitors : Type 0 where
  pub reader : KubeClient
  pub kube_reader : KubeClient
  pub is_selector : LabelSelector → Bool
  pub preview : Bool
  pub sample_data : Bool

abbrev pub pod_monitor_label : String
pod_monitor_label = "app.kubernetes.io/name"
