-- ===== src/Cluster.antt =====
-- What the program reads of the Kubernetes API: a client's `Get` and `List` calls at one moment, as
-- functions. The API server, its client and its caches are not part of the repository.
use kubepage_operator.Prelude.{String, List}
use kubepage_operator.Prelude.Map.{Map}
use kubepage_operator.Api.{Dashboard, ServiceCard, InfoWidget}

-- The answer of a read: an object, `apierrors.IsNotFound`, or another error with its text.
pub data Read (A : Type 0) : Type 0 where
  found : A → Read A
  not_found : Read A
  failed : String → Read A

-- Of a `List` call: the items, or an error.
pub data Listed (A : Type 0) : Type 0 where
  items : List A → Listed A
  list_failed : String → Listed A

pub record Secret : Type 0 where
  pub labels : Map String
  pub contents : Map String

-- The reads are by namespace, then name.
pub record Reader : Type 0 where
  pub get_dashboard : String → String → Read Dashboard
  pub list_dashboards : String → Listed Dashboard
  pub list_service_cards : String → Listed ServiceCard
  pub list_info_widgets : String → Listed InfoWidget

-- `Get` of a Secret, through the uncached client.
abbrev pub SecretReader : Type 0
SecretReader = String → String → Read Secret
