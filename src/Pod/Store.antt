-- ===== src/Pod/Store.antt =====
-- internal/dashboard/store.go: the latest card of every widget. The mutex makes each operation one
-- step, so a store is a value and an operation a function.
pub mod Laws
mod Tests
use Prim.Native.Nat.{Ordering}
use kubepage_operator.Prelude.{
  ℕ, String, Bool, ℤ, compare_int, Option, none, some, List, [], contains,
}
use kubepage_operator.Prelude.Map
use kubepage_operator.Prelude.Map.{Map}
use kubepage_operator.Prelude.Order.{then_compare, compare_text}
use kubepage_operator.Prelude.Sort.{sort_func}
use kubepage_operator.Pod.Field.{Field}

pub record Card : Type 0 where
  pub key : String
  pub group : String
  pub service_name : String
  pub widget_type : String
  pub order : Option ℤ
  pub icon_url : String
  pub description : String
  pub href : String
  pub target : String
  pub header : Bool
  pub show_stats : Bool
  pub hide_errors : Bool
  pub status : String
  pub status_style : String
  pub latency : String
  pub pod_status : String
  pub pod_ready_text : String
  pub fields : List Field
  pub error : String
  pub updated_at : ℕ

abbrev pub Store : Type 0
Store = Map Card

abbrev pub new_store : Store
new_store = []

unfoldable pub set : Card → Store → Store
set c s = Map.set c.key c s

unfoldable pub get : String → Store → Option Card
get key s = Map.lookup key s

-- `keep` is the map from the kept keys to true.
unfoldable pub prune : List String → Store → Store
prune keep s = Map.retain (contains keep) s

unfoldable pub compare_order : Option ℤ → Option ℤ → Ordering
compare_order none none = Ordering.eq
compare_order none (some b) = Ordering.gt
compare_order (some a) none = Ordering.lt
compare_order (some a) (some b) = compare_int a b

-- The comparison that `Snapshot` sorts by.
unfoldable pub compare_cards : Card → Card → Ordering
compare_cards a b = then_compare (compare_text a.group b.group) (
    then_compare (compare_order a.order b.order)
      (then_compare (compare_text a.service_name b.service_name) (compare_text a.key b.key)))

unfoldable pub snapshot : Store → List Card
unfolding compare_cards
snapshot s = sort_func compare_cards (Map.values s)
