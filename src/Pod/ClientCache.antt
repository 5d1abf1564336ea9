-- ===== src/Pod/ClientCache.antt =====
-- internal/dashboard/clientcache.go: the HTTP clients of the widgets that skip TLS verification. The
-- mutex makes getOrCreate one step.
pub mod Laws
mod Tests
use kubepage_operator.Prelude.{
  ℕ, String, Bool, Option, none, some, List, [], ◌∷◌, leb, length, if◌then◌else◌,
}
use kubepage_operator.Prelude.Map
use kubepage_operator.Prelude.Map.{Map}

abbrev pub bounded_client_cache_cap : ℕ
bounded_client_cache_cap = 32

-- The client, the cache, and the clients whose idle connections were closed.
pub record Obtained (Client : Type 0) : Type 0 where
  pub client : Client
  pub clients : Map Client
  pub closed : List Client

module _ {Client : Type 0} where
  -- The first entry of a `range` loop goes.
  evict : Map Client → Map Client × List Client
  evict [] = ([], [])
  evict ((key, client) ∷ rest) = (Map.delete key ((key, client) ∷ rest), client ∷ [])

  make_room : Map Client → Map Client × List Client
  unfolding evict
  make_room clients =
      if leb bounded_client_cache_cap (length clients) then evict clients else (clients, [])

  create : String → Client → Map Client → Option Client → Obtained Client
  unfolding make_room
  create key built clients (some existing) = record {
    client = existing;
    clients = clients;
    closed = [];
  }
  create key built clients none =
      let (room, closed) = make_room clients in
      record { client = built; clients = Map.set key built room; closed = closed }

  -- `built` is what `build` gives, where it is called.
  unfoldable pub get_or_create : String → Client → Map Client → Obtained Client
  unfolding create
  get_or_create key built clients = create key built clients (Map.lookup key clients)
