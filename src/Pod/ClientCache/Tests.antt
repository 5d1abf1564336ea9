-- ===== src/Pod/ClientCache/Tests.antt =====
-- A cache of numbers for clients.
use kubepage_operator.Prelude.{ℕ, ◌≤◌, some, [], ◌∷◌, ◌≡◌, refl, length, arith}
use kubepage_operator.Prelude.Map
use kubepage_operator.Prelude.Map.{Map, lookup}
use kubepage_operator.Pod.ClientCache.{bounded_client_cache_cap, create, make_room, get_or_create}
use kubepage_operator.Pod.ClientCache.Laws.{get_or_create_lem}

abbrev two_clients : Map ℕ
two_clients = ("a", 1) ∷ ("b", 2) ∷ []

get_or_create_tests :
    ((get_or_create "a" 9 two_clients).client ≡ 1)
    × ((get_or_create "c" 9 two_clients).clients ≡ ("a", 1) ∷ ("b", 2) ∷ ("c", 9) ∷ [])
unfolding get_or_create create make_room lookup Map.set
get_or_create_tests = (refl, refl)

get_or_create_lem_example :
    (length (get_or_create "c" 9 two_clients).clients ≤ bounded_client_cache_cap)
    × (lookup "c" (get_or_create "c" 9 two_clients).clients
        ≡ some (get_or_create "c" 9 two_clients).client)
get_or_create_lem_example = get_or_create_lem "c" 9 two_clients (omega arith)
