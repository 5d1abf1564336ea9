-- ===== src/Pod/ClientCache/Laws.antt =====
-- The bound of the cache, and that no client leaves it with its connections open.
use kubepage_operator.Prelude.{
  suc, ◌≤◌, String, false, not, Option, none, some, [], ◌∷◌, ◌==◌, ◌≡◌, refl, sym, leb, length,
  arith, Bool-cases, inl, inr, ◌⊎◌, In, eq_iff, eq_refl,
}
use kubepage_operator.Prelude.Map
use kubepage_operator.Prelude.Map.{
  Map, lookup, lookup-set, lookup-delete, lookup-cons, lookup-nil, length-set, length-retain,
}
use kubepage_operator.Pod.ClientCache.{
  bounded_client_cache_cap, evict, make_room, create, get_or_create,
}

flipped : (k j : String) → (k == j) ≡ false → (j == k) ≡ false
flipped k j h = ground (arith, eq_iff k j, eq_iff j k)

module _ {Client : Type 0} where
  length-evict :
      (clients : Map Client)
      → length clients ≤ bounded_client_cache_cap
      → suc (length (evict clients).0) ≤ bounded_client_cache_cap
  unfolding evict Map.delete Map.retain
  length-evict [] h = omega arith
  length-evict ((key, client) ∷ rest) h =
      rw eq_refl (omega (arith, length-retain (λ j. not (j == key)) rest))

  length-make_room :
      (clients : Map Client)
      → length clients ≤ bounded_client_cache_cap
      → suc (length (make_room clients).0) ≤ bounded_client_cache_cap
  unfolding make_room
  length-make_room clients h = elim (Bool-cases (leb bounded_client_cache_cap (length clients))) [
    | inl full ↦ rw full (length-evict clients h)
    | inr room ↦ rw room (ground arith)
  ]

  length-create :
      (key : String) (built : Client) (clients : Map Client) (stored : Option Client)
      → length clients ≤ bounded_client_cache_cap
      → length (create key built clients stored).clients ≤ bounded_client_cache_cap
  unfolding create
  length-create key built clients (some existing) h = h
  length-create key built clients none h =
      omega (arith, length-set key built (make_room clients).0, length-make_room clients h)

  lookup-create :
      (key : String) (built : Client) (clients : Map Client) (stored : Option Client)
      → lookup key clients ≡ stored
      → lookup key (create key built clients stored).clients
        ≡ some (create key built clients stored).client
  unfolding create
  lookup-create key built clients (some existing) e = e
  lookup-create key built clients none e = rw (lookup-set, eq_refl) refl

  -- The cache of clients keeps at most 32, and the client that is returned is the one that it
  -- then holds under the key.
  pub get_or_create_lem :
      (key : String) (built : Client) (clients : Map Client)
      → length clients ≤ bounded_client_cache_cap
      → (length (get_or_create key built clients).clients ≤ bounded_client_cache_cap)
        × (lookup key (get_or_create key built clients).clients
            ≡ some (get_or_create key built clients).client)
  unfolding get_or_create
  get_or_create_lem key built clients h = (
    length-create key built clients (lookup key clients) h,
    lookup-create key built clients (lookup key clients) refl,
  )

  some-injective : {a b : Client} → some a ≡ some b → a ≡ b
  some-injective e = cc

  -- A key that is absent is not one that is present.
  apart :
      (key j : String) (c : Client) (clients : Map Client)
      → lookup key clients ≡ none
      → lookup j clients ≡ some c
      → (key == j) ≡ false
  apart key j c clients e h = elim (Bool-cases (key == j)) [
    | inl same ↦ let names : key ≡ j = (eq_iff key j).0 same in cc (rw names at e)
    | inr other ↦ other
  ]

  kept_or_closed :
      (clients : Map Client) (j : String) (c : Client)
      → lookup j clients ≡ some c
      → (lookup j (evict clients).0 ≡ some c) ⊎ In c (evict clients).1
  unfolding evict
  kept_or_closed [] j c e = cc (rw lookup-nil at e)
  kept_or_closed ((key, client) ∷ rest) j c e = elim (Bool-cases (key == j)) [
    | inl same ↦ inr (inl (some-injective (sym (rw (lookup-cons, same) at e))))
    | inr other ↦ inl (rw (lookup-delete, flipped key j other) e)
  ]

  make_room-kept :
      (clients : Map Client) (j : String) (c : Client)
      → lookup j clients ≡ some c
      → (lookup j (make_room clients).0 ≡ some c) ⊎ In c (make_room clients).1
  unfolding make_room
  make_room-kept clients j c e = elim (Bool-cases (leb bounded_client_cache_cap (length clients))) [
    | inl full ↦ rw full (kept_or_closed clients j c e)
    | inr room ↦ rw room (inl e)
  ]

  create-kept :
      (key : String) (built : Client) (clients : Map Client) (stored : Option Client) (j : String)
      (c : Client)
      → lookup key clients ≡ stored
      → lookup j clients ≡ some c
      → (lookup j (create key built clients stored).clients ≡ some c)
        ⊎ In c (create key built clients stored).closed
  unfolding create
  create-kept key built clients (some existing) j c e h = inl h
  create-kept key built clients none j c e h = elim (make_room-kept clients j c h) [
    | inl kept ↦ inl (rw (lookup-set, apart key j c clients e h) kept)
    | inr closed ↦ inr closed
  ]

  -- A client that the cache holds is held on under its key, or its idle connections are closed.
  pub get_or_create-kept :
      (key : String) (built : Client) (clients : Map Client) (j : String) (c : Client)
      → lookup j clients ≡ some c
      → (lookup j (get_or_create key built clients).clients ≡ some c)
        ⊎ In c (get_or_create key built clients).closed
  unfolding get_or_create
  get_or_create-kept key built clients j c h =
      create-kept key built clients (lookup key clients) j c refl h
