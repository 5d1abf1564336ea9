-- ===== src/Prelude/Map.antt =====
-- Go's `map[string]V` as an association list. The order of the list stands for the order in which a
-- `range` loop meets the keys, which Go leaves open.
use mathlib.Core.Path.{◌≡◌, refl}
use mathlib.Core.Logic.{inl, inr}
use mathlib.Core.Bool.{Bool, false, not, ◌||◌}
use mathlib.Core.Option.{Option, none, some}
use mathlib.Core.List.{List, [], ◌∷◌}
use native.Mathlib.Omega.{arith}
use Prim.Native.Nat.{◌≤◌, ◌+◌}
use Prim.Native.String.{String}
use text.Mathlib.Text.{◌==◌}
use text.Mathlib.TextEquality.{eq_iff}
use kubepage_operator.Prelude.Tests.{if◌then◌else◌, is_some, Bool-cases}
use kubepage_operator.Prelude.Lists.{length, contains, AreDistinct}

abbrev pub Map {ℓ} : Type ℓ → Type ℓ
Map V = List (String × V)

module _ {ℓ} {V : Type ℓ} where
  -- v, ok := m[k]
  unfoldable pub lookup : String → Map V → Option V
  lookup k [] = none
  lookup k ((j, v) ∷ m) = if j == k then some v else lookup k m

  -- m[k] = v
  unfoldable pub set : String → V → Map V → Map V
  set k v [] = (k, v) ∷ []
  set k v ((j, w) ∷ m) = if j == k then (k, v) ∷ m else (j, w) ∷ set k v m

  -- for j := range m {if !keep(j) {delete(m, j) } }
  unfoldable pub retain : (String → Bool) → Map V → Map V
  retain keep [] = []
  retain keep ((j, v) ∷ m) = let rest = retain keep m in if keep j then (j, v) ∷ rest else rest

  -- delete(m, k)
  unfoldable pub delete : String → Map V → Map V
  unfolding retain
  delete k m = retain (λ j. not (j == k)) m

  abbrev pub keys : Map V → List String
  keys [] = []
  keys ((k, v) ∷ m) = k ∷ keys m

  abbrev pub values : Map V → List V
  values [] = []
  values ((k, v) ∷ m) = v ∷ values m

  -- maps.Copy(dst, src)
  unfoldable pub copy : Map V → Map V → Map V
  copy dst [] = dst
  copy dst ((k, v) ∷ src) = copy (set k v dst) src

  -- A Go map holds a key once.
  abbrev pub IsMap : Map V → Type 0
  IsMap m = AreDistinct (keys m)

  abbrev pub first_of : Option V → Option V → Option V
  first_of none b = b
  first_of (some a) b = some a

  pub lookup-set :
      (k j : String) (v : V) (m : Map V)
      → lookup j (set k v m) ≡ (if k == j then some v else lookup j m)
  unfolding lookup set
  lookup-set k j v [] = refl
  lookup-set k j v ((i, w) ∷ m) =
      ground (arith, eq_iff k j, eq_iff i k, eq_iff i j, lookup-set k j v m)

  pub lookup-retain :
      (keep : String → Bool) (j : String) (m : Map V)
      → lookup j (retain keep m) ≡ (if keep j then lookup j m else none)
  unfolding lookup retain
  lookup-retain keep j [] = ground arith
  lookup-retain keep j ((i, v) ∷ m) = ground (arith, eq_iff i j, lookup-retain keep j m)

  pub lookup-delete :
      (k j : String) (m : Map V) → lookup j (delete k m) ≡ (if j == k then none else lookup j m)
  unfolding delete
  lookup-delete k j m = ground (arith, lookup-retain (λ i. not (i == k)) j m)

  pub is_some-lookup : (k : String) (m : Map V) → is_some (lookup k m) ≡ contains (keys m) k
  unfolding lookup
  is_some-lookup k [] = refl
  is_some-lookup k ((j, v) ∷ m) = ground (arith, is_some-lookup k m)

  pub lookup-cons :
      (k j : String) (v : V) (m : Map V)
      → lookup k ((j, v) ∷ m) ≡ (if j == k then some v else lookup k m)
  unfolding lookup
  lookup-cons k j v m = refl

  pub lookup-nil : (k : String) → lookup k (let e : Map V = [] in e) ≡ none
  unfolding lookup
  lookup-nil k = refl

  pub lookup_absent : (k : String) (m : Map V) → contains (keys m) k ≡ false → lookup k m ≡ none
  unfolding lookup
  lookup_absent k [] h = refl
  lookup_absent k ((j, v) ∷ m) h = ground (arith, lookup_absent k m)

  pub length-set : (k : String) (v : V) (m : Map V) → length (set k v m) ≤ length m + 1
  unfolding set
  length-set k v [] = omega arith
  length-set k v ((j, w) ∷ m) = ground (arith, length-set k v m)

  pub length-retain : (keep : String → Bool) (m : Map V) → length (retain keep m) ≤ length m
  unfolding retain
  length-retain keep [] = omega arith
  length-retain keep ((j, v) ∷ m) = ground (arith, length-retain keep m)

  pub contains-keys-set :
      (k j : String) (v : V) (m : Map V)
      → contains (keys (set k v m)) j ≡ (k == j || contains (keys m) j)
  unfolding set
  contains-keys-set k j v [] = refl
  contains-keys-set k j v ((i, w) ∷ m) =
      ground (arith, eq_iff k j, eq_iff i k, eq_iff i j, contains-keys-set k j v m)

module _ {ℓ} {V : Type ℓ} where
  IsMap-set : (k : String) (v : V) (m : Map V) → IsMap m → IsMap (set k v m)
  unfolding set
  IsMap-set k v [] h = (refl, tt)
  IsMap-set k v ((j, w) ∷ m) (h, hs) = elim (Bool-cases (j == k)) [
    | inl same ↦ rw (same, set) (rw ((eq_iff j k).0 same) at h, hs)
    | inr other ↦
        rw (other, set)
          (ground (arith, contains-keys-set k j v m, eq_iff k j, eq_iff j k), IsMap-set k v m hs)
  ]

  pub IsMap-copy : (dst src : Map V) → IsMap dst → IsMap (copy dst src)
  unfolding copy
  IsMap-copy dst [] h = h
  IsMap-copy dst ((k, v) ∷ src) h = IsMap-copy (set k v dst) src (IsMap-set k v dst h)

  pub lookup-copy :
      (k : String) (dst src : Map V)
      → IsMap src
      → lookup k (copy dst src) ≡ first_of (lookup k src) (lookup k dst)
  unfolding lookup copy
  lookup-copy k dst [] h = refl
  lookup-copy k dst ((j, v) ∷ src) (h, hs) = ground (
    arith,
    lookup-copy k (set j v dst) src hs,
    lookup-set j k v dst,
    eq_iff j k,
    lookup_absent j src h,
  )

pub ruleset map_laws = (lookup-set, lookup-retain, lookup-delete)
