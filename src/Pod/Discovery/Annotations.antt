-- ===== src/Pod/Discovery/Annotations.antt =====
-- The annotations under a prefix, in discovery.go.
use Prim.Native.String
use package.text.Mathlib.TextLemmas.{append_cancel_left}
use kubepage_operator.Prelude.{String, [], ◌∷◌, ◌≡◌, refl, inl, inr, arith, eq_iff, Option-cases}
use kubepage_operator.Prelude.Affix.{cut_prefix-append, eq_of_cut_prefix}
use kubepage_operator.Prelude.Format.{text, cut_prefix}
use kubepage_operator.Prelude.Map.{
  Map, lookup, set, IsMap, first_of, lookup-set, lookup-cons, lookup-nil, lookup_absent,
}
use kubepage_operator.Pod.Discovery.{strip_into, strip_annotation_prefix}

lookup-strip_into :
    (p j : String) (annotations out : Map String)
    → IsMap annotations
    → lookup j (strip_into p annotations out)
      ≡ first_of (lookup (String.◌++◌ p j) annotations) (lookup j out)
unfolding strip_into
lookup-strip_into p j [] out h = rw (lookup-nil (String.◌++◌ p j)) refl
lookup-strip_into p j ((k, v) ∷ m) out (h, hs) = elim (Option-cases (cut_prefix p k)) [
  | inl cut ↦
      let ih = lookup-strip_into p j m out hs in
      let whole = cut_prefix-append p j in
      let key = eq_iff k (String.◌++◌ p j) in
      rw (cut, lookup-cons (String.◌++◌ p j) k v m) (ground (arith, ih, whole, key))
  | inr (rest, cut) ↦
      let ih = lookup-strip_into p j m (set rest v out) hs in
      let parts = eq_of_cut_prefix p k rest cut in
      let key = eq_iff k (String.◌++◌ p j) in
      rw (cut, lookup-cons (String.◌++◌ p j) k v m)
        (ground (
          arith,
          ih,
          parts,
          key,
          eq_iff rest j,
          lookup-set rest j v out,
          append_cancel_left p rest j,
          lookup_absent k m h,
        ))
]

-- Each annotation under the prefix is found under what follows the prefix, and no other.
pub lookup-strip_annotation_prefix :
    (p j : String) (annotations : Map String)
    → IsMap annotations
    → lookup j (strip_annotation_prefix annotations p) ≡ lookup (String.◌++◌ p j) annotations
unfolding strip_annotation_prefix
lookup-strip_annotation_prefix p j annotations h =
    let empty : Map String = [] in
    ground (arith, lookup-strip_into p j annotations empty h, lookup-nil {V = String} j)
