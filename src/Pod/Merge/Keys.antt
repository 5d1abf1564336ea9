-- ===== src/Pod/Merge/Keys.antt =====
-- The keys that poller.go gives the cards of an entry, and what merging reads off them.
use Prim.Native.String
use package.text.Mathlib.TextLemmas.{nil-append, cons-append, append_assoc}
use kubepage_operator.Prelude.{
  ℕ, String, true, false, some, ◌==◌, ◌≡◌, refl, sym, ap, ◌∙◌, ◌<◌, inl, inr, arith, [], ◌∷◌,
  eq_iff, Bool-cases, pos, ltb, ◌||◌, or_else,
}
use kubepage_operator.Prelude.Decimal.{
  decimal, parse_digits, all_digits, parse_digits-decimal, all_digits-decimal, decimal_not_empty,
}
use kubepage_operator.Prelude.Format.{Format, text, same_char, has_prefix, cut_last}
use kubepage_operator.Prelude.Segments.{
  slash, lacks_slash, cut_last-append, lacks_slash-digits, eq_of_has_prefix,
}
use kubepage_operator.Pod.Merge.{
  merge_card_group_key, merge_widget_index, is_decimal_digits, atoi, magnitude, positive,
  discovery_prefix,
}

-- The `fmt.Sprintf`s of `pollOnce`.
module _ (fmt : Format) where
  unfoldable pub entry_key : String → String → ℕ → String
  entry_key namespace name entry = text (namespace ∷ "/" ∷ name ∷ "/" ∷ fmt.decimal entry ∷ [])

  unfoldable pub widget_key : String → String → ℕ → ℕ → String
  widget_key namespace name entry index =
      text (namespace ∷ "/" ∷ name ∷ "/" ∷ fmt.decimal entry ∷ "/" ∷ fmt.decimal index ∷ [])

  unfoldable pub monitor_key : String → String → ℕ → String
  monitor_key namespace name entry =
      text (namespace ∷ "/" ∷ name ∷ "/" ∷ fmt.decimal entry ∷ "/monitor" ∷ [])

atoi-digits :
    (s : String) (n : ℕ)
    → (s == "") ≡ false
    → all_digits s ≡ true
    → parse_digits 0 s ≡ some n
    → n < 9223372036854775808
    → atoi s ≡ some (pos n)
unfolding atoi magnitude positive all_digits
atoi-digits String.[] n e h k l = absurd (cc e)
atoi-digits (String.◌∷◌ c s) n e h k l =
    let minus : same_char c "-" ≡ false = ground arith in
    let plus : same_char c "+" ≡ false = ground arith in
    let small : ltb n 9223372036854775808 ≡ true = ground arith in
    rw (minus, plus, e, k, small) refl

merge_widget_index-cut_last :
    (key last : String) {before : String}
    → cut_last "/" key ≡ some (before, last)
    → merge_widget_index key ≡ or_else (atoi last) (pos 0)
unfolding merge_widget_index
merge_widget_index-cut_last key last h = rw (h, merge_widget_index) refl

is_decimal_digits-decimal : (n : ℕ) → is_decimal_digits (decimal n) ≡ true
unfolding is_decimal_digits
is_decimal_digits-decimal n = ground (arith, all_digits-decimal n, decimal_not_empty n)

module _ (fmt : Format) where
  cut_last-key :
      (namespace name : String) (entry : ℕ) (last : String)
      → lacks_slash last ≡ true
      → cut_last "/" (text (namespace ∷ "/" ∷ name ∷ "/" ∷ fmt.decimal entry ∷ "/" ∷ last ∷ []))
        ≡ some (entry_key fmt namespace name entry, last)
  unfolding entry_key
  cut_last-key namespace name entry last h =
      let number = fmt.decimal entry in
      let slashed : String.◌++◌ "/" last ≡ String.◌∷◌ slash last =
        cons-append slash "" last ∙ ap (λ t. String.◌∷◌ slash t) (nil-append last) in
      let joined : String.◌++◌ (entry_key fmt namespace name entry) (String.◌∷◌ slash last)
          ≡ text (namespace ∷ "/" ∷ name ∷ "/" ∷ number ∷ "/" ∷ last ∷ []) =
        rw (← slashed) (simp append_assoc refl) in
      rw (← joined) (cut_last-append (entry_key fmt namespace name entry) last h)

not_discovered :
    (namespace rest : String)
    → lacks_slash namespace ≡ true
    → (namespace == "discovery") ≡ false
    → has_prefix (String.◌++◌ namespace (String.◌++◌ "/" rest)) discovery_prefix ≡ false
unfolding lacks_slash
not_discovered namespace rest h n =
    let slashed : String.◌++◌ "/" rest ≡ String.◌∷◌ slash rest =
      cons-append slash "" rest ∙ ap (λ t. String.◌∷◌ slash t) (nil-append rest) in
    rw (slashed)
      (elim (Bool-cases (has_prefix (String.◌++◌ namespace (String.◌∷◌ slash rest)) "discovery/")) [
        | inr other ↦ other
        | inl found ↦
            let e = eq_of_has_prefix namespace "discovery" rest h refl found in
            absurd (cc (sym n ∙ (eq_iff namespace "discovery").1 e))
      ])

module _ (fmt : Format) where
  merge_card_group_key-last :
      (namespace name : String) (entry : ℕ) (last : String)
      → lacks_slash namespace ≡ true
      → (namespace == "discovery") ≡ false
      → lacks_slash last ≡ true
      → (last == "monitor" || is_decimal_digits last) ≡ true
      → merge_card_group_key
          (text (namespace ∷ "/" ∷ name ∷ "/" ∷ fmt.decimal entry ∷ "/" ∷ last ∷ []))
        ≡ entry_key fmt namespace name entry
  unfolding merge_card_group_key
  merge_card_group_key-last namespace name entry last h n l k =
      let rest = text (name ∷ "/" ∷ fmt.decimal entry ∷ "/" ∷ last ∷ []) in
      rw (not_discovered namespace rest h n, cut_last-key fmt namespace name entry last l, k) refl

  -- In a namespace that is not called discovery, the key of a widget's card gives back the key of
  -- its entry and the widget's index, if that is a 64-bit integer, and the key of an entry's own
  -- card gives back that of the entry.
  pub merge_card_group_key-widget_key :
      (namespace name : String) (entry index : ℕ)
      → ((n : ℕ) → fmt.decimal n ≡ decimal n)
      → lacks_slash namespace ≡ true
      → (namespace == "discovery") ≡ false
      → index < 9223372036854775808
      → (merge_card_group_key (widget_key fmt namespace name entry index)
          ≡ entry_key fmt namespace name entry)
        × (merge_widget_index (widget_key fmt namespace name entry index) ≡ pos index)
        × (merge_card_group_key (monitor_key fmt namespace name entry)
            ≡ entry_key fmt namespace name entry)
  unfolding widget_key monitor_key merge_widget_index lacks_slash
  merge_card_group_key-widget_key namespace name entry index decimals h n l =
      let digits : is_decimal_digits (fmt.decimal index) ≡ true =
        rw (decimals index) (is_decimal_digits-decimal index) in
      let no_slash : lacks_slash (fmt.decimal index) ≡ true =
        rw (decimals index) (lacks_slash-digits (decimal index) (all_digits-decimal index)) in
      let read =
        atoi-digits (decimal index) index (decimal_not_empty index) (all_digits-decimal index)
          (parse_digits-decimal index) l in
      let index_read : atoi (fmt.decimal index) ≡ some (pos index) = rw (decimals index) read in
      (
        merge_card_group_key-last namespace name entry (fmt.decimal index) h n no_slash
            (ground arith),
        merge_widget_index-cut_last (widget_key fmt namespace name entry index) (fmt.decimal index)
              (cut_last-key fmt namespace name entry (fmt.decimal index) no_slash)
            ∙ ap (λ i. or_else i (pos 0)) index_read,
        merge_card_group_key-last namespace name entry "monitor" h n refl refl,
      )
