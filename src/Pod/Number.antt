-- ===== src/Pod/Number.antt =====
-- internal/dashboard/highlight.go, numberPattern and numericValue: the first decimal number in a text.
use Prim.Native.Char.{code}
use Prim.Native.String
use kubepage_operator.Prelude.{String, Option, none, some, ◌==◌, ◌≡◌, refl, if◌then◌else◌}
use kubepage_operator.Prelude.Decimal.{is_digit}
use kubepage_operator.Prelude.Format.{same_char}

-- `\d*`, as long as it goes, and what follows.
unfoldable pub span_digits : String → String × String
span_digits String.[] = ("", "")
span_digits (String.◌∷◌ c s) =
    let (digits, rest) = span_digits s in
    if is_digit (code c) then (String.◌∷◌ c digits, rest) else ("", String.◌∷◌ c s)

-- `(\.\d+)?`
unfoldable pub fraction : String → String
unfolding span_digits
fraction String.[] = ""
fraction (String.◌∷◌ c s) =
    let (digits, rest) = span_digits s in
    if same_char c "." then (if digits == "" then "" else String.◌∷◌ c digits) else ""

-- `\d+(\.\d+)?`
unfoldable pub unsigned : String → Option String
unfolding span_digits fraction
unsigned s =
    let (digits, rest) = span_digits s in
    if digits == "" then none else some (String.◌++◌ digits (fraction rest))

unfoldable pub signed : Option String → Option String
signed none = none
signed (some number) = some (String.◌++◌ "-" number)

-- A match of the pattern at the start of a text.
unfoldable pub match_here : String → Option String
unfolding unsigned signed
match_here String.[] = none
match_here (String.◌∷◌ c s) =
    if same_char c "-" then signed (unsigned s) else unsigned (String.◌∷◌ c s)

unfoldable pub found_or : Option String → String → String
found_or none later = later
found_or (some number) later = number

-- The leftmost match, or the empty text.
unfoldable pub find_number : String → String
unfolding match_here found_or
find_number String.[] = ""
find_number (String.◌∷◌ c s) =
    let later = find_number s in found_or (match_here (String.◌∷◌ c s)) later

-- `parse_float` is `strconv.ParseFloat`, nothing where it fails.
unfoldable pub numeric_value : {Float : Type 0} → (String → Option Float) → String → Option Float
unfolding find_number
numeric_value parse_float s = let m = find_number s in if m == "" then none else parse_float m

find_number_tests :
    (find_number "12 ms" ≡ "12")
    × (find_number "1.2 GiB" ≡ "1.2")
    × (find_number "at -45.%" ≡ "-45")
    × (find_number "--7.50x" ≡ "-7.50")
    × (find_number "v.5" ≡ "5")
    × (find_number "none-" ≡ "")
unfolding find_number match_here found_or unsigned signed span_digits fraction
find_number_tests = (refl, refl, refl, refl, refl, refl)
