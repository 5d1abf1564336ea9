-- ===== src/Pod/Htpasswd.antt =====
-- internal/dashboard/auth.go, parseHtpasswd: the users of a file with their bcrypt hashes.
use Prim.Native.Char.{Char}
use kubepage_operator.Prelude.{
  String, Bool, not, Option, none, some, List, [], ◌∷◌, ◌==◌, ◌||◌, if◌then◌else◌,
}
use kubepage_operator.Prelude.Format.{has_prefix, cut}
use kubepage_operator.Prelude.Map
use kubepage_operator.Prelude.Map.{Map}

-- What is not the program's own: the lines of a file, as `bufio.Scanner` gives them and
-- `strings.TrimSpace` trims them; bcrypt's comparison of a hash with a password; the hash that is
-- compared where a user is unknown.
pub record Passwords : Type 0 where
  pub trimmed_lines : String → List String
  pub compare_hash : String → String → Bool
  pub dummy_hash : String

abbrev colon : Char
colon = ":"

abbrev is_bcrypt : String → Bool
is_bcrypt hash = has_prefix hash "$2a$" || (has_prefix hash "$2b$" || has_prefix hash "$2y$")

-- A line that is cut at its first colon enters the map, or is passed over.
entry_of : Option (String × String) → Map String → Map String
entry_of none entries = entries
entry_of (some (user, hash)) entries =
    if user == "" || not (is_bcrypt hash) then entries else Map.set user hash entries

line_entry : String → Map String → Map String
unfolding entry_of
line_entry line entries =
    if line == "" || has_prefix line "#" then entries else entry_of (cut colon line) entries

-- The loop over the lines.
add_lines : List String → Map String → Map String
add_lines [] entries = entries
add_lines (line ∷ lines) entries = add_lines lines (line_entry line entries)

unfoldable pub parse_htpasswd : Passwords → String → Map String
unfolding add_lines line_entry
parse_htpasswd passwords contents = add_lines (passwords.trimmed_lines contents) []
