-- ===== src/ResourceId.antt =====
-- internal/schemautil/schemautil.go: the ids of resources (`BuildResourceID`, `SplitResourceID` and
-- its versions for two to five parts), with `url.PathEscape` and `url.PathUnescape` of Go's library.
pub mod Escape
pub mod Split
mod Tests
use terraform_provider_aiven.Prelude.{
  ℕ, zero, suc, ◌+◌, ◌*◌, ◌/◌, ◌%◌, Bool, true, false, ◌&&◌, ◌||◌, Option, none, some, List, [],
  ◌∷◌, ◌++◌, map, ◌==◌, leb, length, if◌then◌else◌, Str, bytes, join, is_hex, unhex, upper_hex,
}
use terraform_provider_aiven.Common.{Error, plain, Result, ok, err}

-- `shouldEscape(c, encodePathSegment)` of net/url.
unfoldable pub should_escape : ℕ → Bool
should_escape c =
    if leb 97 c && leb c 122 || leb 65 c && leb c 90 || leb 48 c && leb c 57
    then false
    else if c == b'-' || c == b'_' || c == b'.' || c == b'~'
    then false
    else if c == b'$' || c == b'&' || c == b'+' || c == b':' || c == b'=' || c == b'@'
    then false
    else true

unfoldable pub escape_byte : ℕ → Str
escape_byte c =
    if should_escape c then b'%' ∷ upper_hex (c / 16) ∷ upper_hex (c % 16) ∷ [] else c ∷ []

unfoldable pub path_escape : Str → Str
path_escape [] = []
path_escape (c ∷ s) = escape_byte c ++ path_escape s

abbrev pub prepend : ℕ → Option Str → Option Str
prepend c none = none
prepend c (some s) = some (c ∷ s)

-- `none` is the error of a "%" that no two hexadecimal digits follow.
unfoldable pub path_unescape : Str → Option Str
path_unescape [] = some []
path_unescape (c ∷ []) = if c == b'%' then none else some (c ∷ [])
path_unescape (c ∷ h ∷ []) = if c == b'%' then none else prepend c (path_unescape (h ∷ []))
path_unescape (c ∷ h ∷ l ∷ s) = elim (c == b'%') [
  | true ↦ if is_hex h && is_hex l then prepend (16 * unhex h + unhex l) (path_unescape s) else none
  | false ↦ prepend c (path_unescape (h ∷ l ∷ s))
]

unfoldable pub build_resource_id : List Str → Str
build_resource_id parts = join (bytes "/") (map path_escape parts)

-- The text before the first slash and the text behind it.
unfoldable pub cut : Str → Option (Str × Str)
cut [] = none
cut (c ∷ s) =
    if c == b'/' then some ([], s) else elim (cut s) [ none ↦ none | some (a, b) ↦ some (c ∷ a, b) ]

-- `strings.SplitN(s, "/", n)`
unfoldable pub split_n : ℕ → Str → List Str
split_n zero s = []
split_n (suc zero) s = s ∷ []
split_n (suc (suc k)) s = elim (cut s) [ none ↦ s ∷ [] | some (a, b) ↦ a ∷ split_n (suc k) b ]

-- `part, _ := url.PathUnescape(part)`: the error is dropped, and the part is then empty.
unfoldable pub unescape_part : Str → Str
unescape_part part = elim (path_unescape part) [ some s ↦ s | none ↦ [] ]

unfoldable pub split_resource_id : Str → ℕ → Result (List Str)
split_resource_id resource_id n =
    let parts = map unescape_part (split_n n resource_id) in
    if length parts == n
    then ok parts
    else err (plain (bytes "invalid resource id: " ++ resource_id))

-- The projections of the versions for a fixed number of parts; a list of another length is an index
-- out of range.
unfoldable pub two_parts : Result (List Str) → Option (Result (Str × Str))
two_parts (err e) = some (err e)
two_parts (ok (a ∷ b ∷ l)) = some (ok (a, b))
two_parts (ok _) = none

unfoldable pub three_parts : Result (List Str) → Option (Result (Str × Str × Str))
three_parts (err e) = some (err e)
three_parts (ok (a ∷ b ∷ c ∷ l)) = some (ok (a, b, c))
three_parts (ok _) = none

unfoldable pub four_parts : Result (List Str) → Option (Result (Str × Str × Str × Str))
four_parts (err e) = some (err e)
four_parts (ok (a ∷ b ∷ c ∷ d ∷ l)) = some (ok (a, b, c, d))
four_parts (ok _) = none

unfoldable pub five_parts : Result (List Str) → Option (Result (Str × Str × Str × Str × Str))
five_parts (err e) = some (err e)
five_parts (ok (a ∷ b ∷ c ∷ d ∷ e ∷ l)) = some (ok (a, b, c, d, e))
five_parts (ok _) = none

unfoldable pub split_resource_id2 : Str → Option (Result (Str × Str))
unfolding split_resource_id two_parts
split_resource_id2 id = two_parts (split_resource_id id 2)

unfoldable pub split_resource_id3 : Str → Option (Result (Str × Str × Str))
unfolding split_resource_id three_parts
split_resource_id3 id = three_parts (split_resource_id id 3)

unfoldable pub split_resource_id4 : Str → Option (Result (Str × Str × Str × Str))
unfolding split_resource_id four_parts
split_resource_id4 id = four_parts (split_resource_id id 4)

unfoldable pub split_resource_id5 : Str → Option (Result (Str × Str × Str × Str × Str))
unfolding split_resource_id five_parts
split_resource_id5 id = five_parts (split_resource_id id 5)
