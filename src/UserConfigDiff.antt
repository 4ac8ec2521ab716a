-- ===== src/UserConfigDiff.antt =====
-- internal/sdkprovider/userconfig/diff/diff.go: which differences of a service's user config are
-- hidden.
pub mod Defaults
mod Tests
use terraform_provider_aiven.Prelude.{
  ℕ, ◌≡◌, ◌⊎◌, inl, inr, Bool, true, false, not, ◌&&◌, ◌||◌, Option, none, some, List, [], ◌∷◌,
  if◌then◌else◌, ◌==◌, ltb, leb, Str, bytes, str_eq, is_empty, has_suffix, contains, ◌+◌, ◌-◌, any,
  length, take, join,
}

mutual
  -- What a configuration holds: of a value that is neither a string nor a map only that matters.
  pub data Value : Type 0 where
    text : Str → Value
    object : Fields → Value
    other nil : Value

  pub data Fields : Type 0 where
    no_fields : Fields
    field : Str → Value → Fields → Fields

unfoldable mutual
  pub normalize_ip_filter : Value → Option Str
  normalize_ip_filter (text s) = some s
  normalize_ip_filter (object m) = normalize_network m
  normalize_ip_filter other = none
  normalize_ip_filter nil = none

  -- `NormalizeIPFilter(m["network"])`
  pub normalize_network : Fields → Option Str
  normalize_network no_fields = none
  normalize_network (field key v m) =
      let n = normalize_ip_filter v in
      let rest = normalize_network m in if str_eq key (bytes "network") then n else rest

abbrev pub cons_normal : Option Str → Option (List Str) → Option (List Str)
cons_normal (some n) (some ns) = some (n ∷ ns)
cons_normal (some n) none = none
cons_normal none o = none

unfoldable pub normalize_list : List Value → Option (List Str)
normalize_list [] = some []
normalize_list (v ∷ l) = cons_normal (normalize_ip_filter v) (normalize_list l)

-- `s <= t` on strings, by their bytes.
unfoldable pub str_leb : Str → Str → Bool
str_leb [] t = true
str_leb (c ∷ s) [] = false
str_leb (c ∷ s) (d ∷ t) = ltb c d || c == d && str_leb s t

unfoldable pub insert : Str → List Str → List Str
insert s [] = s ∷ []
insert s (t ∷ l) = let rest = insert s l in if str_leb s t then s ∷ t ∷ l else t ∷ rest

-- `slices.Sort`
unfoldable pub sort : List Str → List Str
sort [] = []
sort (s ∷ l) = insert s (sort l)

-- `slices.Equal`
unfoldable pub list_eq : List Str → List Str → Bool
list_eq [] [] = true
list_eq [] (t ∷ l) = false
list_eq (s ∷ k) [] = false
list_eq (s ∷ k) (t ∷ l) = str_eq s t && list_eq k l

abbrev pub any_v4 : Str
any_v4 = bytes "0.0.0.0/0"

abbrev pub any_v6 : Str
any_v6 = bytes "::/0"

abbrev pub default_ip_filter_lists : List (List Str)
default_ip_filter_lists = (any_v4 ∷ []) ∷ (any_v4 ∷ any_v6 ∷ []) ∷ []

unfoldable pub is_default_ip_filter_list : List Value → Bool
is_default_ip_filter_list l = elim (normalize_list l) [
  | none ↦ false
  | some norm ↦ any (λ def. list_eq (sort norm) def) default_ip_filter_lists
]

-- A byte is a decimal digit.
abbrev pub is_digit : ℕ → Bool
is_digit c = leb 48 c && leb c 57

-- The text is nine digits, as `[0-9]{9}$` has it.
unfoldable pub nine_digits : ℕ → Str → Bool
nine_digits n [] = n == 9
nine_digits n (c ∷ s) = is_digit c && nine_digits (n + 1) s

-- `reIsSetElement`: the key ends in a dot and nine digits.
unfoldable pub is_set_element : Str → Bool
is_set_element [] = false
is_set_element (c ∷ s) = c == b'.' && nine_digits 0 s || is_set_element s

-- `reIsIPFilterStrings`
unfoldable pub is_ip_filter_strings : Str → Bool
is_ip_filter_strings k = contains k (bytes ".ip_filter.") || contains k (bytes ".ip_filter_string.")

-- `strings.Split(k, ".")`
unfoldable pub split_dots : Str → List Str
split_dots [] = [] ∷ []
split_dots (c ∷ s) = dotted c (split_dots s)
  where
    dotted : ℕ → List Str → List Str
    dotted c [] = [] ∷ []
    dotted c (p ∷ ps) = if c == b'.' then [] ∷ p ∷ ps else (c ∷ p) ∷ ps

-- What `d.Get(key)` holds of a list or set: nil in place of its one item is an empty object.
pub data Got : Type 0 where
  items set_of : List Value → Got
  not_list : Got

-- What `d` says of the resource: its id, `HasChange`, `Get`, and whether the raw state holds a set of
-- objects at a key, which the package `cty` finds out.
pub record ResourceDiff : Type 0 where
  pub id : Str
  pub has_change : Str → Bool
  pub get : Str → Got
  pub is_object_set : Str → Bool

unfoldable pub without_suffix : Str → Str → Str
without_suffix k suffix = take (length k - length suffix) k

-- `foo_user_config.0.ip_filter` of a key of one of the filters.
unfoldable pub ip_filter_key : Str → Str
ip_filter_key k = join (bytes ".") (take 3 (split_dots k))

unfoldable pub is_default_set : Got → Bool
is_default_set (set_of l) = is_default_ip_filter_list l
is_default_set _ = false

unfoldable pub suppress_ip_filter_set : ResourceDiff → Str → Bool
suppress_ip_filter_set d k =
    if d.has_change (ip_filter_key k) then false else is_default_set (d.get (ip_filter_key k))

-- A list with one item, which is nil.
unfoldable pub is_nil_object : Got → Bool
is_nil_object (items (nil ∷ [])) = true
is_nil_object _ = false

unfoldable pub suppress_list : ResourceDiff → Str → Bool
suppress_list d k =
    if d.has_change k
    then is_nil_object (d.get (without_suffix k (bytes ".#")))
    else not (d.is_object_set k)

unfoldable pub suppress_property : ResourceDiff → Str → Str → Str → Bool
suppress_property d k old_value new_value =
    if is_empty new_value || str_eq new_value (bytes "0") || str_eq new_value (bytes "false")
    then not (d.has_change k) && not (is_empty old_value)
    else false

unfoldable pub suppress_unchanged : Str → Str → Str → ResourceDiff → Bool
suppress_unchanged k old_value new_value d =
    if is_empty d.id
    then false
    else if has_suffix k (bytes ".%")
    then str_eq old_value new_value
    else if is_ip_filter_strings k
    then suppress_ip_filter_set d k
    else if is_set_element k
    then false
    else if has_suffix k (bytes ".#")
    then suppress_list d k
    else suppress_property d k old_value new_value
