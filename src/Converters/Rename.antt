-- ===== src/Converters/Rename.antt =====
-- The renaming of fields in utils.go: `renameAlias`, `isZero`, `sortKeys` and `convertIPFilter`. The mapping of
-- the names, which is generated, is an association list in some order; among keys of the same length
-- `sortKeys` keeps that order, where the source has any.
use terraform_provider_aiven.Prelude.{
  ℕ, Bool, true, false, not, ◌&&◌, ◌||◌, none, some, List, [], ◌∷◌, ◌++◌, if◌then◌else◌, leb, ◌==◌,
  Str, bytes, str_eq, is_empty, length, has_suffix,
}
use terraform_provider_aiven.Converters.Values.{
  Value, null, text, truth, number, items, set, object, Values, no_items, item, Fields, no_fields,
  field, Out, gives, panics, and_then, lookup, value_or_nil,
}

-- `delete(m, k)`
unfoldable pub remove : Str → Fields → Fields
remove k no_fields = no_fields
remove k (field j v f) = let rest = remove k f in if str_eq k j then rest else field j v rest

-- `m[k] = v`
unfoldable pub put_field : Str → Value → Fields → Fields
put_field k v no_fields = field k v no_fields
put_field k v (field j u f) =
    let rest = put_field k v f in if str_eq k j then field j v f else field j u rest

unfoldable pub is_zero : Value → Bool
is_zero null = true
is_zero (text s) = is_empty s
is_zero (truth b) = not b
is_zero (number s) = str_eq s (bytes "0")
is_zero (items no_items) = true
is_zero (items (item v l)) = false
is_zero (set l) = false
is_zero (object no_fields) = true
is_zero (object (field k v f)) = false

-- The value for the new name: its own, unless that is empty.
unfoldable pub chosen : Value → Value → Value
chosen v own = if is_zero own then v else own

unfoldable pub rename_key : Str → Str → Value → Fields → Fields
rename_key k orig v dto =
    let rest = remove k dto in put_field orig (chosen v (value_or_nil (lookup orig rest))) rest

-- Each object of a list is renamed, and what is no object panics.
unfoldable pub rename_each : (Fields → Out Fields) → Values → Out Values
rename_each f no_items = gives no_items
rename_each f (item (object g) l) =
    and_then (f g) (λ h. and_then (rename_each f l) (λ m. gives (item (object h) m)))
rename_each f (item v l) = panics

-- The name is looked up again for each object of a list: it is out of range where more than one key is left.
unfoldable pub rename_list : List Str → (Fields → Out Fields) → Values → Out Values
rename_list (k ∷ []) f l = rename_each f l
rename_list ks f no_items = gives no_items
rename_list ks f (item v l) = panics

-- What follows the first key, given how the rest is renamed.
unfoldable pub rename_inner : List Str → (Fields → Out Fields) → Value → Out Value
rename_inner ks f (items l) = and_then (rename_list ks f l) (λ m. gives (items m))
rename_inner ks f (object g) = and_then (f g) (λ h. gives (object h))
rename_inner ks f v = panics

unfoldable pub rename_keys : List Str → Str → Fields → Out Fields
rename_keys [] orig dto = gives dto
rename_keys (k ∷ []) orig dto = elim (lookup k dto) [
  | none ↦ gives dto
  | some v ↦ gives (rename_key k orig v dto)
]
rename_keys (k ∷ j ∷ ks) orig dto = elim (lookup k dto) [
  | none ↦ gives dto
  | some v ↦
      and_then (rename_inner (j ∷ ks) (rename_keys (j ∷ ks) orig) v)
        (λ u. gives (put_field k u dto))
]

-- `strings.Split(s, "/")`
abbrev pub onto_first : ℕ → List Str → List Str
onto_first c [] = []
onto_first c (s ∷ l) = (c ∷ s) ∷ l

unfoldable pub split_slashes : Str → List Str
split_slashes [] = [] ∷ []
split_slashes (c ∷ s) =
    let rest = split_slashes s in if c == b'/' then [] ∷ rest else onto_first c rest

-- `s[len(keys)-1]`
unfoldable pub same_place : List Str → List Str → Out Str
same_place [] t = panics
same_place (k ∷ []) [] = panics
same_place (k ∷ []) (t ∷ ts) = gives t
same_place (k ∷ j ∷ ks) [] = panics
same_place (k ∷ j ∷ ks) (t ∷ ts) = same_place (j ∷ ks) ts

unfoldable pub rename_alias : Str → Str → Fields → Out Fields
rename_alias from to dto =
    let keys = split_slashes from in
    and_then (same_place keys (split_slashes to)) (λ orig. rename_keys keys orig dto)

-- A mapping: the name in Terraform with the name of the API.
abbrev pub Mapping : Type 0
Mapping = List (Str × Str)

unfoldable pub insert_longest : Str × Str → Mapping → Mapping
insert_longest p [] = p ∷ []
insert_longest p (q ∷ l) =
    let rest = insert_longest p l in if leb (length q.0) (length p.0) then p ∷ q ∷ l else q ∷ rest

unfoldable pub sort_keys : Mapping → Mapping
sort_keys [] = []
sort_keys (p ∷ l) = insert_longest p (sort_keys l)

unfoldable pub rename_all_to_dto : Mapping → Fields → Out Fields
rename_all_to_dto [] dto = gives dto
rename_all_to_dto (p ∷ l) dto = and_then (rename_alias p.0 p.1 dto) (λ m. rename_all_to_dto l m)

-- `renameAliasesToDto`
unfoldable pub rename_aliases_to_dto : Mapping → Fields → Out Fields
rename_aliases_to_dto m dto = rename_all_to_dto (sort_keys m) dto

-- `strings.ReplaceAll(s, "/", ".0.")`
unfoldable pub to_path : Str → Str
to_path [] = []
to_path (c ∷ s) = let rest = to_path s in if c == b'/' then bytes ".0." ++ rest else c ∷ rest

-- A name for one of two types, of which the resource has no value.
unfoldable pub is_left_alone : (Str → Bool) → Str → Str → Bool
is_left_alone has_value prefix to =
    (has_suffix to (bytes "_string") || has_suffix to (bytes "_object"))
    && not (has_value (prefix ++ to_path to))

unfoldable pub rename_all_to_tfo : (Str → Bool) → Str → Mapping → Fields → Out Fields
rename_all_to_tfo has_value prefix [] dto = gives dto
rename_all_to_tfo has_value prefix (p ∷ l) dto =
    let next = rename_all_to_tfo has_value prefix l in
    if is_left_alone has_value prefix p.0
    then next dto
    else and_then (rename_alias p.1 p.0 dto) (λ m. next m)
