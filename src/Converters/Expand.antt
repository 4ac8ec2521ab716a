-- ===== src/Converters/Expand.antt =====
-- converters.go, from Terraform to the API: `expandObj` and what it calls, with the methods of
-- `stateCompose`, whose key, path, schema, configuration and resource are arguments.
use terraform_provider_aiven.Prelude.{
  ℕ, suc, Bool, true, false, not, ◌&&◌, Option, none, some, ◌++◌, if◌then◌else◌, ◌==◌, Str, bytes,
  itoa,
}
use terraform_provider_aiven.Common.{plain}
use terraform_provider_aiven.Converters.Values.{
  Value, items, set, object, Values, no_items, item, Fields, no_fields, field, Schema, scalar,
  mapped, scalars, objects, Schemas, no_schemas, entry, Config, unset, written, listed, keyed,
  Configs, no_configs, config, Out, gives, fails, panics, and_then, lookup, lookup_config,
  value_or_nil, non_nil, type_name, force_new,
}
use terraform_provider_aiven.Converters.Flatten.{join_fields, some_object, add_object}

-- `resourceData`, as far as it is read: the value at a path, and whether it has changed.
pub record Resource : Type 0 where
  pub get : Str → Value
  pub has_change : Str → Bool
  pub is_new : Bool

unfoldable pub at_key : Str → Str → Str
at_key path k = path ++ (bytes "." ++ k)

unfoldable pub at_index : Str → ℕ → Str
at_index path i = path ++ (bytes "." ++ itoa i)

-- `isNull`: a null, or a collection without elements.
unfoldable pub is_null : Config → Bool
is_null unset = true
is_null written = false
is_null (listed no_configs) = true
is_null (listed (config k c l)) = false
is_null (keyed no_configs) = true
is_null (keyed (config k c l)) = false

-- The attribute of an object; a null has none, and another attribute is a panic.
unfoldable pub get_attr : Str → Config → Out Config
get_attr k unset = gives unset
get_attr k written = panics
get_attr k (listed l) = panics
get_attr k (keyed l) = elim (lookup_config k l) [ none ↦ panics | some c ↦ gives c ]

-- `listItems`
unfoldable pub list_items : Config → Out Configs
list_items unset = gives no_configs
list_items written = panics
list_items (listed l) = gives l
list_items (keyed l) = gives l

-- The values of the map for the keys that the configuration sets.
unfoldable pub written_keys : Fields → Configs → Fields
written_keys m no_configs = no_fields
written_keys m (config k unset l) = written_keys m l
written_keys m (config k c l) = field k (value_or_nil (lookup k m)) (written_keys m l)

unfoldable pub map_fields : Str → Value → Out Fields
map_fields path (object f) = gives f
map_fields path v = fails (plain (path ++ (bytes " expected to be map, but got " ++ type_name v)))

unfoldable pub set_elements : Value → Out (Option Value)
set_elements (set l) = gives (some (items l))
set_elements v = panics

unfoldable pub add_item : Option Value → Values → Values
add_item none l = l
add_item (some v) l = item v l

-- `expandList` from the items on: a list of at most one object is the object.
unfoldable pub single_object : Values → Option Value
single_object no_items = none
single_object (item v no_items) = some v
single_object (item v (item u l)) = some (items (item v (item u l)))

unfoldable pub list_or_object : ℕ → Values → Option Value
list_or_object m l = if m == 1 then single_object l else some (items l)

-- The elements of a list of objects, from an index on, given how an object is expanded.
unfoldable pub expand_objects : (Str → Config → Out Fields) → Str → ℕ → Configs → Out Values
expand_objects f path i no_configs = gives no_items
expand_objects f path i (config k c l) =
    and_then (f (at_index path i) c)
      (λ g. and_then (expand_objects f path (suc i) l) (λ m. gives (add_object (some_object g) m)))

module _ (r : Resource) where
  unfoldable pub expand_scalar : Str → Config → Option Value
  expand_scalar path c = if is_null c then none else non_nil (r.get path)

  unfoldable pub expand_map : Str → Config → Out (Option Value)
  expand_map path unset = gives none
  expand_map path (keyed l) =
      and_then (map_fields path (r.get path)) (λ m. gives (some (object (written_keys m l))))
  expand_map path c = and_then (map_fields path (r.get path)) (λ m. panics)

  unfoldable pub expand_set : Str → Config → Out (Option Value)
  expand_set path unset = gives (some (items no_items))
  expand_set path c = set_elements (r.get path)

  unfoldable pub expand_items : Str → ℕ → Configs → Values
  expand_items path i no_configs = no_items
  expand_items path i (config k c l) =
      add_item (expand_scalar (at_index path i) c) (expand_items path (suc i) l)

  -- A value that the user has not sent, and did not remove.
  unfoldable pub is_unsent : Str → Config → Bool
  is_unsent path c = is_null c && not (r.has_change path)

  unfoldable mutual
    pub expand_attr : Schema → Str → Config → Out (Option Value)
    expand_attr (scalar k b) path c = gives (expand_scalar path c)
    expand_attr (mapped b) path c = expand_map path c
    expand_attr (scalars true e b) path c =
        if is_unsent path c then gives none else expand_set path c
    expand_attr (scalars false e b) path c =
        if is_unsent path c
        then gives none
        else and_then (list_items c) (λ l. gives (some (items (expand_items path 0 l))))
    expand_attr (objects true m s b) path c =
        if is_unsent path c then gives none else expand_set path c
    expand_attr (objects false m s b) path c =
        if is_unsent path c
        then gives none
        else and_then (list_items c) (λ l.
          and_then (expand_objects (expand_obj s) path 0 l) (λ t. gives (list_or_object m t)))

    -- `expandObj` with `objectProperties`.
    pub expand_obj : Schemas → Str → Config → Out Fields
    expand_obj no_schemas path c = gives no_fields
    expand_obj (entry k s rest) path c =
        let tail = expand_obj rest path c in
        if force_new s && not r.is_new
        then tail
        else join_fields k (and_then (get_attr k c) (expand_attr s (at_key path k))) tail
