-- ===== src/Converters/Flatten.antt =====
-- converters.go, from the API to Terraform: `flattenObj`, `flattenAttr` and `flattenList`, with `castType` of
-- utils.go. The order of a map's keys is that of the association list.
use terraform_provider_aiven.Prelude.{true, false, Option, none, some, ◌++◌, Str, bytes}
use terraform_provider_aiven.Common.{Error, plain, wrap}
use terraform_provider_aiven.Converters.Values.{
  Value, text, truth, number, items, set, object, Values, no_items, item, Fields, no_fields, field,
  Kind, string_kind, bool_kind, number_kind, Schema, scalar, mapped, scalars, objects, Schemas,
  no_schemas, entry, Out, gives, fails, panics, and_then, lookup, non_nil, type_name,
}

unfoldable pub invalid_type : Str → Value → Out Value
invalid_type expected v =
    fails (plain (bytes "invalid type. Expected " ++ (expected ++ (bytes ", got " ++ type_name v))))

-- `castType`
unfoldable pub cast_type : Kind → Value → Out Value
cast_type string_kind (text s) = gives (text s)
cast_type string_kind v = invalid_type (bytes "string") v
cast_type bool_kind (truth b) = gives (truth b)
cast_type bool_kind v = invalid_type (bytes "bool") v
cast_type number_kind (number s) = gives (number s)
cast_type number_kind v = invalid_type (bytes "float64") v

unfoldable pub expected : Str → Value → Error
expected name v = plain (bytes "expected " ++ (name ++ (bytes ", got " ++ type_name v)))

unfoldable pub field_error {ℓ} : {A : Type ℓ} → Str → Out A → Out A
field_error k (gives a) = gives a
field_error k (fails e) = fails (wrap (k ++ bytes " field conversion error") e)
field_error k panics = panics

-- The field with the rest of the object, unless there is no value.
unfoldable pub add_field : Str → Option Value → Fields → Fields
add_field k none f = f
add_field k (some v) f = field k v f

unfoldable pub join_fields : Str → Out (Option Value) → Out Fields → Out Fields
join_fields k a rest =
    and_then (field_error k a) (λ v. and_then rest (λ f. gives (add_field k v f)))

unfoldable pub found : (Value → Out Value) → Option Value → Out (Option Value)
found f none = gives none
found f (some v) = elim (non_nil v) [
  | none ↦ gives none
  | some u ↦ and_then (f u) (λ t. gives (non_nil t))
]

-- An object without fields is nil.
unfoldable pub some_object : Fields → Option Fields
some_object no_fields = none
some_object (field k v f) = some (field k v f)

unfoldable pub add_object : Option Fields → Values → Values
add_object none l = l
add_object (some f) l = item (object f) l

-- `flattenList`, given how an object is flattened.
unfoldable pub flatten_list : (Fields → Out Fields) → Values → Out Values
flatten_list flat no_items = gives no_items
flatten_list flat (item (object f) l) =
    and_then (flat f)
      (λ g. and_then (flatten_list flat l) (λ m. gives (add_object (some_object g) m)))
flatten_list flat (item _ l) = panics

unfoldable pub objects_of : Value → Out Values
objects_of (items l) = gives l
objects_of (object no_fields) = gives no_items
objects_of (object (field k v f)) = gives (item (object (field k v f)) no_items)
objects_of v = fails (expected (bytes "map[string]any") v)

unfoldable pub flatten_each : (Value → Out Value) → Values → Out Values
flatten_each flat no_items = gives no_items
flatten_each flat (item v l) =
    and_then (flat v) (λ t. and_then (flatten_each flat l) (λ m. gives (item t m)))

unfoldable pub list_of : Value → Out Values
list_of (items l) = gives l
list_of v = fails (expected (bytes "[]any") v)

-- `new_set` is `schema.NewSet` with the hash of the schema, as the list of the elements.
module _ (new_set : Schema → Values → Values) where
  unfoldable mutual
    pub flatten_attr : Schema → Value → Out Value
    flatten_attr (scalar k b) v = cast_type k v
    flatten_attr (mapped b) v = gives v
    flatten_attr (scalars false e b) v = and_then (list_of v) (λ l. gives (items l))
    flatten_attr (scalars true e b) v =
        and_then (list_of v)
          (λ l. and_then (flatten_each (flatten_attr e) l) (λ m. gives (set (new_set e m))))
    flatten_attr (objects s m r b) v =
        and_then (objects_of v)
          (λ l. and_then (flatten_list (flatten_fields r) l) (λ t. gives (items t)))

    pub flatten_fields : Schemas → Fields → Out Fields
    flatten_fields no_schemas dto = gives no_fields
    flatten_fields (entry k s rest) dto =
        join_fields k (found (flatten_attr s) (lookup k dto)) (flatten_fields rest dto)

  -- `flattenObj`
  unfoldable pub flatten_obj : Schemas → Fields → Out (Option Fields)
  flatten_obj r dto = and_then (flatten_fields r dto) (λ f. gives (some_object f))
