-- ===== src/Adapter/Marshalling.antt =====
-- marshalling.go: `toTFValue` and `fromTFValue`. `NewValue` of the package tftypes panics on a value of
-- another type, and `As` fails on one. The order of a map's keys is that of the association list.
use terraform_provider_aiven.Prelude.{
  Bool, true, false, not, ◌&&◌, Option, none, some, if◌then◌else◌, Str, bytes, ◌++◌,
}
use terraform_provider_aiven.Common.{plain}
use terraform_provider_aiven.Converters.Values.{Out, gives, fails, panics, and_then}
use terraform_provider_aiven.Adapter.Values.{
  Primitive, string, int, float, bool, Schema, primitive, list, set, dict, object, Properties,
  no_properties, property, tf_string, tf_number, tf_bool, tf_list, tf_set, tf_map, tf_object,
  TfValue, nil, unknown, known_string, known_number, known_bool, known_list, known_set, known_map,
  known_object, TfValues, no_values, value, TfFields, no_entries, entry, Value, null, text, number,
  truth, items, fields, pointer, kept, Values, no_items, item, Fields, no_fields, field, type_of,
  types_of, lookup, schema_at, zero_value,
}

-- What a value is not.
unfoldable pub expected {ℓ} : {A : Type ℓ} → Str → Out A
expected name = fails (plain (bytes "expected " ++ name))

-- `tftypes.NewValue` of a primitive type, which takes a pointer to a value also, of one level.
unfoldable pub plain_primitive : Primitive → Value → Out TfValue
plain_primitive string null = gives (nil tf_string)
plain_primitive string (text s) = gives (known_string s)
plain_primitive int null = gives (nil tf_number)
plain_primitive int (number s) = gives (known_number s)
plain_primitive float null = gives (nil tf_number)
plain_primitive float (number s) = gives (known_number s)
plain_primitive bool null = gives (nil tf_bool)
plain_primitive bool (truth b) = gives (known_bool b)
plain_primitive p v = panics

unfoldable pub new_primitive : Primitive → Value → Out TfValue
unfolding plain_primitive
new_primitive p (pointer v) = plain_primitive p v
new_primitive p v = plain_primitive p v

unfoldable pub convert_items : (Value → Out TfValue) → Values → Out TfValues
convert_items f no_items = gives no_values
convert_items f (item v l) =
    and_then (f v) (λ t. and_then (convert_items f l) (λ ts. gives (value t ts)))

unfoldable pub convert_entries : (Value → Out TfValue) → Fields → Out TfFields
convert_entries f no_fields = gives no_entries
convert_entries f (field k v l) =
    and_then (f v) (λ t. and_then (convert_entries f l) (λ ts. gives (entry k t ts)))

-- A collection, given its nil and what is made of its items.
unfoldable pub to_collection : TfValue → (Values → Out TfValue) → Value → Out TfValue
to_collection n f (kept t) = gives t
to_collection n f null = gives n
to_collection n f (items l) = f l
to_collection n f v = expected (bytes "list or set")

unfoldable pub to_keyed : TfValue → (Fields → Out TfValue) → Value → Out TfValue
to_keyed n f (kept t) = gives t
to_keyed n f null = gives n
to_keyed n f (fields l) = f l
to_keyed n f v = expected (bytes "map[string]any")

unfoldable pub to_primitive : Primitive → Value → Out TfValue
to_primitive p (kept t) = gives t
to_primitive p v = new_primitive p v

-- A property that is missing is nil.
unfoldable pub value_or_null : Option Value → Value
value_or_null none = null
value_or_null (some v) = v

unfoldable mutual
  -- `toTFValue`
  pub to_tf : Schema → Value → Out TfValue
  to_tf (primitive f p) v = to_primitive p v
  to_tf (list f s) v =
      to_collection (nil (tf_list (type_of s)))
        (λ l. and_then (convert_items (to_tf s) l) (λ ts. gives (known_list (type_of s) ts))) v
  to_tf (set f s) v =
      to_collection (nil (tf_set (type_of s)))
        (λ l. and_then (convert_items (to_tf s) l) (λ ts. gives (known_set (type_of s) ts))) v
  to_tf (dict f s) v =
      to_keyed (nil (tf_map (type_of s)))
        (λ l. and_then (convert_entries (to_tf s) l) (λ ts. gives (known_map (type_of s) ts))) v
  to_tf (object f p) v =
      to_keyed (nil (tf_object (types_of p)))
        (λ l. and_then (to_tf_properties p l) (λ ts. gives (known_object (types_of p) ts))) v

  pub to_tf_properties : Properties → Fields → Out TfFields
  to_tf_properties no_properties m = gives no_entries
  to_tf_properties (property k s p) m =
      and_then (to_tf s (value_or_null (lookup k m)))
        (λ t. and_then (to_tf_properties p m) (λ ts. gives (entry k t ts)))

-- Neither known nor not null.
unfoldable pub is_missing : TfValue → Bool
is_missing (nil t) = true
is_missing (unknown t) = true
is_missing _ = false

unfoldable pub as_string : Str → Schema → Out Value
as_string x (primitive f string) = gives (text x)
as_string x s = expected (bytes "another type than string")

unfoldable pub as_bool : Bool → Schema → Out Value
as_bool b (primitive f bool) = gives (truth b)
as_bool b s = expected (bytes "another type than bool")

unfoldable pub as_items : (Schema → Out Values) → Schema → Out Value
as_items f (list g s) = and_then (f s) (λ l. gives (items l))
as_items f (set g s) = and_then (f s) (λ l. gives (items l))
as_items f s = expected (bytes "another type than list or set")

unfoldable pub as_fields : (Schema → Out Fields) → (Properties → Out Fields) → Schema → Out Value
as_fields f g (dict h s) = and_then (f s) (λ m. gives (fields m))
as_fields f g (object h p) = and_then (g p) (λ m. gives (fields m))
as_fields f g s = expected (bytes "another type than map or object")

-- What is added to a map for an element: a missing one is left out, unless it is to be preserved.
unfoldable pub add_entry : Bool → Str → TfValue → Out Value → Out Fields → Out Fields
add_entry preserve k t v rest =
    if not preserve && is_missing t
    then rest
    else and_then v (λ u. and_then rest (λ m. gives (field k u m)))

unfoldable pub with_schema : Option Schema → (Schema → Out Value) → Out Value
with_schema none f = expected (bytes "known property")
with_schema (some s) f = f s

-- `to_int` and `to_float` are what `Int64` and `Float64` of a `big.Float` make of a number.
module _ (to_int to_float : Str → Str) (preserve : Bool) where
  unfoldable pub as_number : Str → Schema → Out Value
  as_number x (primitive f int) = gives (number (to_int x))
  as_number x (primitive f float) = gives (number (to_float x))
  as_number x s = expected (bytes "another type than number")

  unfoldable pub from_missing : TfValue → Schema → Out Value
  from_missing t s = gives (if preserve then kept t else zero_value s)

  unfoldable mutual
    -- `fromTFValueAny`
    pub from_tf : TfValue → Schema → Out Value
    from_tf (nil t) s = from_missing (nil t) s
    from_tf (unknown t) s = from_missing (unknown t) s
    from_tf (known_string x) s = as_string x s
    from_tf (known_number x) s = as_number x s
    from_tf (known_bool b) s = as_bool b s
    from_tf (known_list t l) s = as_items (from_values l) s
    from_tf (known_set t l) s = as_items (from_values l) s
    from_tf (known_map t m) s = as_fields (from_entries m) (from_properties m) s
    from_tf (known_object t m) s = as_fields (from_entries m) (from_properties m) s

    pub from_values : TfValues → Schema → Out Values
    from_values no_values s = gives no_items
    from_values (value t l) s =
        and_then (from_tf t s) (λ v. and_then (from_values l s) (λ vs. gives (item v vs)))

    pub from_entries : TfFields → Schema → Out Fields
    from_entries no_entries s = gives no_fields
    from_entries (entry k t m) s = add_entry preserve k t (from_tf t s) (from_entries m s)

    pub from_properties : TfFields → Properties → Out Fields
    from_properties no_entries p = gives no_fields
    from_properties (entry k t m) p =
        add_entry preserve k t (with_schema (schema_at k p) (from_tf t)) (from_properties m p)

  -- `fromTFValue`: nothing of a missing value, and else a map.
  unfoldable pub decode : Schema → TfValue → Out (Option Fields)
  decode s t =
      if is_missing t
      then gives none
      else and_then (from_tf t s)
          (λ v. elim v [ fields m ↦ gives (some m) | _ ↦ expected (bytes "map[string]any") ])
