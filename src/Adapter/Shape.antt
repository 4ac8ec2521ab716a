-- ===== src/Adapter/Shape.antt =====
-- The shapes of the values that the adapter holds and the types of those of Terraform, for `toTFValue`.
use terraform_provider_aiven.Prelude.{◌≡◌, refl, Option, none, some}
use terraform_provider_aiven.Converters.Values.{Out, gives, and_then}
use terraform_provider_aiven.Adapter.Values.{
  Flags, Primitive, string, int, float, bool, Schema, primitive, list, set, dict, object,
  Properties, no_properties, property, TfType, tf_string, tf_number, tf_bool, tf_list, tf_set,
  tf_map, tf_object, TfTypes, no_types, typed, TfValue, nil, unknown, known_string, known_number,
  known_bool, known_list, known_set, known_map, known_object, TfValues, no_values, value, TfFields,
  no_entries, entry, Value, null, text, number, truth, items, fields, Values, no_items, item,
  Fields, no_fields, field, type_of, types_of, lookup,
}
use terraform_provider_aiven.Adapter.Marshalling.{
  plain_primitive, new_primitive, convert_items, convert_entries, to_collection, to_keyed,
  to_primitive, value_or_null, to_tf, to_tf_properties,
}

unfoldable pub PrimitiveShaped : Primitive → Value → Type 0
PrimitiveShaped p null = Unit
PrimitiveShaped string (text s) = Unit
PrimitiveShaped int (number s) = Unit
PrimitiveShaped float (number s) = Unit
PrimitiveShaped bool (truth b) = Unit
PrimitiveShaped p v = ⊥

unfoldable pub AllItems : (Value → Type 0) → Values → Type 0
AllItems P no_items = Unit
AllItems P (item v l) = P v × AllItems P l

unfoldable pub AllFields : (Value → Type 0) → Fields → Type 0
AllFields P no_fields = Unit
AllFields P (field k v m) = P v × AllFields P m

unfoldable pub IsItems : (Values → Type 0) → Value → Type 0
IsItems P null = Unit
IsItems P (items l) = P l
IsItems P v = ⊥

unfoldable pub IsFields : (Fields → Type 0) → Value → Type 0
IsFields P null = Unit
IsFields P (fields m) = P m
IsFields P v = ⊥

unfoldable pub IfThere : (Value → Type 0) → Option Value → Type 0
IfThere P none = Unit
IfThere P (some v) = P v

unfoldable mutual
  -- A value of the schema, nil included, without what a plan preserves.
  pub Shaped : Schema → Value → Type 0
  Shaped (primitive f p) v = PrimitiveShaped p v
  Shaped (list f s) v = IsItems (AllItems (Shaped s)) v
  Shaped (set f s) v = IsItems (AllItems (Shaped s)) v
  Shaped (dict f s) v = IsFields (AllFields (Shaped s)) v
  Shaped (object f p) v = IsFields (ShapedFields p) v

  pub ShapedFields : Properties → Fields → Type 0
  ShapedFields no_properties m = Unit
  ShapedFields (property k s p) m = IfThere (Shaped s) (lookup k m) × ShapedFields p m

-- A value of the package tftypes has a type, with all that it holds.
unfoldable mutual
  pub HasType : TfValue → TfType → Type 0
  HasType (nil t) u = t ≡ u
  HasType (unknown t) u = t ≡ u
  HasType (known_string x) u = u ≡ tf_string
  HasType (known_number x) u = u ≡ tf_number
  HasType (known_bool b) u = u ≡ tf_bool
  HasType (known_list t l) u = (u ≡ tf_list t) × HaveType l t
  HasType (known_set t l) u = (u ≡ tf_set t) × HaveType l t
  HasType (known_map t m) u = (u ≡ tf_map t) × EntriesHaveType m t
  HasType (known_object ts m) u = (u ≡ tf_object ts) × HaveTypes m ts

  pub HaveType : TfValues → TfType → Type 0
  HaveType no_values t = Unit
  HaveType (value v l) t = HasType v t × HaveType l t

  pub EntriesHaveType : TfFields → TfType → Type 0
  EntriesHaveType no_entries t = Unit
  EntriesHaveType (entry k v m) t = HasType v t × EntriesHaveType m t

  pub HaveTypes : TfFields → TfTypes → Type 0
  HaveTypes no_entries no_types = Unit
  HaveTypes (entry k v m) (typed j t ts) = (k ≡ j) × HasType v t × HaveTypes m ts
  HaveTypes m ts = ⊥

-- What a conversion gives, with its type.
Converted : Out TfValue → TfType → Type 0
Converted r u = (t : TfValue) × (r ≡ gives t) × HasType t u

to_primitive-HasType :
    (p : Primitive) (f : Flags) (v : Value)
    → PrimitiveShaped p v
    → Converted (to_primitive p v) (type_of (primitive f p))
unfolding PrimitiveShaped Converted to_primitive new_primitive plain_primitive type_of HasType
to_primitive-HasType string f null h = (nil tf_string, refl, refl)
to_primitive-HasType int f null h = (nil tf_number, refl, refl)
to_primitive-HasType float f null h = (nil tf_number, refl, refl)
to_primitive-HasType bool f null h = (nil tf_bool, refl, refl)
to_primitive-HasType string f (text s) h = (known_string s, refl, refl)
to_primitive-HasType int f (number s) h = (known_number s, refl, refl)
to_primitive-HasType float f (number s) h = (known_number s, refl, refl)
to_primitive-HasType bool f (truth b) h = (known_bool b, refl, refl)
to_primitive-HasType p f v h = absurd h

items-HaveType :
    (f : Value → Out TfValue) (P : Value → Type 0) (u : TfType)
    → ((v : Value) → P v → Converted (f v) u)
    → (l : Values) → AllItems P l
    → (ts : TfValues) × (convert_items f l ≡ gives ts) × HaveType ts u
unfolding AllItems Converted convert_items and_then HaveType
items-HaveType f P u k no_items h = (no_values, refl, tt)
items-HaveType f P u k (item v l) h =
    let (t, e, p) = k v h.0 in
    let (ts, d, q) = items-HaveType f P u k l h.1 in (value t ts, rw (e, d) refl, (p, q))

entries-HaveType :
    (f : Value → Out TfValue) (P : Value → Type 0) (u : TfType)
    → ((v : Value) → P v → Converted (f v) u)
    → (l : Fields) → AllFields P l
    → (ts : TfFields) × (convert_entries f l ≡ gives ts) × EntriesHaveType ts u
unfolding AllFields Converted convert_entries and_then EntriesHaveType
entries-HaveType f P u k no_fields h = (no_entries, refl, tt)
entries-HaveType f P u k (field j v l) h =
    let (t, e, p) = k v h.0 in
    let (ts, d, q) = entries-HaveType f P u k l h.1 in (entry j t ts, rw (e, d) refl, (p, q))

-- A collection that is not nil, given what its items are converted to.
collection-HasType :
    (n : TfValue) (f : Values → Out TfValue) (P : Values → Type 0) (u : TfType) (v : Value)
    → HasType n u
    → ((l : Values) → P l → Converted (f l) u)
    → IsItems P v
    → Converted (to_collection n f v) u
unfolding Converted to_collection IsItems
collection-HasType n f P u null h k p = (n, refl, h)
collection-HasType n f P u (items l) h k p = k l p
collection-HasType n f P u v h k p = absurd p

keyed-HasType :
    (n : TfValue) (f : Fields → Out TfValue) (P : Fields → Type 0) (u : TfType) (v : Value)
    → HasType n u
    → ((m : Fields) → P m → Converted (f m) u)
    → IsFields P v
    → Converted (to_keyed n f v) u
unfolding Converted to_keyed IsFields
keyed-HasType n f P u null h k p = (n, refl, h)
keyed-HasType n f P u (fields m) h k p = k m p
keyed-HasType n f P u v h k p = absurd p

-- Nil is of every schema.
null-Shaped : (s : Schema) → Shaped s null
unfolding Shaped PrimitiveShaped IsItems IsFields
null-Shaped (primitive f string) = tt
null-Shaped (primitive f int) = tt
null-Shaped (primitive f float) = tt
null-Shaped (primitive f bool) = tt
null-Shaped (list f s) = tt
null-Shaped (set f s) = tt
null-Shaped (dict f s) = tt
null-Shaped (object f p) = tt

or_null-Shaped : (s : Schema) (o : Option Value) → IfThere (Shaped s) o → Shaped s (value_or_null o)
unfolding IfThere value_or_null
or_null-Shaped s none h = null-Shaped s
or_null-Shaped s (some v) h = h

mutual
  unfolding to_tf to_tf_properties type_of types_of Shaped ShapedFields Converted HasType and_then
      value_or_null IfThere

  to_tf_converts : (s : Schema) (v : Value) → Shaped s v → Converted (to_tf s v) (type_of s)
  to_tf_converts (primitive f p) v h = to_primitive-HasType p f v h
  to_tf_converts (list f s) v h =
      collection-HasType _ _ _ _ v refl
        (λ l p.
          let (ts, e, q) = items-HaveType (to_tf s) (Shaped s) (type_of s) (to_tf_converts s) l p in
          (known_list (type_of s) ts, rw e refl, (refl, q)))
        h
  to_tf_converts (set f s) v h =
      collection-HasType _ _ _ _ v refl
        (λ l p.
          let (ts, e, q) = items-HaveType (to_tf s) (Shaped s) (type_of s) (to_tf_converts s) l p in
          (known_set (type_of s) ts, rw e refl, (refl, q)))
        h
  to_tf_converts (dict f s) v h =
      keyed-HasType _ _ _ _ v refl
        (λ l p.
          let (ts, e, q) =
            entries-HaveType (to_tf s) (Shaped s) (type_of s) (to_tf_converts s) l p in
          (known_map (type_of s) ts, rw e refl, (refl, q)))
        h
  to_tf_converts (object f p) v h =
      keyed-HasType _ _ _ _ v refl
        (λ m q.
          let (ts, e, r) = properties_convert p m q in
          (known_object (types_of p) ts, rw e refl, (refl, r)))
        h

  properties_convert :
      (p : Properties) (m : Fields)
      → ShapedFields p m
      → (ts : TfFields) × (to_tf_properties p m ≡ gives ts) × HaveTypes ts (types_of p)
  properties_convert no_properties m h = (no_entries, refl, tt)
  properties_convert (property k s p) m h =
      let (t, e, q) =
        to_tf_converts s (value_or_null (lookup k m)) (or_null-Shaped s (lookup k m) h.0) in
      let (ts, d, r) = properties_convert p m h.1 in (entry k t ts, rw (e, d) refl, (refl, q, r))

-- A value of the schema is converted without an error or a panic, and what Terraform gets has the type
-- of the schema, with all that it holds.
pub to_tf-HasType :
    (s : Schema) (v : Value)
    → Shaped s v
    → (t : TfValue) × (to_tf s v ≡ gives t) × HasType t (type_of s)
unfolding Converted
to_tf-HasType s v h = to_tf_converts s v h
