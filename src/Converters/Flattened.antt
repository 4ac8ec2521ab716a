-- ===== src/Converters/Flattened.antt =====
-- What the converters make of a value of the schema on the way to Terraform.
use terraform_provider_aiven.Prelude.{
  ◌≡◌, refl, ◌∙◌, inl, inr, arith, Bool, true, false, Bool-cases, none, some, Str, str_eq,
  str_eq_refl, str_eq_iff,
}
use terraform_provider_aiven.Converters.Values.{
  Value, text, truth, number, Values, no_items, item, Fields, field, Kind, string_kind, bool_kind,
  number_kind, Schema, scalar, Schemas, entry, gives, and_then, lookup, non_nil,
}
use terraform_provider_aiven.Converters.Flatten.{
  cast_type, field_error, join_fields, add_field, found, some_object, add_object, flatten_list,
  objects_of, flatten_each, list_of, flatten_attr, flatten_fields,
}
use terraform_provider_aiven.Converters.Typed.{
  OfKind, AllOfKind, has_key, Fits, fits_scalar, fits_list, fits_set, fits_object, fits_objects,
  FitsFields, fits_end, fits_skip, fits_field, FitsItems, fits_none, fits_item, to_tf, to_fields,
  to_items,
}

has_key_first : (k : Str) (s : Schema) (r : Schemas) → has_key k (entry k s r) ≡ true
unfolding has_key
has_key_first k s r = rw (str_eq_refl k) refl

has_key_rest :
    (j k : Str) (s : Schema) (r : Schemas) → has_key j r ≡ true → has_key j (entry k s r) ≡ true
unfolding has_key
has_key_rest j k s r h = rw h (ground arith)

other_key :
    (j k : Str) (r : Schemas) → has_key k r ≡ false → has_key j r ≡ true → str_eq j k ≡ false
other_key j k r h g = elim (Bool-cases (str_eq j k)) [
  | inl e ↦ (let q : j ≡ k = (str_eq_iff j k).0 e in cc (h, g, q))
  | inr e ↦ e
]

pub not_first :
    (j k : Str) (s : Schema) (r : Schemas)
    → has_key j (entry k s r) ≡ false
    → (str_eq j k ≡ false) × (has_key j r ≡ false)
unfolding has_key
not_first j k s r h = ground arith

pub kind_non_nil : (k : Kind) (v : Value) → OfKind k v → non_nil v ≡ some v
unfolding OfKind non_nil
kind_non_nil string_kind (text s) h = refl
kind_non_nil bool_kind (truth b) h = refl
kind_non_nil number_kind (number s) h = refl
kind_non_nil k v h = absurd h

cast_type_lem : (k : Kind) (v : Value) → OfKind k v → cast_type k v ≡ gives v
unfolding OfKind cast_type
cast_type_lem string_kind (text s) h = refl
cast_type_lem bool_kind (truth b) h = refl
cast_type_lem number_kind (number s) h = refl
cast_type_lem k v h = absurd h

-- The first object holds what the second does, for the keys of the schema.
unfoldable pub Agree : Schemas → Fields → Fields → Type 0
Agree r whole f = (k : Str) → has_key k r ≡ true → lookup k whole ≡ lookup k f

pub Agree-rest :
    (k : Str) (s : Schema) (r : Schemas) (whole f : Fields)
    → Agree (entry k s r) whole f
    → Agree r whole f
unfolding Agree
Agree-rest k s r whole f a j h = a j (has_key_rest j k s r h)

pub Agree-next :
    (k : Str) (s : Schema) (r : Schemas) (v : Value) (whole f : Fields)
    → has_key k r ≡ false
    → Agree (entry k s r) whole (field k v f)
    → Agree r whole f
unfolding Agree lookup
Agree-next k s r v whole f n a j h =
    rw (a j (has_key_rest j k s r h)) (rw (other_key j k r n h) refl)

pub Agree-here :
    (k : Str) (s : Schema) (r : Schemas) (whole f : Fields)
    → Agree (entry k s r) whole f
    → lookup k whole ≡ lookup k f
unfolding Agree
Agree-here k s r whole f a = a k (has_key_first k s r)

pub Agree-first :
    (k : Str) (s : Schema) (r : Schemas) (v : Value) (whole f : Fields)
    → Agree (entry k s r) whole (field k v f)
    → lookup k whole ≡ some v
unfolding lookup
Agree-first k s r v whole f a =
    rw (Agree-here k s r whole (field k v f) a) (rw (str_eq_refl k) refl)

pub Agree-refl : (r : Schemas) (f : Fields) → Agree r f f
unfolding Agree
Agree-refl r f k h = refl

module _ (new_set : Schema → Values → Values) where
  lookup-absent :
      {r : Schemas} {f : Fields} (k : Str)
      → FitsFields new_set r f
      → has_key k r ≡ false
      → lookup k f ≡ none
  unfolding lookup
  lookup-absent k fits_end h = refl
  lookup-absent k (fits_skip j s r f g p) h = lookup-absent k p (not_first k j s r h).1
  lookup-absent k (fits_field j s r v f g q p) h =
      rw (not_first k j s r h).0 (lookup-absent k p (not_first k j s r h).1)

  fits_non_nil : {s : Schema} {v : Value} → Fits new_set s v → non_nil v ≡ some v
  unfolding non_nil
  fits_non_nil (fits_scalar k b v h) = kind_non_nil k v h
  fits_non_nil (fits_list k b b' v l h) = refl
  fits_non_nil (fits_set k b b' v l h e) = refl
  fits_non_nil (fits_object r b k v f p) = refl
  fits_non_nil (fits_objects m r b v l h p) = refl

  to_tf-non_nil :
      {s : Schema} {v : Value} (p : Fits new_set s v)
      → non_nil (to_tf new_set p) ≡ some (to_tf new_set p)
  unfolding non_nil to_tf
  to_tf-non_nil (fits_scalar k b v h) = kind_non_nil k v h
  to_tf-non_nil (fits_list k b b' v l h) = refl
  to_tf-non_nil (fits_set k b b' v l h e) = refl
  to_tf-non_nil (fits_object r b k v f p) = refl
  to_tf-non_nil (fits_objects m r b v l h p) = refl

  some_object-to_fields :
      {r : Schemas} {k : Str} {v : Value} {f : Fields} (p : FitsFields new_set r (field k v f))
      → some_object (to_fields new_set p) ≡ some (to_fields new_set p)
  unfolding some_object to_fields
  some_object-to_fields (fits_skip j s r f h p) = some_object-to_fields p
  some_object-to_fields (fits_field j s r v f h q p) = refl

  flatten_each_lem :
      (k : Kind) (b : Bool) (l : Values)
      → AllOfKind k l
      → flatten_each (flatten_attr new_set (scalar k b)) l ≡ gives l
  unfolding AllOfKind flatten_each flatten_attr and_then
  flatten_each_lem k b no_items h = refl
  flatten_each_lem k b (item v l) h = rw (cast_type_lem k v h.0, flatten_each_lem k b l h.1) refl

  found_lem :
      {s : Schema} {v : Value} (p : Fits new_set s v)
      → flatten_attr new_set s v ≡ gives (to_tf new_set p)
      → found (flatten_attr new_set s) (some v) ≡ gives (some (to_tf new_set p))
  unfolding found and_then
  found_lem p e = rw (found, fits_non_nil p, e, to_tf-non_nil p) refl

  skipped :
      (k : Str) (s : Schema) (r : Schemas) (f : Fields)
      → has_key k r ≡ false
      → FitsFields new_set r f
      → (whole : Fields) → Agree (entry k s r) whole f
      → found (flatten_attr new_set s) (lookup k whole) ≡ gives none
  unfolding found
  skipped k s r f h p whole a = rw (Agree-here k s r whole f a ∙ lookup-absent k p h) refl

  mutual
    unfolding flatten_attr to_tf and_then list_of objects_of flatten_list add_object join_fields
        field_error add_field

    pub flatten_attr_lem :
        {s : Schema} {v : Value} (p : Fits new_set s v)
        → flatten_attr new_set s v ≡ gives (to_tf new_set p)
    flatten_attr_lem (fits_scalar k b v h) = cast_type_lem k v h
    flatten_attr_lem (fits_list k b b' v l h) = refl
    flatten_attr_lem (fits_set k b b' v l h e) = rw (flatten_each_lem k b (item v l) h, e) refl
    flatten_attr_lem (fits_object r b k v f p) =
        rw
          (flatten_fields_lem p (field k v f) (Agree-refl r (field k v f)), some_object-to_fields p)
          refl
    flatten_attr_lem (fits_objects m r b v l h p) = rw (flatten_items_lem p) refl

    flatten_fields_lem :
        {r : Schemas} {f : Fields} (p : FitsFields new_set r f) (whole : Fields)
        → Agree r whole f
        → flatten_fields new_set r whole ≡ gives (to_fields new_set p)
    flatten_fields_lem fits_end whole a = refl
    flatten_fields_lem (fits_skip k s r f h p) whole a =
        rw (skipped k s r f h p whole a, flatten_fields_lem p whole (Agree-rest k s r whole f a))
          refl
    flatten_fields_lem (fits_field k s r v f h q p) whole a =
        rw
          (
            Agree-first k s r v whole f a,
            found_lem q (flatten_attr_lem q),
            flatten_fields_lem p whole (Agree-next k s r v whole f h a),
          )
          refl

    flatten_items_lem :
        {r : Schemas} {l : Values} (p : FitsItems new_set r l)
        → flatten_list (flatten_fields new_set r) l ≡ gives (to_items new_set p)
    flatten_items_lem (fits_none r) = refl
    flatten_items_lem (fits_item r k v f l p q) =
        rw
          (
            flatten_fields_lem p (field k v f) (Agree-refl r (field k v f)),
            flatten_items_lem q,
            some_object-to_fields p,
          )
          refl
