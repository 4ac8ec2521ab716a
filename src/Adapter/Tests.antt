-- ===== src/Adapter/Tests.antt =====
-- Tests of the data of internal/plugin/adapter.
use terraform_provider_aiven.Prelude.{◌≡◌, refl, false, none, some, [], ◌∷◌, bytes, str_eq, join}
use terraform_provider_aiven.Converters.Values.{gives, panics, and_then}
use terraform_provider_aiven.UserConfigDiff.{split_dots}
use terraform_provider_aiven.Adapter.Values.{
  Flags, string, primitive, list, object, Properties, no_properties, property, TfValue, nil,
  unknown, known_string, known_object, tf_string, tf_list, entry, no_entries, Value, text, items,
  fields, no_items, item, Fields, no_fields, field, flags, type_of, types_of, lookup, schema_at,
}
use terraform_provider_aiven.Adapter.Marshalling.{
  as_fields, add_entry, is_missing, with_schema, as_string, from_tf, to_tf,
}
use terraform_provider_aiven.Adapter.Decoded.{from_tf-Shaped}
use terraform_provider_aiven.Adapter.Shape.{
  PrimitiveShaped, AllItems, IsItems, IsFields, IfThere, HasType, Shaped, to_tf-HasType,
}
use terraform_provider_aiven.Adapter.Normalize.{Text, normalize}
use terraform_provider_aiven.Adapter.Normalized.{WellKeyed, WellKeyedIn}
use terraform_provider_aiven.Adapter.Data.{
  ResourceData, or_empty, current_state, with_current, remove, get_ok,
}
use terraform_provider_aiven.Adapter.DataShape.{Fit}
use terraform_provider_aiven.Adapter.Store.{flatten, tf_value}
use terraform_provider_aiven.Adapter.SetShape.{FitData, flatten-HasType}

abbrev plain_flags : Flags
plain_flags = record {
  computed = false;
  is_object = false;
  is_attribute = false;
  zero_not_allowed = false;
}

abbrev named : Properties
named = property (bytes "id") (primitive plain_flags string) (
    property (bytes "name") (primitive plain_flags string)
      (property (bytes "tags") (list plain_flags (primitive plain_flags string)) no_properties))

abbrev tagged : Value
tagged = fields (
    field (bytes "name") (text (bytes "n"))
      (field (bytes "tags") (items (item (text (bytes "t")) no_items)) no_fields))

tagged-Shaped : Shaped (object plain_flags named) tagged
unfolding Shaped PrimitiveShaped AllItems IsItems IsFields IfThere lookup str_eq
tagged-Shaped = (tt, (tt, ((tt, tt), tt)))

to_tf-HasType_example :
    (t : TfValue) × (to_tf (object plain_flags named) tagged ≡ gives t)
    × HasType t (type_of (object plain_flags named))
to_tf-HasType_example = to_tf-HasType (object plain_flags named) tagged tagged-Shaped

abbrev lib : Text
lib = record {
  sprint = elim [ text s ↦ s | _ ↦ [] ];
  parse_int = λ s. none;
  parse_float = λ s. none;
  parse_bool = λ s. none;
}

abbrev planned : Fields → ResourceData
planned m = record {
  root = plain_flags;
  schema = named;
  plan = some m;
  state = none;
  config = none;
  id_fields = bytes "name" ∷ [];
  is_data_source = false;
  requires_replace = [];
}

-- What the API answers: a name, no tags, and a field that the schema does not have.
abbrev reported : Fields
reported =
    field (bytes "name") (text (bytes "n"))
      (field (bytes "tags") (items no_items) (field (bytes "new") (text (bytes "x")) no_fields))

abbrev flattened : Fields
flattened =
    field (bytes "name") (text (bytes "n")) (field (bytes "id") (text (bytes "n")) no_fields)

flatten_named : flatten lib (λ s. none) (planned no_fields) [] reported ≡ gives (planned flattened)
unfolding flatten and_then normalize str_eq with_current get_ok split_dots schema_at lookup flags
    current_state remove join
flatten_named = refl

named-WellKeyed : WellKeyedIn named
unfolding WellKeyedIn schema_at str_eq
named-WellKeyed = (refl, tt, (refl, tt, (refl, tt, tt)))

planned-FitData : FitData (planned no_fields)
unfolding FitData Fit IfThere lookup or_empty current_state
planned-FitData k s e = tt

flatten-HasType_example :
    FitData (planned flattened)
    × (t : TfValue) × (tf_value (planned flattened) ≡ gives t)
    × HasType t (type_of (object plain_flags named))
flatten-HasType_example =
    flatten-HasType lib (λ s. none) (planned no_fields) [] reported (planned flattened)
      named-WellKeyed planned-FitData flatten_named

-- An empty text for a field of the id is stored as nil, which is no string.
abbrev reported_empty : Fields
reported_empty = field (bytes "name") (text []) no_fields

flatten_empty_id : flatten lib (λ s. none) (planned no_fields) [] reported_empty ≡ panics
unfolding flatten and_then normalize str_eq with_current get_ok split_dots schema_at lookup flags
    current_state remove join
flatten_empty_id = refl

-- A name, and tags that are null.
abbrev stored : TfValue
stored = known_object (types_of named) (
    entry (bytes "id") (unknown tf_string) (
      entry (bytes "name") (known_string (bytes "n"))
        (entry (bytes "tags") (nil (tf_list tf_string)) no_entries)))

from_stored :
    from_tf (λ s. s) (λ s. s) false stored (object plain_flags named)
    ≡ gives (fields (field (bytes "name") (text (bytes "n")) no_fields))
unfolding from_tf and_then str_eq schema_at as_fields add_entry is_missing with_schema as_string
from_stored = refl

named_object-WellKeyed : WellKeyed (object plain_flags named)
unfolding WellKeyed
named_object-WellKeyed = named-WellKeyed

from_tf-Shaped_example :
    Shaped (object plain_flags named) (fields (field (bytes "name") (text (bytes "n")) no_fields))
from_tf-Shaped_example =
    from_tf-Shaped (λ s. s) (λ s. s) stored (object plain_flags named)
      (fields (field (bytes "name") (text (bytes "n")) no_fields)) named_object-WellKeyed
      from_stored
