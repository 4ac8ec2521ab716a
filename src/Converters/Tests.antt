-- ===== src/Converters/Tests.antt =====
-- The converters at concrete inputs.
use terraform_provider_aiven.Prelude.{
  ◌≡◌, refl, true, false, Option, some, [], if◌then◌else◌, Str, bytes, str_eq, itoa,
}
use terraform_provider_aiven.Converters.Values.{
  Value, null, text, items, set, object, Values, no_items, item, Fields, no_fields, field,
  string_kind, number_kind, Schema, scalar, scalars, objects, Schemas, no_schemas, entry, Config,
  unset, written, listed, keyed, no_configs, config, gives, and_then, lookup, lookup_config,
  force_new,
}
use terraform_provider_aiven.Converters.Flatten.{flatten_attr}
use terraform_provider_aiven.Converters.Expand.{
  Resource, at_key, at_index, get_attr, is_null, expand_attr,
}
use terraform_provider_aiven.Converters.Typed.{
  OfKind, AllOfKind, has_key, Fits, fits_scalar, fits_set, fits_object, FitsFields, fits_end,
  fits_skip, fits_field, to_tf, to_fields, StoredObjects, IsAbsent, StoredField, Stored,
  StoredFields,
}
use terraform_provider_aiven.Converters.Flatten.{join_fields, field_error, add_field}
use terraform_provider_aiven.Converters.Expand.{expand_obj, expand_set, is_unsent}
use terraform_provider_aiven.Converters.Rename.{
  Mapping, rename_aliases_to_dto, rename_all_to_dto, sort_keys,
}
use terraform_provider_aiven.Converters.UserConfig.{
  UserConfigType, service, first_config, guard_purge, is_empty_list, conversion_error, expand_with,
  expand,
}
use terraform_provider_aiven.Converters.RoundTrip.{expand-flatten}
use terraform_provider_aiven.Converters.Purge.{expand-purge_allowed}

abbrev same_list : Schema → Values → Values
same_list e l = l

abbrev names : Schema
names = scalars true (scalar string_kind false) false

-- An object with a string, a set of strings and a number.
abbrev keys : Schemas
keys =
    entry (bytes "a") (scalar string_kind false)
      (entry (bytes "ip") names (entry (bytes "n") (scalar number_kind false) no_schemas))

abbrev strings : Values
strings = item (text (bytes "y")) no_items

abbrev dto : Fields
dto = field (bytes "a") (text (bytes "x")) (field (bytes "ip") (items strings) no_fields)

unfoldable read_path : Str → Value
read_path p =
    if str_eq p (bytes "c.0.a")
    then text (bytes "x")
    else if str_eq p (bytes "c.0.ip")
    then set strings
    else null

abbrev stored : Resource
stored = record { get = read_path; has_change = λ p. false; is_new = false }

abbrev written_config : Config
written_config = listed (
    config (bytes "0")
      (keyed (
        config (bytes "a") written (
          config (bytes "ip") (listed (config (bytes "0") written no_configs))
            (config (bytes "n") unset no_configs))))
      no_configs)

unfoldable fits_keys : FitsFields same_list keys dto
unfolding has_key OfKind AllOfKind str_eq
fits_keys =
    fits_field (bytes "a") (scalar string_kind false) _ (text (bytes "x")) _ refl
      (fits_scalar string_kind false (text (bytes "x")) tt)
      (fits_field (bytes "ip") names _ (items strings) no_fields refl
        (fits_set string_kind false false (text (bytes "y")) no_items (tt, tt) refl)
        (fits_skip (bytes "n") (scalar number_kind false) no_schemas no_fields refl fits_end))

unfoldable fits_dto : Fits same_list (objects false 1 keys false) (object dto)
fits_dto = fits_object keys false (bytes "a") (text (bytes "x")) _ fits_keys

stored_dto :
    Stored stored (objects false 1 keys false) (bytes "c") written_config (to_tf same_list fits_dto)
unfolding Stored StoredFields StoredObjects StoredField IsAbsent fits_dto fits_keys to_tf to_fields
    read_path at_key at_index get_attr is_null lookup lookup_config force_new str_eq itoa
stored_dto = (
  (
    (refl, (written, refl, (refl, refl))),
    (
      (refl, (listed (config (bytes "0") written no_configs), refl, refl)),
      ((unset, refl, refl, refl), tt),
    ),
  ),
  tt,
)

expand-flatten_example :
    (flatten_attr same_list (objects false 1 keys false) (object dto)
      ≡ gives (to_tf same_list fits_dto))
    × (expand_attr stored (objects false 1 keys false) (bytes "c") written_config
        ≡ gives (some (object dto)))
expand-flatten_example =
    expand-flatten same_list stored (objects false 1 keys false) (object dto) (bytes "c")
      written_config fits_dto stored_dto

-- The list of ip filters has been removed from the configuration.
abbrev filters : Schemas
filters = entry (bytes "ip_filter") names no_schemas

abbrev removed : Resource
removed = record { get = λ p. null; has_change = λ p. true; is_new = false }

abbrev no_filters : Fields
no_filters = field (bytes "ip_filter") (items no_items) no_fields

abbrev user_configs : UserConfigType → Str → Option Schemas
user_configs kind name = some filters

abbrev no_mapping : UserConfigType → Str → Mapping
no_mapping kind name = []

abbrev empty_config : Str → Config
empty_config key = listed no_configs

expand_empty :
    expand user_configs no_mapping removed empty_config true service (bytes "kafka")
    ≡ gives (some no_filters)
unfolding expand expand_with conversion_error first_config and_then rename_aliases_to_dto
    rename_all_to_dto sort_keys guard_purge is_empty_list lookup expand_obj expand_attr expand_set
    is_unsent is_null get_attr force_new join_fields field_error add_field str_eq
expand_empty = refl

found_first : lookup (bytes "ip_filter") no_filters ≡ some (items no_items)
unfolding lookup str_eq
found_first = refl

expand-purge_allowed_example : true ≡ true
expand-purge_allowed_example =
    expand-purge_allowed user_configs no_mapping removed empty_config true service (bytes "kafka")
      no_filters expand_empty found_first
