-- ===== src/Converters/UserConfig.antt =====
-- `Expand` and `Flatten` of converters.go, with `convertIPFilter` of utils.go. The schemas and the mappings
-- of names are generated and are parameters, and so is what the Terraform SDK says of the resource.
use terraform_provider_aiven.Prelude.{
  Bool, true, false, not, ◌&&◌, ◌||◌, Option, none, some, List, [], ◌∷◌, ◌++◌, if◌then◌else◌, Str,
  bytes, str_eq,
}
use terraform_provider_aiven.Common.{Error, plain, wrap}
use terraform_provider_aiven.Converters.Values.{
  Value, null, text, items, object, Values, no_items, item, Fields, no_fields, field, Schema,
  Schemas, Config, unset, written, listed, keyed, no_configs, config, Out, gives, fails, panics,
  and_then, lookup,
}
use terraform_provider_aiven.Converters.Flatten.{flatten_obj}
use terraform_provider_aiven.Converters.Expand.{Resource, expand_obj}
use terraform_provider_aiven.Converters.Rename.{
  Mapping, put_field, rename_aliases_to_dto, rename_all_to_tfo, sort_keys,
}

pub data UserConfigType : Type 0 where
  service integration endpoint : UserConfigType

unfoldable pub kind_name : UserConfigType → Str
kind_name service = bytes "service"
kind_name integration = bytes "service integration"
kind_name endpoint = bytes "service integration endpoint"

unfoldable pub is_legacy : Str → Bool
is_legacy name =
    str_eq name (bytes "external_google_cloud_bigquery")
    || str_eq name (bytes "external_postgresql")

unfoldable pub user_config_key : UserConfigType → Str → Str
user_config_key service name = name ++ bytes "_user_config"
user_config_key integration name = name ++ bytes "_user_config"
user_config_key endpoint name = if is_legacy name then name else name ++ bytes "_user_config"

-- A `map[string]string` as JSON gives it: its value for "network"; `none` is an error.
unfoldable pub network_of : Fields → Option Str
network_of no_fields = some []
network_of (field k (text s) f) = elim (network_of f) [
  | none ↦ none
  | some t ↦ some (if str_eq k (bytes "network") then s else t)
]
network_of (field k null f) = network_of f
network_of (field k v f) = none

unfoldable pub add_text : Option Str → Option (List Str) → Option (List Str)
add_text none l = none
add_text (some s) none = none
add_text (some s) (some l) = some (s ∷ l)

unfoldable pub networks_of_items : Values → Option (List Str)
networks_of_items no_items = some []
networks_of_items (item (object f) l) = add_text (network_of f) (networks_of_items l)
networks_of_items (item null l) = add_text (some []) (networks_of_items l)
networks_of_items (item v l) = none

unfoldable pub texts_of_items : Values → Option (List Str)
texts_of_items no_items = some []
texts_of_items (item (text s) l) = add_text (some s) (texts_of_items l)
texts_of_items (item null l) = add_text (some []) (texts_of_items l)
texts_of_items (item v l) = none

-- A field of a list type: an absent one and a null are empty.
unfoldable pub list_field : (Values → Option (List Str)) → Option Value → Option (List Str)
list_field f none = some []
list_field f (some null) = some []
list_field f (some (items l)) = f l
list_field f (some v) = none

abbrev pub objects_with : List Str → Values
objects_with [] = no_items
objects_with (s ∷ l) = item (object (field (bytes "network") (text s) no_fields)) (objects_with l)

abbrev pub texts_with : List Str → Values
texts_with [] = no_items
texts_with (s ∷ l) = item (text s) (texts_with l)

-- The networks of `ip_filter` and of `ip_filter_string` as strings, under the key of the latter if it has any.
unfoldable pub put_strings : List Str → List Str → Fields → Fields
put_strings [] [] dto = dto
put_strings (n ∷ l) [] dto = put_field (bytes "ip_filter") (items (texts_with (n ∷ l))) dto
put_strings l (n ∷ m) dto =
    put_field (bytes "ip_filter_string") (items (texts_with (l ++ (n ∷ m)))) dto

unfoldable pub mistyped_lists :
    Option (List Str) → Option (List Str) → Option (List Str) → Fields → Fields
mistyped_lists (some l) (some m) (some []) dto = put_strings l m dto
mistyped_lists (some l) (some m) (some (s ∷ ss)) dto =
    put_field (bytes "ip_filter_object") (items (objects_with (s ∷ ss))) dto
mistyped_lists l m n dto = dto

-- `convertIPFilter`: lists of the other type than their key says; if one is of neither, all stay.
unfoldable pub convert_ip_filter : Fields → Fields
convert_ip_filter dto =
    mistyped_lists (list_field networks_of_items (lookup (bytes "ip_filter") dto))
      (list_field networks_of_items (lookup (bytes "ip_filter_string") dto))
      (list_field texts_of_items (lookup (bytes "ip_filter_object") dto)) dto

-- `configs[0]`, or no configuration; the slice of a null is a panic.
unfoldable pub first_config : Config → Out Config
first_config unset = panics
first_config written = panics
first_config (listed no_configs) = gives unset
first_config (listed (config k c l)) = gives c
first_config (keyed no_configs) = gives unset
first_config (keyed (config k c l)) = gives c

unfoldable pub is_empty_list : Option Value → Bool
is_empty_list none = false
is_empty_list (some (items no_items)) = true
is_empty_list (some v) = false

abbrev pub purge_refused : Error
purge_refused = plain (
    bytes
      "ip_filter list is empty, but AIVEN_ALLOW_IP_FILTER_PURGE is not set. Please set AIVEN_ALLOW_IP_FILTER_PURGE to confirm that you want to remove all IP filters, which is going to block all traffic to the service")

-- The list of ip filters is emptied only if the environment allows it.
unfoldable pub guard_purge : Bool → Fields → Out (Option Fields)
guard_purge purge_allowed dto =
    if is_empty_list (lookup (bytes "ip_filter") dto) && not purge_allowed
    then fails purge_refused
    else gives (some dto)

unfoldable pub conversion_error {ℓ} : {A : Type ℓ} → UserConfigType → Str → Str → Out A → Out A
conversion_error kind name direction (gives a) = gives a
conversion_error kind name direction (fails e) = fails (
    wrap
      (bytes "error converting user config options for "
        ++ (kind_name kind ++ (bytes " type " ++ (name ++ direction))))
      e)
conversion_error kind name direction panics = panics

-- What the state has of the fields that the API gives only on creation.
unfoldable pub keep_field : (Str → Option Value) → Str → Str → Fields → Fields
keep_field get_ok prefix k dto = elim (get_ok (prefix ++ k)) [
  | none ↦ dto
  | some v ↦ put_field k v dto
]

unfoldable pub keep_create_only : (Str → Option Value) → Str → Fields → Fields
keep_create_only get_ok prefix dto =
    keep_field get_ok prefix (bytes "admin_password")
      (keep_field get_ok prefix (bytes "admin_username") dto)

unfoldable pub has_value : (Str → Option Value) → Str → Bool
has_value get_ok path = elim (get_ok path) [ none ↦ false | some v ↦ true ]

module _ (get_user_config : UserConfigType → Str → Option Schemas)
    (get_field_mapping : UserConfigType → Str → Mapping) where
  module _ (res : Resource) (raw_config : Str → Config) (purge_allowed : Bool) where
    unfoldable pub expand_with : UserConfigType → Str → Option Schemas → Out (Option Fields)
    expand_with kind name none = gives none
    expand_with kind name (some r) =
        let key = user_config_key kind name in
        and_then (first_config (raw_config key)) (λ c.
          and_then (expand_obj res r (key ++ bytes ".0") c) (λ dto.
            and_then (rename_aliases_to_dto (get_field_mapping kind name) dto)
              (λ m. guard_purge purge_allowed m)))

    -- `Expand`; the result `none` is a nil map.
    unfoldable pub expand : UserConfigType → Str → Out (Option Fields)
    expand kind name =
        conversion_error kind name (bytes " to API format")
          (expand_with kind name (get_user_config kind name))

  module _ (new_set : Schema → Values → Values) (get_ok : Str → Option Value) where
    unfoldable pub flatten_with :
        UserConfigType → Str → Fields → Option Schemas → Out (Option Fields)
    flatten_with kind name dto none = gives none
    flatten_with kind name dto (some r) =
        let prefix = user_config_key kind name ++ bytes ".0." in
        and_then
          (rename_all_to_tfo (has_value get_ok) prefix (sort_keys (get_field_mapping kind name))
            dto)
          (λ m. flatten_obj new_set r (keep_create_only get_ok prefix (convert_ip_filter m)))

    -- `Flatten`: the object to set under the key of the user config, if there is one.
    unfoldable pub flatten : UserConfigType → Str → Fields → Out (Option Fields)
    flatten kind name dto =
        conversion_error kind name (bytes " from API format")
          (flatten_with kind name dto (get_user_config kind name))
