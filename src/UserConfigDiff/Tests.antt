-- ===== src/UserConfigDiff/Tests.antt =====
-- The default filters at a concrete input.
use terraform_provider_aiven.Prelude.{◌≡◌, ◌↔◌, true, List, [], ◌∷◌, Str, bytes}
use terraform_provider_aiven.UserConfigDiff.{
  Value, text, object, other, field, no_fields, is_default_ip_filter_list, any_v4, any_v6,
}
use terraform_provider_aiven.UserConfigDiff.Defaults.{
  FilterAll, IsDefault, is_default_ip_filter_list_lem,
}

-- A map with the one network, and the other as a string.
abbrev filters : List Value
filters =
    text any_v6
    ∷ object (field (bytes "description") other (field (bytes "network") (text any_v4) no_fields))
    ∷ []

is_default_ip_filter_list_lem_example :
    (is_default_ip_filter_list filters ≡ true)
    ↔ ((norm : List Str) × FilterAll filters norm × IsDefault norm)
is_default_ip_filter_list_lem_example = is_default_ip_filter_list_lem filters
