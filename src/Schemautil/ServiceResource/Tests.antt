-- ===== src/Schemautil/ServiceResource/Tests.antt =====
-- The update of a service at concrete inputs.
use terraform_provider_aiven.Prelude.{◌≡◌, refl, false, none, some, [], ◌∷◌, bytes, str_eq}
use terraform_provider_aiven.Common.{ok}
use terraform_provider_aiven.ResourceId.{
  split_resource_id2, split_resource_id, split_n, cut, unescape_part, path_unescape, two_parts,
}
use terraform_provider_aiven.Schemautil.Tests.{client_errors}
use terraform_provider_aiven.Schemautil.StaticIps.{
  assigned, store, collect_ips, ips_of_answer, service_static_ips, service_static_ips_list,
  missing_from, diff_static_ips, diff_static_ips_of,
}
use terraform_provider_aiven.Schemautil.StaticIps.Difference.{has}
use terraform_provider_aiven.Schemautil.DiskSpace.{
  Units, get_plan_parameters, get_disk_space, plan_answer, size_of_plan,
}
use terraform_provider_aiven.Converters.Values.{no_fields}
use terraform_provider_aiven.Schemautil.ServiceResource.{
  list_static_ips, get_service, plan_specs, wait_updated, wait_dissociated, associate, dissociate,
  update_service, replace_tags, History, Payload, Api, list_ips, ServiceData, success, next,
  or_wrap, answered, get_project_vpc_id, get_maintenance_window, nil_if_zero, changed_karapace,
  positive_size, call, get_of, each_call, disk_space, vpc_of, upsert_service_password,
  supports_write_only_password, set_password, set_tags, size_to_send, has_autoscaler,
  dissociate_all, update_payload, send_update, prepare_update, static_ips_diff, update_parts,
  service_update,
}
use terraform_provider_aiven.Schemautil.ServiceResource.Order.{Ordered, service_update-Ordered}
use terraform_provider_aiven.Schemautil.ServiceResource.Addresses.{ips_after, service_update-has}

abbrev units : Units
units = record { ram_in_bytes = λ s. none; human = λ n. bytes "?" }

abbrev api : Api
api = record {
  answer = λ c h. none;
  static_ips = λ h.
      ok (record { address_id = bytes "old"; service_name = bytes "s"; state = assigned } ∷ []);
  service = λ c h. ok (record { service_name = bytes "s"; user = none; integrations = [] });
  specs =
      λ h. ok (record { disk_space_mb = 100; disk_space_cap_mb = none; disk_space_step_mb = none });
}

-- A service whose only address is exchanged.
abbrev resource : ServiceData
resource = record {
  id = bytes "p/s";
  is_new = false;
  project = bytes "p";
  service_name = bytes "s";
  service_type = bytes "pg";
  size = record {
    service_type = bytes "pg";
    plan = bytes "x";
    disk_space = none;
    additional_disk_space = none;
  };
  cloud_name = bytes "c";
  project_vpc_id = [];
  maintenance_dow = bytes "never";
  maintenance_time = [];
  termination_protection = false;
  static_ips = bytes "new" ∷ [];
  integrations = [];
  karapace = none;
  karapace_changes = false;
  cmk_id = [];
  tags = [];
  password_wo = none;
  version_changes = false;
  user_config = ok no_fields;
  tech_emails = ok [];
}

abbrev payload : Payload
payload = record {
  cloud = some (bytes "c");
  plan = bytes "x";
  project_vpc_id = none;
  maintenance = none;
  termination_protection = false;
  disk_space_mb = some 100;
  user_config = no_fields;
  static_ips = [];
  integrations = [];
  karapace = none;
  tech_emails = [];
  cmk_id = none;
}

abbrev calls : History
calls =
    replace_tags []
    ∷ wait_dissociated
    ∷ dissociate (bytes "old")
    ∷ wait_updated
    ∷ update_service payload
    ∷ plan_specs
    ∷ get_service
    ∷ associate (bytes "new")
    ∷ list_static_ips
    ∷ []

updates : service_update api client_errors units resource [] ≡ some (ok success, calls)
unfolding service_update update_parts split_resource_id2 split_resource_id split_n cut unescape_part
    path_unescape two_parts static_ips_diff diff_static_ips_of service_static_ips_list
    service_static_ips ips_of_answer collect_ips store diff_static_ips missing_from str_eq next
    or_wrap answered call get_of each_call prepare_update vpc_of get_project_vpc_id size_to_send
    has_autoscaler disk_space get_disk_space get_plan_parameters plan_answer size_of_plan
    positive_size update_payload get_maintenance_window nil_if_zero changed_karapace send_update
    set_password upsert_service_password supports_write_only_password dissociate_all set_tags
updates = refl

service_update-Ordered_example : Ordered calls
service_update-Ordered_example =
    service_update-Ordered api client_errors units resource (ok success, calls) updates

listed :
    (service_static_ips_list (list_ips api) (bytes "p") (bytes "s") []).0 ≡ ok (bytes "old" ∷ [])
unfolding service_static_ips_list service_static_ips ips_of_answer collect_ips store str_eq
listed = refl

service_update-has_example :
    has (bytes "old") (ips_after (bytes "old" ∷ []) calls) ≡ has (bytes "old") (bytes "new" ∷ [])
service_update-has_example =
    service_update-has api client_errors units (bytes "old" ∷ []) resource calls (bytes "old")
      listed updates
