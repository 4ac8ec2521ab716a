-- ===== src/Schemautil/ServiceResource.antt =====
-- The create, update and delete of a service in service.go, from line 532, with the VPC id and the maintenance
-- window of helpers.go. A call is an entry of the history, newest first, and the API answers a call by the history
-- before it; so do the waits; all calls are about the service of the resource. What `ExpandService` and `getContactEmailListForAPI` give is part of the resource.
pub mod Calls
pub mod Order
pub mod Addresses
mod Tests
unfoldable pub use Calls.*
use terraform_provider_aiven.Prelude.{
  ℕ, Bool, true, false, not, ◌&&◌, ◌||◌, Option, none, some, List, [], ◌∷◌, ◌++◌, if◌then◌else◌,
  map, any, ltb, Str, bytes, str_eq, str_mem, is_empty,
}
use terraform_provider_aiven.Common.{Error, Result, ok, err, plain, wrap, ClientErrors}
use terraform_provider_aiven.ResourceId.{build_resource_id, split_n, split_resource_id2}
use terraform_provider_aiven.Schemautil.StaticIps.{
  StaticIp, StaticIpList, ResourceData, diff_static_ips_of,
}
use terraform_provider_aiven.Schemautil.DiskSpace.{PlanSpecs, ServiceSize, Units, get_disk_space}
use terraform_provider_aiven.Converters.Values.{Fields}

-- `GetProjectVPCIdPointer`
unfoldable pub vpc_of_parts : List Str → Result (Option Str)
vpc_of_parts (project ∷ vpc ∷ []) = ok (some vpc)
vpc_of_parts parts = err (
    plain (
      bytes
        "invalid project_vpc_id, should have the following format {project_name}/{project_vpc_id}"))

unfoldable pub get_project_vpc_id : Str → Result (Option Str)
get_project_vpc_id id = if is_empty id then ok none else vpc_of_parts (split_n 2 id)

-- `GetMaintenanceWindow`
unfoldable pub get_maintenance_window : Str → Str → Option (Str × Str)
get_maintenance_window dow time =
    if str_eq dow (bytes "never")
    then none
    else if not (is_empty dow) && not (is_empty time)
    then some (dow, time)
    else none

unfoldable pub nil_if_zero : Str → Option Str
nil_if_zero s = if is_empty s then none else some s

-- Only a true value that has changed is sent.
unfoldable pub changed_karapace : ServiceData → Option Bool
changed_karapace d =
    if d.karapace_changes then (elim d.karapace [ some true ↦ some true | _ ↦ none ]) else none

-- `supportsWriteOnlyPassword`: no type of service does yet.
unfoldable pub supports_write_only_password : Str → Bool
supports_write_only_password service_type = str_mem service_type []

unfoldable pub default_service_username : Str → Str
default_service_username service_type =
    if str_eq service_type (bytes "dragonfly") || str_eq service_type (bytes "valkey")
    then bytes "default"
    else bytes "avnadmin"

unfoldable pub admin_username : ServiceOut → Str → Str
admin_username s service_type = elim s.user [
  | none ↦ default_service_username service_type
  | some user ↦ if is_empty user then default_service_username service_type else user
]

-- The password to send: a null is empty, and an empty one is not sent.
unfoldable pub new_password : ServiceData → Option Str
new_password d = elim d.password_wo [ none ↦ none | some p ↦ nil_if_zero p ]

unfoldable pub is_null_password : Option Str → Bool
is_null_password none = true
is_null_password (some p) = false

unfoldable pub positive_size : ℕ → Option ℕ
positive_size n = if ltb 0 n then some n else none

unfoldable pub has_autoscaler : ServiceOut → Bool
has_autoscaler s = any (λ i. str_eq i (bytes "autoscaler")) s.integrations

unfoldable pub create_payload : ServiceData → ℕ → Option Str → Fields → List Str → Payload
create_payload d size vpc config emails = record {
  cloud = nil_if_zero d.cloud_name;
  plan = d.size.plan;
  project_vpc_id = vpc;
  maintenance = get_maintenance_window d.maintenance_dow d.maintenance_time;
  termination_protection = d.termination_protection;
  disk_space_mb = positive_size size;
  user_config = config;
  static_ips = d.static_ips;
  integrations = d.integrations;
  karapace = none;
  tech_emails = emails;
  cmk_id = nil_if_zero d.cmk_id;
}

-- The constant field `Powered: true` of the update is left out.
unfoldable pub update_payload : ServiceData → Option ℕ → Option Str → Fields → List Str → Payload
update_payload d size vpc config emails = record {
  cloud = some d.cloud_name;
  plan = d.size.plan;
  project_vpc_id = vpc;
  maintenance = get_maintenance_window d.maintenance_dow d.maintenance_time;
  termination_protection = d.termination_protection;
  disk_space_mb = size;
  user_config = config;
  static_ips = [];
  integrations = [];
  karapace = changed_karapace d;
  tech_emails = emails;
  cmk_id = nil_if_zero d.cmk_id;
}

unfoldable pub vpc_of : ServiceData → History → Run (Option Str)
vpc_of d h =
    (or_wrap (bytes "error getting project VPC ID") (get_project_vpc_id d.project_vpc_id), h)

-- A service that is not found is gone already.
unfoldable pub delete_answer : ClientErrors → Option Error → Result Done
delete_answer lib none = ok success
delete_answer lib (some e) =
    if lib.avngen_is_not_found e
    then ok success
    else err (wrap (bytes "error deleting a service") e)

module _ (api : Api) where
  unfoldable pub call : Str → Call → History → Run Done
  call text c h = (answered text (api.answer c h), c ∷ h)

  unfoldable pub get_of : Str → Call → History → Run ServiceOut
  get_of text c h = (or_wrap text (api.service c h), c ∷ h)

  -- A call for each address, until one fails.
  unfoldable pub each_call : (Str → Str) → (Str → Call) → List Str → History → Run Done
  each_call text c [] h = (ok success, h)
  each_call text c (ip ∷ ips) h = next (call (text ip) (c ip) h) (λ u. each_call text c ips)

  unfoldable pub upsert_service_password : ServiceData → Str → History → Run Done
  upsert_service_password d username h =
      if not (supports_write_only_password d.service_type)
      then (ok success, h)
      else if d.is_new && is_null_password d.password_wo
      then (ok success, h)
      else if not d.is_new && not d.version_changes
      then (ok success, h)
      else call
          (password_text (bytes "failed to update " ++ (username ++ bytes " password for service "))
            d d.service_name)
          (modify_password username (new_password d)) h

  unfoldable pub set_password : Str → ServiceData → ServiceOut → History → Run Done
  set_password text d s h =
      let (r, h') = upsert_service_password d (admin_username s d.service_type) h in
      (or_wrap text r, h')

  unfoldable pub set_tags : ServiceData → History → Run Done
  set_tags d h = call (bytes "error setting service tags") (replace_tags d.tags) h

  unfoldable pub after_created : ServiceData → ServiceOut → History → Run Str
  after_created d s h =
      next
        (set_password (password_text (bytes "error setting service password for ") d s.service_name)
          d s h)
        (λ u h'.
          next (set_tags d h')
            (λ v h''. (ok (build_resource_id (d.project ∷ s.service_name ∷ [])), h'')))

  unfoldable pub dissociate_all : Str → List Str → History → Run Done
  dissociate_all name [] h = (ok success, h)
  dissociate_all name (ip ∷ ips) h =
      next (each_call (dissociate_text name) dissociate (ip ∷ ips) h)
        (λ u. call (bytes "error waiting for Static IPs dissociation") wait_dissociated)

  -- From the update itself on.
  unfoldable pub send_update :
      Str → ServiceData → ServiceOut → List Str → Payload → History → Run Done
  send_update name d s removed p h =
      next (call (in_parens (bytes "error updating") name (bytes " service")) (update_service p) h)
        (λ u h₁.
          next
            (call (in_parens (bytes "error waiting for service") name (bytes " update"))
              wait_updated h₁)
            (λ u₁ h₂.
              next
                (set_password (password_text (bytes "error updating service password for ") d name)
                  d s h₂)
                (λ u₂ h₃. next (dissociate_all name removed h₃) (λ u₃ h₄. set_tags d h₄))))

  unfoldable pub static_ips_diff : ServiceData → History → Run (List Str × List Str)
  static_ips_diff d h =
      let (r, h') =
        diff_static_ips_of (list_ips api)
          (record { project = d.project; service_name = d.service_name; static_ips = d.static_ips })
          h in
      (or_wrap (bytes "error diff static ips") r, h')

module _ (api : Api) (lib : ClientErrors) (units : Units) where
  unfoldable pub disk_space : ServiceData → History → Run ℕ
  disk_space d h =
      let (r, h') = get_disk_space lib units (λ w. (api.specs w, plan_specs ∷ w)) d.size h in
      (or_wrap (bytes "error getting default disc space") r, h')

  -- `resourceServiceCreate` up to the read: the id is set when everything else is done.
  unfoldable pub service_create : ServiceData → History → Run Str
  service_create d h = next (disk_space d h) (λ size h₁. next (vpc_of d h₁) (λ vpc h₂.
      next (d.user_config, h₂)
        (λ config h₃.
          next (d.tech_emails, h₃)
            (λ emails h₄.
              next
                (call api (bytes "error creating a service")
                  (create_service (create_payload d size vpc config emails)) h₄)
                (λ u h₅.
                  next (get_of api (bytes "error waiting for service creation") wait_created h₅)
                    (λ s h₆. after_created api d s h₆))))))

  -- The size is sent only where no autoscaler manages it.
  unfoldable pub size_to_send : ServiceData → ServiceOut → History → Run (Option ℕ)
  size_to_send d s h =
      if has_autoscaler s
      then (ok none, h)
      else next (disk_space d h) (λ n h'. (ok (positive_size n), h'))

  unfoldable pub prepare_update : Str → ServiceData → List Str → History → Run Done
  prepare_update name d removed h = next (vpc_of d h) (λ vpc h₁.
      next (d.user_config, h₁)
        (λ config h₂.
          next (d.tech_emails, h₂)
            (λ emails h₃.
              next (get_of api (bytes "error getting service " ++ name) get_service h₃) (λ s h₄.
                next (size_to_send d s h₄) (λ size h₅.
                  send_update api name d s removed (update_payload d size vpc config emails) h₅)))))

  unfoldable pub update_parts :
      ServiceData → Option (Result (Str × Str)) → History → Option (Run Done)
  update_parts d none h = none
  update_parts d (some (err e)) h =
      some (err (wrap (in_parens (bytes "error splitting service id") d.id []) e), h)
  update_parts d (some (ok parts)) h = some (
      next (static_ips_diff api d h) (λ diff h₁.
        next (each_call api associate_text associate diff.0 h₁)
          (λ u h₂. prepare_update parts.1 d diff.1 h₂)))

  -- `resourceServiceUpdate` up to the read; `none` is an index out of range.
  unfoldable pub service_update : ServiceData → History → Option (Run Done)
  service_update d h = update_parts d (split_resource_id2 d.id) h

module _ (api : Api) (lib : ClientErrors) where
  unfoldable pub delete_parts : Option (Result (Str × Str)) → History → Option (Run Done)
  delete_parts none h = none
  delete_parts (some (err e)) h = some (err (wrap (bytes "error splitting service ID") e), h)
  delete_parts (some (ok parts)) h = some (
      next (delete_answer lib (api.answer delete_service h), delete_service ∷ h)
        (λ u. call api (bytes "error waiting for service deletion") wait_deleted))

  -- `resourceServiceDelete`
  unfoldable pub service_delete : ServiceData → History → Option (Run Done)
  service_delete d h = delete_parts (split_resource_id2 d.id) h
