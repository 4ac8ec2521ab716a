-- ===== src/Schemautil/ServiceResource/Calls.antt =====
-- What service.go sends to the API, what it reads of a service and of the resource, and the runs of its parts.
use terraform_provider_aiven.Prelude.{ℕ, Bool, Option, none, some, List, [], ◌∷◌, ◌++◌, Str, bytes}
use terraform_provider_aiven.Common.{Error, Result, ok, err, wrap}
use terraform_provider_aiven.Schemautil.StaticIps.{StaticIp, StaticIpList}
use terraform_provider_aiven.Schemautil.DiskSpace.{PlanSpecs, ServiceSize}
use terraform_provider_aiven.Converters.Values.{Fields}

-- What is sent to create or to update a service.
pub record Payload : Type 0 where
  pub cloud : Option Str
  pub plan : Str
  pub project_vpc_id : Option Str
  pub maintenance : Option (Str × Str)
  pub termination_protection : Bool
  pub disk_space_mb : Option ℕ
  pub user_config : Fields
  pub static_ips : List Str
  pub integrations : List (Str × Str)
  pub karapace : Option Bool
  pub tech_emails : List Str
  pub cmk_id : Option Str

pub data Call : Type 0 where
  list_static_ips get_service plan_specs wait_created wait_updated wait_dissociated wait_deleted :
      Call
  associate dissociate : Str → Call
  create_service update_service : Payload → Call
  delete_service : Call
  modify_password : Str → Option Str → Call
  replace_tags : List (Str × Str) → Call

abbrev pub History : Type 0
History = List Call

-- What the code reads of a service.
pub record ServiceOut : Type 0 where
  pub service_name : Str
  pub user : Option Str
  pub integrations : List Str

pub record Api : Type 0 where
  pub answer : Call → History → Option Error
  pub static_ips : History → Result (List StaticIp)
  pub service : Call → History → Result ServiceOut
  pub specs : History → Result PlanSpecs

abbrev pub list_ips : Api → StaticIpList History
list_ips api project w = (api.static_ips w, list_static_ips ∷ w)

-- The resource.
pub record ServiceData : Type 0 where
  pub id : Str
  pub is_new : Bool
  pub project : Str
  pub service_name : Str
  pub service_type : Str
  pub size : ServiceSize
  pub cloud_name : Str
  pub project_vpc_id : Str
  pub maintenance_dow : Str
  pub maintenance_time : Str
  pub termination_protection : Bool
  pub static_ips : List Str
  pub integrations : List (Str × Str)
  pub karapace : Option Bool
  pub karapace_changes : Bool
  pub cmk_id : Str
  pub tags : List (Str × Str)
  pub password_wo : Option Str
  pub version_changes : Bool
  pub user_config : Result Fields
  pub tech_emails : Result (List Str)

abbrev pub in_parens : Str → Str → Str → Str
in_parens before s after = before ++ (bytes " (" ++ (s ++ (bytes ")" ++ after)))

abbrev pub associate_text : Str → Str
associate_text ip = in_parens (bytes "error associating Static IP") ip (bytes " to a service")

abbrev pub dissociate_text : Str → Str → Str
dissociate_text name ip =
    in_parens (bytes "error dissociating Static IP") ip
      (in_parens (bytes " from the service") name [])

-- What `upsertServicePassword` and its callers say of an error.
abbrev pub password_text : Str → ServiceData → Str → Str
password_text before d service = before ++ (d.project ++ (bytes "/" ++ service))

-- A run of a part of the code.
pub data Done : Type 0 where
  success : Done

abbrev pub Run : Type 0 → Type 0
Run A = Result A × History

unfoldable pub next : {A B : Type 0} → Run A → (A → History → Run B) → Run B
next (ok a, h) f = f a h
next (err e, h) f = (err e, h)

unfoldable pub or_wrap : {A : Type 0} → Str → Result A → Result A
or_wrap text (ok a) = ok a
or_wrap text (err e) = err (wrap text e)

unfoldable pub answered : Str → Option Error → Result Done
answered text none = ok success
answered text (some e) = err (wrap text e)
