-- ===== src/Schemautil/PlanChecks.antt =====
-- custom_diff.go: rules that a planned change must keep. The rest of that file is not here, and
-- neither is the set-up of the client (`common.GenClient`), which comes before the call of the API.
pub mod Rules
use terraform_provider_aiven.Prelude.{
  Bool, not, ◌&&◌, Option, none, some, List, [], ◌∷◌, ◌++◌, if◌then◌else◌, Str, bytes, str_eq,
  str_mem, is_empty,
}
use terraform_provider_aiven.Common.{Error, Result, ok, err, plain, wrap}
use terraform_provider_aiven.Schemautil.StaticIps.{StaticIp, StaticIpList}

abbrev pub duplicate_tag : Str → Error
duplicate_tag k = plain (bytes "tag keys should be unique, duplicate with the key: " ++ k)

-- The loop over the tags' keys, with the keys so far.
unfoldable pub unique_from : List Str → List Str → Option Error
unique_from seen [] = none
unique_from seen (k ∷ ks) =
    let rest = unique_from (k ∷ seen) ks in if str_mem k seen then some (duplicate_tag k) else rest

unfoldable pub check_unique_tag : List Str → Option Error
check_unique_tag keys = unique_from [] keys

-- What the rules read of the planned change.
pub record Change : Type 0 where
  pub id : Str
  pub project : Str
  pub service_name : Str
  pub plan_changes : Bool
  pub static_ips_change : Bool
  pub planned_static_ips : List Str

unfoldable pub check_plan_and_static_ips : Change → Option Error
check_plan_and_static_ips d =
    if not (is_empty d.id) && (d.plan_changes && d.static_ips_change)
    then some (
        plain (
          bytes
            "unable to change 'plan' and 'static_ips' in the same diff, please use multiple steps"))
    else none

unfoldable pub associated_elsewhere : StaticIp → Error
associated_elsewhere ip = plain (
    bytes "the static ip '"
    ++ (ip.address_id
        ++ (bytes "' is currently associated with service '" ++ (ip.service_name ++ bytes "'"))))

-- The loop over the static ips of the project.
unfoldable pub find_elsewhere : Str → List Str → List StaticIp → Option Error
find_elsewhere service planned [] = none
find_elsewhere service planned (ip ∷ ips) =
    let rest = find_elsewhere service planned ips in
    if (not (is_empty ip.service_name) && not (str_eq ip.service_name service))
      && str_mem ip.address_id planned
    then some (associated_elsewhere ip)
    else rest

unfoldable pub elsewhere_of_answer : Change → Result (List StaticIp) → Option Error
elsewhere_of_answer d (err e) =
    some (wrap (bytes "unable to get static ips for project '" ++ (d.project ++ bytes "'")) e)
elsewhere_of_answer d (ok ips) = find_elsewhere d.service_name d.planned_static_ips ips

unfoldable pub check_static_ip_disassociation {ℓ} :
    {W : Type ℓ} → StaticIpList W → Change → W → Option Error × W
check_static_ip_disassociation static_ip_list d w =
    if is_empty d.id
    then (none, w)
    else (let (r, w') = static_ip_list d.project w in (elsewhere_of_answer d r, w'))
