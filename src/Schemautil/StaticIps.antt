-- ===== src/Schemautil/StaticIps.antt =====
-- static_ips.go, and the tests on static ips of wait.go, from line 266: the addresses that a service
-- is to have and those that it has.
pub mod Difference
pub mod Ready
use terraform_provider_aiven.Prelude.{
  ◌≡◌, Bool, true, false, not, ◌&&◌, ◌||◌, Option, none, some, List, [], ◌∷◌, ◌++◌, if◌then◌else◌,
  map, any, keep, Str, bytes, str_eq, str_mem,
}
use terraform_provider_aiven.Common.{Error, Result, ok, err, wrap}

pub record StaticIp : Type 0 where
  pub address_id : Str
  pub service_name : Str
  pub state : Str

abbrev pub available : Str
available = bytes "available"

abbrev pub assigned : Str
assigned = bytes "assigned"

-- `m[key] = value` on a map as an association list, of which each key stands once.
unfoldable pub store : Str → Str → List (Str × Str) → List (Str × Str)
store key value [] = (key, value) ∷ []
store key value ((k, v) ∷ m) =
    let rest = store key value m in if str_eq k key then (key, value) ∷ m else (k, v) ∷ rest

-- `m[key]`, empty on a missing key.
unfoldable pub lookup : Str → List (Str × Str) → Str
lookup key [] = []
lookup key ((k, v) ∷ m) = let rest = lookup key m in if str_eq k key then v else rest

-- The loop over the addresses of the project.
unfoldable pub collect_ips : Str → List StaticIp → List (Str × Str) → List (Str × Str)
collect_ips service [] m = m
collect_ips service (ip ∷ ips) m =
    collect_ips service ips
      (if str_eq ip.service_name service then store ip.address_id ip.state m else m)

unfoldable pub ips_of_answer : Str → Str → Result (List StaticIp) → Result (List (Str × Str))
ips_of_answer project service (err e) =
    err (wrap (bytes "unable to fetch static ips for project " ++ project) e)
ips_of_answer project service (ok ips) = ok (collect_ips service ips [])

-- The items of `xs` that are not in `ys`.
unfoldable pub missing_from : List Str → List Str → List Str
missing_from ys xs = keep (λ x. not (any (λ y. str_eq y x) ys)) xs

unfoldable pub diff_static_ips : List Str → List Str → List Str × List Str
diff_static_ips want have = (missing_from have want, missing_from want have)

unfoldable pub all_ready : List (Str × Str) → List Str → Bool
all_ready m [] = true
all_ready m (ip ∷ ips) =
    (str_eq (lookup ip m) available || str_eq (lookup ip m) assigned) && all_ready m ips

unfoldable pub static_ips_ready_on : List Str → Result (List (Str × Str)) → Result Bool
static_ips_ready_on ips (err e) = err e
static_ips_ready_on ips (ok m) = ok (all_ready m ips)

-- Some expected address still has the state `assigned`.
unfoldable pub still_assigned : List Str → List StaticIp → Bool
still_assigned expected list =
    any (λ eip. any (λ sip. str_eq sip.address_id eip && str_eq sip.state assigned) list) expected

unfoldable pub fetch_error : Str → Error → Error
fetch_error project e =
    wrap (bytes "unable to fetch static ips for project '" ++ (project ++ bytes "'")) e

unfoldable pub disassociated_after_deletion_on :
    Str → List Str → Result (List StaticIp) → Result Bool
disassociated_after_deletion_on project expected (err e) = err (fetch_error project e)
disassociated_after_deletion_on project expected (ok list) = ok (not (still_assigned expected list))

-- Some address of the service is not in the resource any more.
unfoldable pub lingers : Str → List Str → List StaticIp → Bool
lingers service current list =
    any (λ sip. str_eq sip.service_name service && not (any (λ c. str_eq sip.address_id c) current))
      list

unfoldable pub are_disassociated_on : Str → Str → List Str → Result (List StaticIp) → Result Bool
are_disassociated_on project service current (err e) = err (fetch_error project e)
are_disassociated_on project service current (ok list) = ok (not (lingers service current list))

-- What the resource says: its project, its service and the set of static ips.
pub record ResourceData : Type 0 where
  pub project : Str
  pub service_name : Str
  pub static_ips : List Str

-- `client.StaticIPList`
abbrev pub StaticIpList {ℓ} : Type ℓ → Type ℓ
StaticIpList W = Str → W → Result (List StaticIp) × W

module _ {ℓ} {W : Type ℓ} (static_ip_list : StaticIpList W) where
  unfoldable pub service_static_ips : Str → Str → W → Result (List (Str × Str)) × W
  service_static_ips project service w =
      let (r, w') = static_ip_list project w in (ips_of_answer project service r, w')

  -- The list of the map's keys has no fixed order in the source; here it is that of the map.
  unfoldable pub service_static_ips_list : Str → Str → W → Result (List Str) × W
  service_static_ips_list project service w =
      let (r, w') = service_static_ips project service w in
      (elim r [ err e ↦ err e | ok m ↦ ok (map (λ p. p.0) m) ], w')

  unfoldable pub diff_static_ips_of : ResourceData → W → Result (List Str × List Str) × W
  diff_static_ips_of d w =
      let (r, w') = service_static_ips_list d.project d.service_name w in
      (
        elim r [
          | err e ↦ err (wrap (bytes "unable to get static ips from api") e)
          | ok ips ↦ ok (diff_static_ips d.static_ips ips)
        ],
        w',
      )

  -- Without static ips the list is not fetched.
  unfoldable pub static_ips_ready : ResourceData → W → Result Bool × W
  static_ips_ready d w = elim d.static_ips [
    | [] ↦ (ok true, w)
    | ip ∷ ips ↦
        let (r, w') = service_static_ips d.project d.service_name w in
        (static_ips_ready_on d.static_ips r, w')
  ]

  unfoldable pub static_ips_disassociated_after_service_deletion :
      ResourceData → W → Result Bool × W
  static_ips_disassociated_after_service_deletion d w = elim d.static_ips [
    | [] ↦ (ok true, w)
    | ip ∷ ips ↦
        let (r, w') = static_ip_list d.project w in
        (disassociated_after_deletion_on d.project d.static_ips r, w')
  ]

  unfoldable pub static_ips_are_disassociated : ResourceData → W → Result Bool × W
  static_ips_are_disassociated d w =
      let (r, w') = static_ip_list d.project w in
      (are_disassociated_on d.project d.service_name d.static_ips r, w')
