-- ===== src/Schemautil/Wait.antt =====
-- wait.go: when a service counts as created, updated, deleted or rid of its static ips, and the
-- calls whose answers are kept. Dialling Grafana and reading a service are calls of the world `W`.
pub mod Refresh
pub mod Once
pub mod Ready
use terraform_provider_aiven.Prelude.{
  ℕ, ◌≡◌, Bool, true, false, not, ◌&&◌, ◌||◌, Option, none, some, List, [], ◌∷◌, ◌++◌,
  if◌then◌else◌, any, Str, bytes, str_eq, is_empty, itoa, ltb,
}
use terraform_provider_aiven.Common.{
  Error, Result, ok, err, wrap, ClientErrors, is_critical, omit_not_found,
}
use terraform_provider_aiven.UserConfigDiff.{Value, is_default_ip_filter_list}
use terraform_provider_aiven.Schemautil.StaticIps.{
  ResourceData, StaticIpList, static_ips_ready, static_ips_disassociated_after_service_deletion,
  static_ips_are_disassociated,
}

pub record Component : Type 0 where
  pub route : Str
  pub usage : Str
  pub host : Str
  pub port : ℕ

pub record Integration : Type 0 where
  pub integration_type : Str
  pub dest_service : Option Str

-- `UserConfig["ip_filter"]`: absent, a list, or something else.
pub data IpFilter : Type 0 where
  absent not_list : IpFilter
  list : List Value → IpFilter

-- What the waits read of a service.
pub record Service : Type 0 where
  pub name : Str
  pub service_type : Str
  pub state : Str
  pub ip_filter : IpFilter
  pub persistence_off : Bool
  pub components : List Component
  pub integrations : List Integration
  pub backups : ℕ

abbrev pub running : Str
running = bytes "RUNNING"

abbrev pub services_starting : Str
services_starting = bytes "WAITING_FOR_SERVICES"

unfoldable pub is_replica_of : Str → Integration → Bool
is_replica_of name i =
    (str_eq i.integration_type (bytes "read_replica")
      || str_eq i.integration_type (bytes "disaster_recovery"))
    && str_eq (elim i.dest_service [ none ↦ [] | some s ↦ s ]) name

unfoldable pub backups_ready : Service → Bool
backups_ready s =
    if str_eq s.service_type (bytes "pg") || str_eq s.service_type (bytes "dragonfly")
    then s.persistence_off || any (is_replica_of s.name) s.integrations || ltb 0 s.backups
    else true

-- The address of the last public primary component, or else the address so far.
unfoldable pub public_grafana : Str → List Component → Str
public_grafana found [] = found
public_grafana found (c ∷ cs) =
    public_grafana
      (if str_eq c.route (bytes "public") && str_eq c.usage (bytes "primary")
        then c.host ++ (bytes ":" ++ itoa c.port)
        else found)
      cs

-- The filter is set to something else than the default.
unfoldable pub is_filtered : IpFilter → Bool
is_filtered absent = false
is_filtered not_list = true
is_filtered (list l) = not (is_default_ip_filter_list l)

-- What a refresh tells the waiting loop: a state, or an error that ends it.
pub data Refreshed : Type 0 where
  state_is : Str → Refreshed
  broken : Error → Refreshed

unfoldable pub answer_of : Str → Str → Str → Result Bool → Refreshed
answer_of what pending target (err e) = broken (wrap what e)
answer_of what pending target (ok r) = if r then state_is target else state_is pending

abbrev pub unable_ready : Str
unable_ready = bytes "unable to check if static ips are ready"

abbrev pub unable_disassociated : Str
unable_disassociated = bytes "unable to check if static ips are disassociated"

abbrev pub unable_to_fetch : Str
unable_to_fetch = bytes "unable to fetch service from api"

module _ {ℓ} {W : Type ℓ} (dial : Str → W → Bool × W) where
  unfoldable pub grafana_ready : Service → W → Bool × W
  grafana_ready s w =
      if not (str_eq s.service_type (bytes "grafana"))
      then (true, w)
      else if is_filtered s.ip_filter
      then (true, w)
      else if is_empty (public_grafana [] s.components)
      then (true, w)
      else dial (public_grafana [] s.components) w

module _ {ℓ} {W : Type ℓ} (dial : Str → W → Bool × W) (static_ip_list : StaticIpList W) where
  -- From the backups on: `pending` and `target` are the states that the refresh reports.
  unfoldable pub check_parts : Str → Str → ResourceData → Service → W → Refreshed × W
  check_parts pending target d s w =
      if not (backups_ready s)
      then (state_is pending, w)
      else let (ready, w₁) = grafana_ready dial s w in
        if not ready
        then (state_is pending, w₁)
        else let (r, w₂) = static_ips_ready static_ip_list d w₁ in
          (answer_of unable_ready pending target r, w₂)

module _ {ℓ} {W : Type ℓ} (dial : Str → W → Bool × W) (static_ip_list : StaticIpList W)
    (service_get : Str → Str → W → Result Service × W) where
  unfoldable pub creation_of_answer : ResourceData → Result Service × W → Refreshed × W
  creation_of_answer d (err e, w) = (broken (wrap unable_to_fetch e), w)
  creation_of_answer d (ok s, w) =
      if not (str_eq s.state running)
      then (state_is s.state, w)
      else check_parts dial static_ip_list services_starting s.state d s w

  unfoldable pub creation_refresh : ResourceData → W → Refreshed × W
  creation_refresh d w = creation_of_answer d (service_get d.project d.service_name w)

  unfoldable pub update_of_answer : ResourceData → Result Service × W → Refreshed × W
  update_of_answer d (err e, w) = (broken (wrap unable_to_fetch e), w)
  update_of_answer d (ok s, w) =
      check_parts dial static_ip_list (bytes "updating") (bytes "updated") d s w

  unfoldable pub update_refresh : ResourceData → W → Refreshed × W
  update_refresh d w = update_of_answer d (service_get d.project d.service_name w)

module _ {ℓ} {W : Type ℓ} (static_ip_list : StaticIpList W) where
  unfoldable pub dissociation_refresh : ResourceData → W → Refreshed × W
  dissociation_refresh d w =
      let (r, w') = static_ips_are_disassociated static_ip_list d w in
      (answer_of unable_disassociated (bytes "doing") (bytes "done") r, w')

  -- From the static ips on.
  unfoldable pub deletion_rest : ResourceData → W → Refreshed × W
  deletion_rest d w =
      let (r, w') = static_ips_disassociated_after_service_deletion static_ip_list d w in
      (answer_of unable_disassociated (bytes "deleting") (bytes "deleted") r, w')

module _ {ℓ} {W : Type ℓ} (lib : ClientErrors) (static_ip_list : StaticIpList W)
    (service_get : Str → Str → W → Result Service × W) where
  -- Only the error of the answer is read, and a nil error is not critical.
  unfoldable pub deletion_of_answer : ResourceData → Result Service × W → Refreshed × W
  deletion_of_answer d (ok s, w) = deletion_rest static_ip_list d w
  deletion_of_answer d (err e, w) =
      if is_critical lib (some e)
      then (broken (wrap (bytes "unable to check if service is gone") e), w)
      else deletion_rest static_ip_list d w

  unfoldable pub deletion_refresh : ResourceData → W → Refreshed × W
  deletion_refresh d w = deletion_of_answer d (service_get d.project d.service_name w)
