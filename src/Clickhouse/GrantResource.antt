-- ===== src/Clickhouse/GrantResource.antt =====
-- clickhouse_grant.go, from line 159: the resource of a user's or a role's grants. The state that
-- Terraform keeps is a record; reading one of its fields cannot fail, and neither can setting it.
pub mod Loops
use terraform_provider_aiven.Prelude.{
  ℕ, ◌≡◌, Bool, true, false, not, ◌&&◌, Option, none, some, List, [], ◌∷◌, if◌then◌else◌, map, Str,
  bytes, str_eq, is_empty,
}
use terraform_provider_aiven.Common.{Error, Result, ok, err}
use terraform_provider_aiven.ResourceId.{build_resource_id, split_resource_id4}
use terraform_provider_aiven.Clickhouse.Statement.{Grantee, PrivilegeGrant, RoleGrant}
use terraform_provider_aiven.Clickhouse.Sql.{
  Query, create_role_grant, revoke_role_grant, create_privilege_grant, revoke_privilege_grant,
  read_role_grants, read_privilege_grants,
}

pub record PrivilegeBlock : Type 0 where
  pub database : Str
  pub table : Str
  pub column : Str
  pub privilege : Str
  pub with_grant : Bool

pub record ResourceData : Type 0 where
  pub id : Str
  pub project : Str
  pub service_name : Str
  pub user : Str
  pub role : Str
  pub privilege_grant : List PrivilegeBlock
  pub role_grant : List Str

abbrev pub grantee_type_user : Str
grantee_type_user = bytes "user"

abbrev pub grantee_type_role : Str
grantee_type_role = bytes "role"

unfoldable pub id_for_user_or_role : Str → Str → Str → Str → Str
id_for_user_or_role project service user role =
    if not (is_empty user)
    then build_resource_id (project ∷ service ∷ grantee_type_user ∷ user ∷ [])
    else build_resource_id (project ∷ service ∷ grantee_type_role ∷ role ∷ [])

unfoldable pub set_user_or_role : ResourceData → Str → Str → ResourceData
set_user_or_role d grantee_type name =
    if str_eq grantee_type grantee_type_user
    then (record d { user = name })
    else if str_eq grantee_type grantee_type_role
    then (record d { role = name })
    else d

abbrev pub grantee_of : ResourceData → Grantee
grantee_of d = record { user = d.user; role = d.role }

unfoldable pub privilege_of_block : Grantee → PrivilegeBlock → PrivilegeGrant
privilege_of_block grantee b = record {
  grantee = grantee;
  database = b.database;
  table = b.table;
  column = b.column;
  privilege = b.privilege;
  with_grant = b.with_grant;
}

unfoldable pub read_privilege_grants_from_schema : ResourceData → List PrivilegeGrant
read_privilege_grants_from_schema d = map (privilege_of_block (grantee_of d)) d.privilege_grant

unfoldable pub privilege_grant_to_schema : PrivilegeGrant → PrivilegeBlock
privilege_grant_to_schema g = record {
  database = g.database;
  table = g.table;
  column = g.column;
  privilege = g.privilege;
  with_grant = g.with_grant;
}

unfoldable pub set_privilege_grants_in_schema : ResourceData → List PrivilegeGrant → ResourceData
set_privilege_grants_in_schema d grants = (record d {
  privilege_grant = map privilege_grant_to_schema grants;
})

unfoldable pub role_of_block : Grantee → Str → RoleGrant
role_of_block grantee role = record { grantee = grantee; role = role }

unfoldable pub read_role_grants_from_schema : ResourceData → List RoleGrant
read_role_grants_from_schema d = map (role_of_block (grantee_of d)) d.role_grant

unfoldable pub role_grant_to_schema : RoleGrant → Str
role_grant_to_schema g = g.role

unfoldable pub set_role_grants_in_schema : ResourceData → List RoleGrant → ResourceData
set_role_grants_in_schema d grants = (record d { role_grant = map role_grant_to_schema grants })

-- The outcome of an operation on the resource: the diagnostics, and the state that Terraform keeps.
pub data Outcome : Type 0 where
  done failed_panic : ResourceData → Outcome
  failed : Error → ResourceData → Outcome

-- What follows a call, unless the call fails.
abbrev pub and_then {ℓ} :
    {W : Type ℓ} → Option Error × W → (W → Option Error × W) → Option Error × W
and_then (some e, w) k = (some e, w)
and_then (none, w) k = k w

-- `for _, x := range xs { if err := f(x); err != nil { return err } }`
unfoldable pub each {ℓ κ} :
    {A : Type ℓ} {W : Type κ} → (A → W → Option Error × W) → List A → W → Option Error × W
each f [] w = (none, w)
each f (x ∷ xs) w = and_then (f x w) (each f xs)

module _ {ℓ} {W : Type ℓ} (query : Query W) where
  -- From the answer on the role grants on.
  unfoldable pub read_roles : ResourceData → Option (Result (List RoleGrant)) × W → Outcome × W
  read_roles d (none, w) = (failed_panic d, w)
  read_roles d (some (err e), w) = (failed e d, w)
  read_roles d (some (ok grants), w) = (done (set_role_grants_in_schema d grants), w)

  -- From the answer on the privileges on.
  unfoldable pub read_privileges :
      Str → Str → Grantee → ResourceData → Option (Result (List PrivilegeGrant)) × W → Outcome × W
  read_privileges project service grantee d (none, w) = (failed_panic d, w)
  read_privileges project service grantee d (some (err e), w) = (failed e d, w)
  read_privileges project service grantee d (some (ok grants), w) =
      read_roles (set_privilege_grants_in_schema d grants)
        (read_role_grants query project service grantee w)

  unfoldable pub read_parts :
      ResourceData → Option (Result (Str × Str × Str × Str)) → W → Outcome × W
  read_parts d none w = (failed_panic d, w)
  read_parts d (some (err e)) w = (failed e d, w)
  read_parts d (some (ok (project, service, grantee_type, name))) w =
      let d' =
        set_user_or_role (record d { project = project; service_name = service }) grantee_type
          name in
      read_privileges project service (grantee_of d') d'
        (read_privilege_grants query project service (grantee_of d') w)

  unfoldable pub resource_read : ResourceData → W → Outcome × W
  resource_read d w = read_parts d (split_resource_id4 d.id) w

  unfoldable pub create_roles : ResourceData → Option Error × W → Outcome × W
  create_roles d (some e, w) = (failed e d, w)
  create_roles d (none, w) =
      resource_read (record d { id = id_for_user_or_role d.project d.service_name d.user d.role }) w

  unfoldable pub create_privileges : ResourceData → Option Error × W → Outcome × W
  create_privileges d (some e, w) = (failed e d, w)
  create_privileges d (none, w) =
      create_roles d
        (each (create_role_grant query d.project d.service_name) (read_role_grants_from_schema d) w)

  unfoldable pub resource_create : ResourceData → W → Outcome × W
  resource_create d w = create_privileges d (
      each (create_privilege_grant query d.project d.service_name)
        (read_privilege_grants_from_schema d) w)

  unfoldable pub delete_roles : ResourceData → Option Error × W → Outcome × W
  delete_roles d (some e, w) = (failed e d, w)
  delete_roles d (none, w) = (done d, w)

  unfoldable pub delete_privileges : ResourceData → Option Error × W → Outcome × W
  delete_privileges d (some e, w) = (failed e d, w)
  delete_privileges d (none, w) =
      delete_roles d
        (each (revoke_role_grant query d.project d.service_name) (read_role_grants_from_schema d) w)

  unfoldable pub resource_delete : ResourceData → W → Outcome × W
  resource_delete d w = delete_privileges d (
      each (revoke_privilege_grant query d.project d.service_name)
        (read_privilege_grants_from_schema d) w)
