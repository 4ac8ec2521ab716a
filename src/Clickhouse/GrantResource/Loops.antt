-- ===== src/Clickhouse/GrantResource/Loops.antt =====
-- About the loops over grants and the ids of clickhouse_grant.go.
use terraform_provider_aiven.Prelude.{
  ◌≡◌, arith, Option, none, some, List, ◌++◌, map, inl, inr, Bool-cases, Str, is_empty,
  if◌then◌else◌,
}
use terraform_provider_aiven.Common.{Error, ok}
use terraform_provider_aiven.ResourceId.{split_resource_id4}
use terraform_provider_aiven.ResourceId.Escape.{IsBytes}
use terraform_provider_aiven.ResourceId.Split.{split_four-build}
use terraform_provider_aiven.Clickhouse.Statement.{
  Grantee, user_or_role, create_role_grant_statement, revoke_role_grant_statement,
  create_privilege_grant_statement, revoke_privilege_grant_statement,
}
use terraform_provider_aiven.Clickhouse.GrantResource.{
  ResourceData, id_for_user_or_role, grantee_type_user, grantee_type_role,
  read_privilege_grants_from_schema, read_role_grants_from_schema, Outcome, failed,
}

-- The statements that create the grants of a resource: privileges, then roles.
pub grant_statements : ResourceData → List Str
grant_statements d =
    map create_privilege_grant_statement (read_privilege_grants_from_schema d)
    ++ map create_role_grant_statement (read_role_grants_from_schema d)

pub revoke_statements : ResourceData → List Str
revoke_statements d =
    map revoke_privilege_grant_statement (read_privilege_grants_from_schema d)
    ++ map revoke_role_grant_statement (read_role_grants_from_schema d)

-- What follows the statements: a failure is reported with the data as they are, otherwise `next` runs.
pub after_statements {ℓ} :
    {W : Type ℓ} → (W → Outcome × W) → ResourceData → Option Error × W → Outcome × W
after_statements next d (some e, w) = (failed e d, w)
after_statements next d (none, w) = next w

-- The type of grantee in the id.
pub grantee_type : Grantee → Str
grantee_type g = if is_empty g.user then grantee_type_role else grantee_type_user

literals-IsBytes : IsBytes grantee_type_user × IsBytes grantee_type_role
literals-IsBytes = (
  (omega arith, (omega arith, (omega arith, (omega arith, tt)))),
  (omega arith, (omega arith, (omega arith, (omega arith, tt)))),
)

-- The id of a resource of grants names its project, its service, and the user or else the role with
-- its kind, whatever bytes these hold, slashes included.
pub grant_id_readback :
    (project service : Str) (g : Grantee)
    → IsBytes project
    → IsBytes service
    → IsBytes g.user
    → IsBytes g.role
    → split_resource_id4 (id_for_user_or_role project service g.user g.role)
      ≡ some (ok (project, service, grantee_type g, user_or_role g))
unfolding id_for_user_or_role user_or_role grantee_type
grant_id_readback project service g p s u r = elim (Bool-cases (is_empty g.user)) [
  | inl e ↦
      rw e (split_four-build project service grantee_type_role g.role p s literals-IsBytes.1 r)
  | inr e ↦
      rw e (split_four-build project service grantee_type_user g.user p s literals-IsBytes.0 u)
]
