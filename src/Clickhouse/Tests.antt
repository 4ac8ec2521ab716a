-- ===== src/Clickhouse/Tests.antt =====
-- internal/sdkprovider/service/clickhouse at concrete inputs.
use terraform_provider_aiven.Prelude.{
  ℕ, ◌≡◌, ◌↔◌, refl, arith, true, some, List, [], ◌∷◌, ◌++◌, inl, inr, All, Str, bytes, str_eq,
}
use terraform_provider_aiven.Common.{ok, err, aiven}
use terraform_provider_aiven.ResourceId.{split_resource_id4}
use terraform_provider_aiven.ResourceId.Escape.{IsBytes}
use terraform_provider_aiven.Clickhouse.Escape.{escape}
use terraform_provider_aiven.Clickhouse.Escape.Quoting.{read_identifier, read-escape}
use terraform_provider_aiven.Clickhouse.Statement.{
  Grantee, PrivilegeGrant, RoleGrant, user_or_role, create_role_grant_statement,
  revoke_role_grant_statement, create_privilege_grant_statement, revoke_privilege_grant_statement,
  option_clause,
}
use terraform_provider_aiven.Clickhouse.Statement.Reader.{read_role_grant, read_privilege_grant}
use terraform_provider_aiven.Clickhouse.Statement.Readback.{
  role_grant_readback, privilege_grant_readback, NamesAreBytes, target_of,
}
use terraform_provider_aiven.Clickhouse.Response.{
  Cell, null, text, number, cells, Response, missing_column, column_index, role_columns,
  privilege_columns, privilege_grants_from_api_response,
}
use terraform_provider_aiven.Clickhouse.Response.Rows.{
  Reads, ReadsFlag, ShowsRole, ShowsPrivilege, Shown, no_rows, revoked, granted, ShownRoles,
  no_roles, one_role, here, right, privilege_grants_of_rows,
}
use terraform_provider_aiven.Clickhouse.Sql.{Query, privilege_grants_of}
use terraform_provider_aiven.Clickhouse.Sql.Reads.{IsTracked, reads_of_grantee}
use terraform_provider_aiven.Clickhouse.GrantResource.{ResourceData, id_for_user_or_role}
use terraform_provider_aiven.Clickhouse.GrantResource.Loops.{grantee_type, grant_id_readback}

-- A name with a backtick, a backslash and a slash.
abbrev odd : Str
odd = bytes "a`\\/"

odd-IsBytes : IsBytes odd
odd-IsBytes = (omega arith, (omega arith, (omega arith, (omega arith, tt))))

abbrev bob : Grantee
bob = record { user = odd; role = [] }

abbrev odd_role : RoleGrant
odd_role = record { grantee = bob; role = odd }

abbrev odd_privilege : PrivilegeGrant
odd_privilege = record {
  grantee = bob;
  database = bytes "*";
  table = odd;
  column = [];
  privilege = bytes "SELECT";
  with_grant = true;
}

odd_names : NamesAreBytes odd_privilege
unfolding NamesAreBytes
odd_names = (tt, (omega arith, tt), odd-IsBytes, odd-IsBytes, tt)

read-escape_example : read_identifier (escape odd ++ bytes " x") ≡ some (odd, bytes " x")
read-escape_example = read-escape odd (bytes " x") odd-IsBytes refl

role_grant_readback_example :
    (read_role_grant (bytes "GRANT ") (bytes " TO ") (create_role_grant_statement odd_role)
      ≡ some (odd, user_or_role bob))
    × (read_role_grant (bytes "REVOKE ") (bytes " FROM ") (revoke_role_grant_statement odd_role)
        ≡ some (odd, user_or_role bob))
role_grant_readback_example = role_grant_readback odd_role odd-IsBytes odd-IsBytes tt

privilege_grant_readback_example :
    (read_privilege_grant
        (bytes "GRANT ")
        (bytes " TO ")
        (bytes "SELECT")
        (create_privilege_grant_statement odd_privilege)
      ≡ some (target_of odd_privilege (option_clause true)))
    × (read_privilege_grant
          (bytes "REVOKE ")
          (bytes " FROM ")
          (bytes "SELECT")
          (revoke_privilege_grant_statement odd_privilege)
        ≡ some (target_of odd_privilege []))
privilege_grant_readback_example = privilege_grant_readback odd_privilege odd_names

abbrev role_row : List Cell
role_row = text (bytes "bob") ∷ null ∷ text (bytes "admin") ∷ []

abbrev role_response : Response
role_response = record { meta = role_columns; data_rows = cells role_row ∷ [] }

abbrev admin : RoleGrant
admin = record { grantee = record { user = bytes "bob"; role = [] }; role = bytes "admin" }

role_row-ShownRoles : ShownRoles role_columns (cells role_row ∷ []) (admin ∷ [])
unfolding Reads ShowsRole str_eq
role_row-ShownRoles =
    one_role role_row admin [] []
      (
        inl (here _ _ _ refl),
        inr ((right _ _ _ _ _ (here _ _ _ refl)), refl),
        inl (right _ _ _ _ _ (right _ _ _ _ _ (here _ _ _ refl))),
      )
      no_roles

abbrev privilege_row : Str → List Cell
privilege_row partial =
    number partial
    ∷ text (bytes "bob")
    ∷ null
    ∷ null
    ∷ null
    ∷ null
    ∷ text (bytes "SELECT")
    ∷ number (bytes "1")
    ∷ []

abbrev privilege_response : Response
privilege_response = record {
  meta = privilege_columns;
  data_rows = cells (privilege_row (bytes "1")) ∷ cells (privilege_row (bytes "0")) ∷ [];
}

abbrev select : PrivilegeGrant
select = record {
  grantee = record { user = bytes "bob"; role = [] };
  database = bytes "*";
  table = [];
  column = [];
  privilege = bytes "SELECT";
  with_grant = true;
}

privilege_row-ShowsPrivilege : ShowsPrivilege privilege_columns (privilege_row (bytes "0")) select
unfolding Reads ReadsFlag ShowsPrivilege str_eq
privilege_row-ShowsPrivilege = (
  inl (right _ _ _ _ _ (here _ _ _ refl)),
  inr (
    (right _ _ _ _ _
        (right _ _ _ _ _ (right _ _ _ _ _ (right _ _ _ _ _ (right _ _ _ _ _ (here _ _ _ refl)))))),
    refl,
  ),
  inr ((right _ _ _ _ _ (right _ _ _ _ _ (here _ _ _ refl))), refl),
  inr ((right _ _ _ _ _ (right _ _ _ _ _ (right _ _ _ _ _ (here _ _ _ refl)))), refl),
  inr (
    (right _ _ _ _ _ (right _ _ _ _ _ (right _ _ _ _ _ (right _ _ _ _ _ (here _ _ _ refl))))),
    refl,
  ),
  inl (
      right _ _ _ _ _ (
        right _ _ _ _ _ (
          right _ _ _ _ _
            (right _ _ _ _ _ (right _ _ _ _ _ (right _ _ _ _ _ (here _ _ _ refl))))))),
  (
    bytes "1",
    (right _ _ _ _ _ (
        right _ _ _ _ _ (
          right _ _ _ _ _ (
            right _ _ _ _ _
              (right _ _ _ _ _ (right _ _ _ _ _ (right _ _ _ _ _ (here _ _ _ refl)))))))),
    refl,
  ),
)

privilege_rows-Shown :
    Shown privilege_columns
      (cells (privilege_row (bytes "1")) ∷ cells (privilege_row (bytes "0")) ∷ [])
      (select ∷ [])
unfolding ReadsFlag str_eq
privilege_rows-Shown =
    revoked (privilege_row (bytes "1")) _ (select ∷ []) (bytes "1", here _ _ _ refl, refl)
      (granted (privilege_row (bytes "0")) select [] [] (bytes "0", here _ _ _ refl, refl)
        privilege_row-ShowsPrivilege no_rows)

privilege_grants_of_rows_example :
    privilege_grants_from_api_response privilege_response ≡ some (ok (select ∷ []))
unfolding missing_column column_index str_eq
privilege_grants_of_rows_example =
    privilege_grants_of_rows privilege_response (select ∷ []) refl privilege_rows-Shown

reads_of_grantee_example :
    All (λ g. g ≡ select) (privilege_grants_of select.grantee (select ∷ odd_privilege ∷ []))
    ↔ All (λ g. IsTracked select.grantee g → g ≡ select) (select ∷ odd_privilege ∷ [])
reads_of_grantee_example =
    reads_of_grantee (λ g. g ≡ select) select.grantee (select ∷ odd_privilege ∷ [])

-- A server that refuses every statement.
abbrev refusing : Query ℕ
refusing project service database statement n = (err (aiven 400 (bytes "refused")), n)

abbrev resource : ResourceData
resource = record {
  id = [];
  project = bytes "p";
  service_name = bytes "s";
  user = bytes "bob";
  role = [];
  privilege_grant = [];
  role_grant = bytes "admin" ∷ [];
}

grant_id_readback_example :
    split_resource_id4 (id_for_user_or_role odd odd odd [])
    ≡ some (ok (odd, odd, grantee_type bob, user_or_role bob))
grant_id_readback_example = grant_id_readback odd odd bob odd-IsBytes odd-IsBytes odd-IsBytes tt
