-- ===== src/Clickhouse/Statement.antt =====
-- grant.go and role.go: grants, and the statements that create, revoke and read them.
pub mod Reader
pub mod Readback
use terraform_provider_aiven.Prelude.{
  Bool, true, false, List, [], ◌∷◌, ◌++◌, if◌then◌else◌, Str, bytes, is_empty, str_eq, ◌&&◌,
}
use terraform_provider_aiven.Clickhouse.Escape.{escape}

pub record Grantee : Type 0 where
  pub user : Str
  pub role : Str

pub record PrivilegeGrant : Type 0 where
  pub grantee : Grantee
  pub database : Str
  pub table : Str
  pub column : Str
  pub privilege : Str
  pub with_grant : Bool

pub record RoleGrant : Type 0 where
  pub grantee : Grantee
  pub role : Str

unfoldable pub equals : Grantee → Grantee → Bool
equals g other = str_eq g.user other.user && str_eq g.role other.role

unfoldable pub user_or_role : Grantee → Str
user_or_role g = if is_empty g.user then g.role else g.user

unfoldable pub create_role_grant_statement : RoleGrant → Str
create_role_grant_statement grant =
    bytes "GRANT " ++ (escape grant.role ++ (bytes " TO " ++ escape (user_or_role grant.grantee)))

unfoldable pub revoke_role_grant_statement : RoleGrant → Str
revoke_role_grant_statement grant =
    bytes "REVOKE "
    ++ (escape grant.role ++ (bytes " FROM " ++ escape (user_or_role grant.grantee)))

abbrev pub read_role_grants_statement : Str
read_role_grants_statement = bytes "SELECT * FROM system.role_grants"

abbrev pub read_privilege_grants_statement : Str
read_privilege_grants_statement = bytes "SELECT * FROM system.grants"

unfoldable pub column_clause : Str → Str
column_clause column = if is_empty column then [] else bytes "(" ++ (escape column ++ bytes ")")

-- The asterisk is a wildcard and is not escaped.
unfoldable pub database_clause : Str → Str
database_clause database =
    if str_eq database (bytes "*") then bytes " ON *" else bytes " ON " ++ escape database

unfoldable pub table_clause : Str → Str
table_clause table = if is_empty table then bytes ".*" else bytes "." ++ escape table

unfoldable pub option_clause : Bool → Str
option_clause with_grant = if with_grant then bytes " WITH GRANT OPTION" else []

unfoldable pub create_privilege_grant_statement : PrivilegeGrant → Str
create_privilege_grant_statement grant =
    bytes "GRANT"
    ++ (bytes " "
        ++ (grant.privilege
            ++ (column_clause grant.column
                ++ (database_clause grant.database
                    ++ (table_clause grant.table
                        ++ (bytes " TO "
                            ++ (escape (user_or_role grant.grantee)
                                ++ option_clause grant.with_grant)))))))

unfoldable pub revoke_privilege_grant_statement : PrivilegeGrant → Str
revoke_privilege_grant_statement grant =
    bytes "REVOKE"
    ++ (bytes " "
        ++ (grant.privilege
            ++ (column_clause grant.column
                ++ (database_clause grant.database
                    ++ (table_clause grant.table
                        ++ (bytes " FROM " ++ escape (user_or_role grant.grantee)))))))

unfoldable pub create_role_statement : Str → Str
create_role_statement role_name = bytes "CREATE ROLE IF NOT EXISTS " ++ escape role_name

unfoldable pub drop_role_statement : Str → Str
drop_role_statement role_name = bytes "DROP ROLE IF EXISTS " ++ escape role_name

unfoldable pub show_create_role_statement : Str → Str
show_create_role_statement role_name = bytes "SHOW CREATE ROLE " ++ escape role_name
