-- ===== src/Clickhouse/Sql.antt =====
-- grant.go, lines 44 to 154, and role.go: the queries that the resources send. The server is a
-- parameter: `query` runs one statement on a world `W`.
pub mod Reads
use terraform_provider_aiven.Prelude.{
  ℕ, ◌≡◌, Bool, true, false, not, ◌&&◌, Option, none, some, List, [], ◌∷◌, if◌then◌else◌, keep, Str,
  bytes, contains, is_empty,
}
use terraform_provider_aiven.Common.{Error, Result, ok, err, as_aiven}
use terraform_provider_aiven.Clickhouse.Statement.{
  Grantee, PrivilegeGrant, RoleGrant, equals, create_role_grant_statement,
  revoke_role_grant_statement, create_privilege_grant_statement, revoke_privilege_grant_statement,
  read_role_grants_statement, read_privilege_grants_statement, create_role_statement,
  drop_role_statement, show_create_role_statement,
}
use terraform_provider_aiven.Clickhouse.Response.{
  Response, Row, role_grants_from_api_response, privilege_grants_from_api_response,
}

-- `client.ClickHouseQuery.Query` on a project, a service, a database and a statement.
abbrev pub Query {ℓ} : Type ℓ → Type ℓ
Query W = Str → Str → Str → Str → W → Result Response × W

abbrev pub default_database : Str
default_database = bytes "system"

-- The error of `role.go`'s `isUnknownRole`: only the handwritten client's error has the code.
unfoldable pub role_is_unknown : Error → Bool
role_is_unknown e = elim (as_aiven e) [
  | some message ↦ contains message (bytes "Code: 511")
  | none ↦ false
]

unfoldable pub is_named_collection_privilege : PrivilegeGrant → Bool
is_named_collection_privilege grant = is_empty grant.database

-- The grants of one grantee.
unfoldable pub role_grants_of : Grantee → List RoleGrant → List RoleGrant
role_grants_of grantee grants = keep (λ g. equals g.grantee grantee) grants

unfoldable pub privilege_grants_of : Grantee → List PrivilegeGrant → List PrivilegeGrant
privilege_grants_of grantee grants =
    keep (λ g. equals g.grantee grantee && not (is_named_collection_privilege g)) grants

-- The error of an answer that is thrown away.
unfoldable pub error_of {ℓ} : {A : Type ℓ} → Result A → Option Error
error_of (ok a) = none
error_of (err e) = some e

unfoldable pub read_answer {ℓ} :
    {A : Type ℓ}
    → (Response → Option (Result (List A)))
    → (List A → List A)
    → Result Response
    → Option (Result (List A))
read_answer parse filter (err e) = some (err e)
read_answer parse filter (ok r) = elim (parse r) [
  | none ↦ none
  | some (err e) ↦ some (err e)
  | some (ok grants) ↦ some (ok (filter grants))
]

unfoldable pub exists_answer : Result Response → Result Bool
exists_answer (ok r) = elim r.data_rows [ [] ↦ ok false | row ∷ rows ↦ ok true ]
exists_answer (err e) = if role_is_unknown e then ok false else err e

unfoldable pub drop_answer : Result Response → Option Error
drop_answer (ok r) = none
drop_answer (err e) = if role_is_unknown e then none else some e

module _ {ℓ} {W : Type ℓ} (query : Query W) (project service : Str) where
  -- One statement, of whose answer only the error is used.
  unfoldable pub send : Str → W → Option Error × W
  send statement w =
      let (r, w') = query project service default_database statement w in (error_of r, w')

  unfoldable pub create_role_grant : RoleGrant → W → Option Error × W
  create_role_grant grant w = send (create_role_grant_statement grant) w

  unfoldable pub revoke_role_grant : RoleGrant → W → Option Error × W
  revoke_role_grant grant w = send (revoke_role_grant_statement grant) w

  unfoldable pub create_privilege_grant : PrivilegeGrant → W → Option Error × W
  create_privilege_grant grant w = send (create_privilege_grant_statement grant) w

  unfoldable pub revoke_privilege_grant : PrivilegeGrant → W → Option Error × W
  revoke_privilege_grant grant w = send (revoke_privilege_grant_statement grant) w

  unfoldable pub read_role_grants : Grantee → W → Option (Result (List RoleGrant)) × W
  read_role_grants grantee w =
      let (r, w') = query project service default_database read_role_grants_statement w in
      (read_answer role_grants_from_api_response (role_grants_of grantee) r, w')

  unfoldable pub read_privilege_grants : Grantee → W → Option (Result (List PrivilegeGrant)) × W
  read_privilege_grants grantee w =
      let (r, w') = query project service default_database read_privilege_grants_statement w in
      (read_answer privilege_grants_from_api_response (privilege_grants_of grantee) r, w')

  unfoldable pub create_role : Str → W → Option Error × W
  create_role role_name w = send (create_role_statement role_name) w

  unfoldable pub role_exists : Str → W → Result Bool × W
  role_exists role_name w =
      let (r, w') =
        query project service default_database (show_create_role_statement role_name) w in
      (exists_answer r, w')

  unfoldable pub drop_role : Str → W → Option Error × W
  drop_role role_name w =
      let (r, w') = query project service default_database (drop_role_statement role_name) w in
      (drop_answer r, w')
