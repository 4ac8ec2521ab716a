-- ===== src/Clickhouse/Response.antt =====
-- grant.go, from line 256: the rows of the tables system.role_grants and system.grants as grants.
pub mod Rows
use terraform_provider_aiven.Prelude.{
  ℕ, suc, ◌≡◌, Bool, true, false, Option, none, some, List, [], ◌∷◌, ◌++◌, if◌then◌else◌, Str,
  bytes, str_eq, get_elem?,
}
use terraform_provider_aiven.Common.{Error, Result, plain, ok, err}
use terraform_provider_aiven.Clickhouse.Statement.{Grantee, PrivilegeGrant, RoleGrant}

-- A JSON value: of an object, an array and a Boolean only the type matters here.
pub data Cell : Type 0 where
  null other : Cell
  text : Str → Cell
  number : Str → Cell

pub data Row : Type 0 where
  cells : List Cell → Row
  not_array : Row

pub record Response : Type 0 where
  pub meta : List Str
  pub data_rows : List Row

-- `columnNameMap[name]`, with the number of the first column: a later column of a name wins.
unfoldable pub column_index : ℕ → List Str → Str → Option ℕ
column_index i [] name = none
column_index i (c ∷ meta) name = elim (column_index (suc i) meta name) [
  | some j ↦ some j
  | none ↦ if str_eq c name then some i else none
]

-- The first of the required columns that the metadata lacks.
unfoldable pub missing_column : List Str → List Str → Option Str
missing_column meta [] = none
missing_column meta (name ∷ names) = elim (column_index 0 meta name) [
  | none ↦ some name
  | some i ↦ missing_column meta names
]

-- `column[columnNameMap[columnName]]`, which panics beyond the end of the row. The map gives zero
-- for a name that it lacks.
unfoldable pub cell_at : List Str → List Cell → Str → Option Cell
cell_at meta row name = elim (column_index 0 meta name) [
  | some i ↦ get_elem? row i
  | none ↦ get_elem? row 0
]

unfoldable pub not_a_string : Str → Error
not_a_string name = plain (bytes "column name '" ++ (name ++ bytes "' was expected to be a string"))

unfoldable pub not_a_number : Str → Error
not_a_number name =
    plain (bytes "column name '" ++ (name ++ bytes "' was expected to be a json number"))

unfoldable pub missing_error : Str → Str → Error
missing_error relation name =
    plain (
      bytes "'"
      ++ (relation ++ (bytes "' metadata is missing the '" ++ (name ++ bytes "' column"))))

-- The string of a cell and the error that the rows have in common, after it.
unfoldable pub string_of_cell : Str → Str → Option Error → Cell → Str × Option Error
string_of_cell name default_value e null = (default_value, e)
string_of_cell name default_value e (text s) = (s, e)
string_of_cell name default_value e (number n) = ([], some (not_a_string name))
string_of_cell name default_value e other = ([], some (not_a_string name))

unfoldable pub boolean_of_cell : Str → Option Error → Cell → Bool × Option Error
boolean_of_cell name e (number n) = (str_eq n (bytes "1"), e)
boolean_of_cell name e null = (false, some (not_a_number name))
boolean_of_cell name e (text s) = (false, some (not_a_number name))
boolean_of_cell name e other = (false, some (not_a_number name))

-- `none` is a panic.
unfoldable pub get_maybe_string :
    List Str → List Cell → Str → Str → Option Error → Option (Str × Option Error)
get_maybe_string meta row name default_value e = elim (cell_at meta row name) [
  | none ↦ none
  | some c ↦ some (string_of_cell name default_value e c)
]

unfoldable pub get_boolean :
    List Str → List Cell → Str → Option Error → Option (Bool × Option Error)
get_boolean meta row name e = elim (cell_at meta row name) [
  | none ↦ none
  | some c ↦ some (boolean_of_cell name e c)
]

infixl 5 ◌>>=◌
abbrev pub ◌>>=◌ {ℓ κ} : {A : Type ℓ} {B : Type κ} → Option A → (A → Option B) → Option B
none >>= f = none
some a >>= f = f a

unfoldable pub role_grant_of_row :
    List Str → List Cell → Option Error → Option (RoleGrant × Option Error)
role_grant_of_row meta row e = do
  (user, e₁) ← get_maybe_string meta row (bytes "user_name") [] e
  (role, e₂) ← get_maybe_string meta row (bytes "role_name") [] e₁
  (granted, e₃) ← get_maybe_string meta row (bytes "granted_role_name") [] e₂
  some (record { grantee = record { user = user; role = role }; role = granted }, e₃)

-- The row of a partial revoke gives no grant, and its other cells are not read.
unfoldable pub privilege_grant_rest :
    List Str → List Cell → Option Error → Option (PrivilegeGrant × Option Error)
privilege_grant_rest meta row e = do
  (user, e₁) ← get_maybe_string meta row (bytes "user_name") [] e
  (role, e₂) ← get_maybe_string meta row (bytes "role_name") [] e₁
  (database, e₃) ← get_maybe_string meta row (bytes "database") (bytes "*") e₂
  (table, e₄) ← get_maybe_string meta row (bytes "table") [] e₃
  (column, e₅) ← get_maybe_string meta row (bytes "column") [] e₄
  (privilege, e₆) ← get_maybe_string meta row (bytes "access_type") [] e₅
  (with_grant, e₇) ← get_boolean meta row (bytes "grant_option") e₆
  some (
    record {
      grantee = record { user = user; role = role };
      database = database;
      table = table;
      column = column;
      privilege = privilege;
      with_grant = with_grant;
    },
    e₇,
  )

unfoldable pub privilege_grant_of_row :
    List Str → List Cell → Option Error → Option (List PrivilegeGrant × Option Error)
privilege_grant_of_row meta row e = do
  (partial, e₁) ← get_boolean meta row (bytes "is_partial_revoke") e
  elim partial [
    | true ↦ some ([], e₁)
    | false ↦ do (grant, e₂) ← privilege_grant_rest meta row e₁; some (grant ∷ [], e₂)
  ]

unfoldable pub role_rows :
    List Str → List Row → Option Error → Option (List RoleGrant × Option Error)
role_rows meta [] e = some ([], e)
role_rows meta (not_array ∷ rows) e = none
role_rows meta (cells row ∷ rows) e = do
  (grant, e₁) ← role_grant_of_row meta row e
  (grants, e₂) ← role_rows meta rows e₁
  some (grant ∷ grants, e₂)

unfoldable pub privilege_rows :
    List Str → List Row → Option Error → Option (List PrivilegeGrant × Option Error)
privilege_rows meta [] e = some ([], e)
privilege_rows meta (not_array ∷ rows) e = none
privilege_rows meta (cells row ∷ rows) e = do
  (grant, e₁) ← privilege_grant_of_row meta row e
  (grants, e₂) ← privilege_rows meta rows e₁
  some (grant ++ grants, e₂)

-- The error, if a row set one, in place of the grants.
unfoldable pub collected {ℓ} : {A : Type ℓ} → List A × Option Error → Result (List A)
collected (grants, none) = ok grants
collected (grants, some e) = err e

abbrev pub role_columns : List Str
role_columns = bytes "user_name" ∷ bytes "role_name" ∷ bytes "granted_role_name" ∷ []

abbrev pub privilege_columns : List Str
privilege_columns =
    bytes "is_partial_revoke"
    ∷ bytes "user_name"
    ∷ bytes "database"
    ∷ bytes "table"
    ∷ bytes "column"
    ∷ bytes "role_name"
    ∷ bytes "access_type"
    ∷ bytes "grant_option"
    ∷ []

unfoldable pub role_grants_from_api_response : Response → Option (Result (List RoleGrant))
role_grants_from_api_response r = elim (missing_column r.meta role_columns) [
  | some name ↦ some (err (missing_error (bytes "system.role_grants") name))
  | none ↦ do collected_rows ← role_rows r.meta r.data_rows none; some (collected collected_rows)
]

unfoldable pub privilege_grants_from_api_response : Response → Option (Result (List PrivilegeGrant))
privilege_grants_from_api_response r = elim (missing_column r.meta privilege_columns) [
  | some name ↦ some (err (missing_error (bytes "system.grants") name))
  | none ↦ do
    collected_rows ← privilege_rows r.meta r.data_rows none
    some (collected collected_rows)
]
