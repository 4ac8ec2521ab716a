-- ===== src/Clickhouse/Response/Rows.antt =====
-- What the rows of the system tables that grant.go reads say, independent of the code that reads them.
use terraform_provider_aiven.Prelude.{
  ℕ, suc, ◌+◌, arith, get_elem?, str_mem, str_eq_refl, str_eq_iff, ◌≡◌, refl, ap, ◌∙◌, ◌⊎◌, inl,
  inr, Bool, true, false, Option, none, some, List, [], ◌∷◌, Str, bytes, str_eq,
}
use terraform_provider_aiven.Common.{Error, ok}
use terraform_provider_aiven.Clickhouse.Statement.{PrivilegeGrant, RoleGrant}
use terraform_provider_aiven.Clickhouse.Response.{
  Cell, null, text, number, Row, cells, Response, column_index, cell_at, get_maybe_string,
  get_boolean, string_of_cell, boolean_of_cell, ◌>>=◌, missing_column, role_grant_of_row,
  privilege_grant_rest, privilege_grant_of_row, role_rows, privilege_rows, collected, role_columns,
  privilege_columns, role_grants_from_api_response, privilege_grants_from_api_response,
}

-- The cell under the last column of this name is `c`.
pub data Under (name : Str) : List Str → List Cell → Cell → Type 0 where
  here :
      (meta : List Str) (c : Cell) (row : List Cell)
      → str_mem name meta ≡ false
      → Under name (name ∷ meta) (c ∷ row) c
  right :
      (column : Str) (meta : List Str) (d : Cell) (row : List Cell) (c : Cell)
      → Under name meta row c
      → Under name (column ∷ meta) (d ∷ row) c

-- The cell of a column holds a string, or it is null and the string is the column's default.
unfoldable pub Reads : List Str → List Cell → Str → Str → Str → Type 0
Reads meta row name default_value s =
    Under name meta row (text s) ⊎ (Under name meta row null × (s ≡ default_value))

-- The cell of a column holds the number one, or another number.
unfoldable pub ReadsFlag : List Str → List Cell → Str → Bool → Type 0
ReadsFlag meta row name flag =
    (n : Str) × Under name meta row (number n) × (str_eq n (bytes "1") ≡ flag)

unfoldable pub ShowsRole : List Str → List Cell → RoleGrant → Type 0
ShowsRole meta row g =
    Reads meta row (bytes "user_name") [] g.grantee.user
    × Reads meta row (bytes "role_name") [] g.grantee.role
    × Reads meta row (bytes "granted_role_name") [] g.role

unfoldable pub ShowsPrivilege : List Str → List Cell → PrivilegeGrant → Type 0
ShowsPrivilege meta row g =
    Reads meta row (bytes "user_name") [] g.grantee.user
    × Reads meta row (bytes "role_name") [] g.grantee.role
    × Reads meta row (bytes "database") (bytes "*") g.database
    × Reads meta row (bytes "table") [] g.table
    × Reads meta row (bytes "column") [] g.column
    × Reads meta row (bytes "access_type") [] g.privilege
    × ReadsFlag meta row (bytes "grant_option") g.with_grant

-- The rows that show the grants in their order, with partial revokes between them.
pub data Shown (meta : List Str) : List Row → List PrivilegeGrant → Type 0 where
  no_rows : Shown meta [] []
  revoked :
      (row : List Cell) (rows : List Row) (grants : List PrivilegeGrant)
      → ReadsFlag meta row (bytes "is_partial_revoke") true
      → Shown meta rows grants
      → Shown meta (cells row ∷ rows) grants
  granted :
      (row : List Cell) (g : PrivilegeGrant) (rows : List Row) (grants : List PrivilegeGrant)
      → ReadsFlag meta row (bytes "is_partial_revoke") false
      → ShowsPrivilege meta row g
      → Shown meta rows grants
      → Shown meta (cells row ∷ rows) (g ∷ grants)

pub data ShownRoles (meta : List Str) : List Row → List RoleGrant → Type 0 where
  no_roles : ShownRoles meta [] []
  one_role :
      (row : List Cell) (g : RoleGrant) (rows : List Row) (grants : List RoleGrant)
      → ShowsRole meta row g
      → ShownRoles meta rows grants
      → ShownRoles meta (cells row ∷ rows) (g ∷ grants)

absent :
    (name : Str) (meta : List Str) (k : ℕ)
    → str_mem name meta ≡ false
    → column_index k meta name ≡ none
unfolding column_index
absent name [] k h = refl
absent name (c ∷ meta) k h =
    ground (arith, absent name meta (suc k), str_eq_iff name c, str_eq_iff c name)

Under-index :
    (name : Str) (meta : List Str) (row : List Cell) (c : Cell) (k : ℕ)
    → Under name meta row c
    → (i : ℕ) × (column_index k meta name ≡ some (k + i)) × (get_elem? row i ≡ some c)
unfolding column_index
Under-index name _ _ _ k (here meta c row h) =
    (0, rw (column_index, absent name meta (suc k) h, str_eq_refl) (ap some (omega arith)), refl)
Under-index name _ _ _ k (right column meta d row c u) =
    let (i, e, g) = Under-index name meta row c (suc k) u in
    (suc i, rw (column_index, e) (ap some (omega arith)), g)

under_lem :
    (name : Str) (meta : List Str) (row : List Cell) (c : Cell)
    → Under name meta row c
    → cell_at meta row name ≡ some c
unfolding cell_at
under_lem name meta row c u =
    let (i, e, g) = Under-index name meta row c 0 u in
    let z : 0 + i ≡ i = omega arith in rw (cell_at, e, z) g

after_some {ℓ κ} :
    {A : Type ℓ} {B : Type κ} {o : Option A} {a : A} (f : A → Option B) {b : Option B}
    → o ≡ some a
    → f a ≡ b
    → (o >>= f) ≡ b
after_some f e q = ap (λ o. o >>= f) e ∙ q

string_read :
    (meta : List Str) (row : List Cell) (name default_value s : Str) (e : Option Error)
    → Reads meta row name default_value s
    → get_maybe_string meta row name default_value e ≡ some (s, e)
unfolding Reads get_maybe_string string_of_cell
string_read meta row name d s e (inl u) =
    rw (get_maybe_string, under_lem name meta row (text s) u) refl
string_read meta row name d s e (inr (u, q)) =
    rw (get_maybe_string, under_lem name meta row null u, q) refl

flag_read :
    (meta : List Str) (row : List Cell) (name : Str) (flag : Bool) (e : Option Error)
    → ReadsFlag meta row name flag
    → get_boolean meta row name e ≡ some (flag, e)
unfolding ReadsFlag get_boolean boolean_of_cell
flag_read meta row name flag e (n, u, q) =
    rw (get_boolean, under_lem name meta row (number n) u, q) refl

role_row_read :
    (meta : List Str) (row : List Cell) (g : RoleGrant) (e : Option Error)
    → ShowsRole meta row g
    → role_grant_of_row meta row e ≡ some (g, e)
unfolding role_grant_of_row ShowsRole
role_row_read meta row g e h =
    after_some _ (string_read meta row (bytes "user_name") [] g.grantee.user e h.0) (
      after_some _ (string_read meta row (bytes "role_name") [] g.grantee.role e h.1)
        (after_some _ (string_read meta row (bytes "granted_role_name") [] g.role e h.2) refl))

privilege_rest_read :
    (meta : List Str) (row : List Cell) (g : PrivilegeGrant) (e : Option Error)
    → ShowsPrivilege meta row g
    → privilege_grant_rest meta row e ≡ some (g, e)
unfolding privilege_grant_rest ShowsPrivilege
privilege_rest_read meta row g e h =
    after_some _ (string_read meta row (bytes "user_name") [] g.grantee.user e h.0) (
      after_some _ (string_read meta row (bytes "role_name") [] g.grantee.role e h.1) (
        after_some _ (string_read meta row (bytes "database") (bytes "*") g.database e h.2) (
          after_some _ (string_read meta row (bytes "table") [] g.table e h.3) (
            after_some _ (string_read meta row (bytes "column") [] g.column e h.4) (
              after_some _ (string_read meta row (bytes "access_type") [] g.privilege e h.5) (
                after_some _ (flag_read meta row (bytes "grant_option") g.with_grant e h.6)
                  refl))))))

role_rows_read :
    (meta : List Str) (rows : List Row) (grants : List RoleGrant) (e : Option Error)
    → ShownRoles meta rows grants
    → role_rows meta rows e ≡ some (grants, e)
unfolding role_rows
role_rows_read meta _ _ e no_roles = refl
role_rows_read meta _ _ e (one_role row g rows grants h k) =
    after_some _ (role_row_read meta row g e h)
      (after_some _ (role_rows_read meta rows grants e k) refl)

privilege_rows_read :
    (meta : List Str) (rows : List Row) (grants : List PrivilegeGrant) (e : Option Error)
    → Shown meta rows grants
    → privilege_rows meta rows e ≡ some (grants, e)
unfolding privilege_rows privilege_grant_of_row
privilege_rows_read meta _ _ e no_rows = refl
privilege_rows_read meta _ _ e (revoked row rows grants p k) =
    after_some _ (after_some _ (flag_read meta row (bytes "is_partial_revoke") true e p) refl)
      (after_some _ (privilege_rows_read meta rows grants e k) refl)
privilege_rows_read meta _ _ e (granted row g rows grants p h k) =
    after_some _
      (after_some _ (flag_read meta row (bytes "is_partial_revoke") false e p)
        (after_some _ (privilege_rest_read meta row g e h) refl))
      (after_some _ (privilege_rows_read meta rows grants e k) refl)

-- If the metadata has the three columns and each row shows a role grant, the answer is these grants,
-- in order.
role_grants_of_rows :
    (r : Response) (grants : List RoleGrant)
    → missing_column r.meta role_columns ≡ none
    → ShownRoles r.meta r.data_rows grants
    → role_grants_from_api_response r ≡ some (ok grants)
unfolding role_grants_from_api_response collected
role_grants_of_rows r grants c h =
    rw (role_grants_from_api_response, c)
      (after_some _ (role_rows_read r.meta r.data_rows grants none h) refl)

-- If the metadata has the eight columns and each row shows a partial revoke or a grant, the answer
-- is exactly the grants, in order, and no partial revoke is taken for one.
pub privilege_grants_of_rows :
    (r : Response) (grants : List PrivilegeGrant)
    → missing_column r.meta privilege_columns ≡ none
    → Shown r.meta r.data_rows grants
    → privilege_grants_from_api_response r ≡ some (ok grants)
unfolding privilege_grants_from_api_response collected
privilege_grants_of_rows r grants c h =
    rw (privilege_grants_from_api_response, c)
      (after_some _ (privilege_rows_read r.meta r.data_rows grants none h) refl)
