-- ===== src/Clickhouse/Statement/Readback.antt =====
-- About the statements of grant.go, read by the grammar of GRANT and REVOKE.
use mathlib.Core.List.{append_assoc, append-nil}
use terraform_provider_aiven.Prelude.{
  ◌≡◌, refl, ap, ◌∙◌, Bool, true, false, Option, none, some, [], ◌∷◌, ◌++◌, inl, inr, Bool-cases,
  Str, bytes, is_empty, str_eq, if◌then◌else◌,
}
use terraform_provider_aiven.ResourceId.Escape.{IsBytes}
use terraform_provider_aiven.Clickhouse.Escape.{escape}
use terraform_provider_aiven.Clickhouse.Escape.Quoting.{
  read_quoted, starts_with_backtick, read_quoted-escape,
}
use terraform_provider_aiven.Clickhouse.Statement.{
  Grantee, PrivilegeGrant, RoleGrant, user_or_role, create_role_grant_statement,
  revoke_role_grant_statement, column_clause, database_clause, table_clause, option_clause,
  create_privilege_grant_statement, revoke_privilege_grant_statement,
}
use terraform_provider_aiven.Clickhouse.Statement.Reader.{
  ◌>>=◌, strip, strip-append, Target, read_column, read_name, read_target, read_role_grant,
  read_privilege_grant,
}

user_or_role-IsBytes : (g : Grantee) → IsBytes g.user → IsBytes g.role → IsBytes (user_or_role g)
unfolding user_or_role
user_or_role-IsBytes g u r = elim (Bool-cases (is_empty g.user)) [ inl e ↦ rw e r | inr e ↦ rw e u ]

quoted_end : (name : Str) → IsBytes name → read_quoted (escape name) ≡ some (name, [])
quoted_end name h = rw (← append-nil (escape name)) (read_quoted-escape name [] h refl)

-- Reading a role grant back gives its role and the user, or else the role, that it is granted to or
-- revoked from.
pub role_grant_readback :
    (g : RoleGrant)
    → IsBytes g.role
    → IsBytes g.grantee.user
    → IsBytes g.grantee.role
    → (read_role_grant (bytes "GRANT ") (bytes " TO ") (create_role_grant_statement g)
        ≡ some (g.role, user_or_role g.grantee))
      × (read_role_grant (bytes "REVOKE ") (bytes " FROM ") (revoke_role_grant_statement g)
          ≡ some (g.role, user_or_role g.grantee))
unfolding read_role_grant create_role_grant_statement revoke_role_grant_statement
role_grant_readback g r u v =
    let q = quoted_end (user_or_role g.grantee) (user_or_role-IsBytes g.grantee u v) in
    (
      rw
          (
            strip-append,
            read_quoted-escape g.role (bytes " TO " ++ escape (user_or_role g.grantee)) r refl,
            strip-append,
            q,
          )
          refl,
      rw
          (
            strip-append,
            read_quoted-escape g.role (bytes " FROM " ++ escape (user_or_role g.grantee)) r refl,
            strip-append,
            q,
          )
          refl,
    )

-- What a name is read back as: nothing where the source writes a wildcard or leaves it out.
unless_empty : Str → Option Str
unless_empty s = if is_empty s then none else some s

unless_wildcard : Str → Option Str
unless_wildcard s = if str_eq s (bytes "*") then none else some s

column_read :
    (column rest : Str)
    → IsBytes column
    → read_column (column_clause column ++ (bytes " ON " ++ rest))
      ≡ some (unless_empty column, bytes " ON " ++ rest)
unfolding read_column column_clause unless_empty strip
column_read [] rest h = refl
column_read (c ∷ column) rest h =
    rw
      (
        append_assoc (escape (c ∷ column)) (bytes ")") (bytes " ON " ++ rest),
        read_quoted-escape (c ∷ column) (bytes ")" ++ (bytes " ON " ++ rest)) h refl,
      )
      refl

not_wildcard : (name rest : Str) → strip (bytes "*") (escape name ++ rest) ≡ none
unfolding strip escape
not_wildcard name rest = refl

quoted_name_read :
    (name rest : Str)
    → IsBytes name
    → starts_with_backtick rest ≡ false
    → read_name (escape name ++ rest) ≡ some (some name, rest)
unfolding read_name
quoted_name_read name rest h k =
    rw (read_name, not_wildcard name rest, read_quoted-escape name rest h k) refl

-- The database clause, between the keyword and the dot.
database_text : Str → Str
database_text d = if str_eq d (bytes "*") then bytes "*" else escape d

table_text : Str → Str
table_text t = if is_empty t then bytes "*" else escape t

database_clause_text : (d : Str) → database_clause d ≡ bytes " ON " ++ database_text d
unfolding database_clause database_text
database_clause_text d = elim (Bool-cases (str_eq d (bytes "*"))) [
  | inl e ↦ rw e refl
  | inr e ↦ rw e refl
]

table_clause_text : (t : Str) → table_clause t ≡ bytes "." ++ table_text t
unfolding table_clause table_text
table_clause_text t = elim (Bool-cases (is_empty t)) [ inl e ↦ rw e refl | inr e ↦ rw e refl ]

database_read :
    (d rest : Str)
    → IsBytes d
    → starts_with_backtick rest ≡ false
    → read_name (database_text d ++ rest) ≡ some (unless_wildcard d, rest)
unfolding database_text unless_wildcard
database_read d rest h k = elim (Bool-cases (str_eq d (bytes "*"))) [
  | inl e ↦ rw e (unfold read_name strip in refl)
  | inr e ↦ rw e (quoted_name_read d rest h k)
]

table_read :
    (t rest : Str)
    → IsBytes t
    → starts_with_backtick rest ≡ false
    → read_name (table_text t ++ rest) ≡ some (unless_empty t, rest)
unfolding table_text unless_empty
table_read t rest h k = elim (Bool-cases (is_empty t)) [
  | inl e ↦ rw e (unfold read_name strip in refl)
  | inr e ↦ rw e (quoted_name_read t rest h k)
]

-- The names of a grant are bytes.
unfoldable pub NamesAreBytes : PrivilegeGrant → Type 0
NamesAreBytes g =
    IsBytes g.column
    × IsBytes g.database
    × IsBytes g.table
    × IsBytes g.grantee.user
    × IsBytes g.grantee.role

-- What a statement on a grant says, with the text behind the grantee.
pub target_of : PrivilegeGrant → Str → Target
target_of g tail = record {
  column = unless_empty g.column;
  database = unless_wildcard g.database;
  table = unless_empty g.table;
  grantee = user_or_role g.grantee;
  tail = tail;
}

after_some {ℓ κ} :
    {A : Type ℓ} {B : Type κ} {o : Option A} {a : A} (f : A → Option B) {b : Option B}
    → o ≡ some a
    → f a ≡ b
    → (o >>= f) ≡ b
after_some f e q = ap (λ o. o >>= f) e ∙ q

target_read :
    (g : PrivilegeGrant) (preposition tail : Str)
    → NamesAreBytes g
    → starts_with_backtick tail ≡ false
    → ((s : Str) → starts_with_backtick (preposition ++ s) ≡ false)
    → read_target preposition (
        column_clause g.column
        ++ (database_clause g.database
            ++ (table_clause g.table
                ++ (preposition ++ (escape (user_or_role g.grantee) ++ tail)))))
      ≡ some (target_of g tail)
unfolding read_target target_of NamesAreBytes
target_read g preposition tail h k l =
    rw (database_clause_text, table_clause_text)
      (after_some _ (column_read g.column _ h.0) (
        after_some _ (strip-append (bytes " ON ") _) (
          after_some _ (database_read g.database _ h.1 refl) (
            after_some _ (strip-append (bytes ".") _) (
              after_some _ (table_read g.table _ h.2 (l _)) (
                after_some _ (strip-append preposition _) (
                  after_some _
                    (read_quoted-escape (user_or_role g.grantee) tail
                      (user_or_role-IsBytes g.grantee h.3 h.4) k)
                    refl)))))))

option_lem : (w : Bool) → starts_with_backtick (option_clause w) ≡ false
unfolding option_clause
option_lem false = refl
option_lem true = refl

-- A statement that creates or revokes a privilege grant, read with the privilege known, names the
-- column, the database, the table and the grantee of the grant, whatever bytes these hold, and ends
-- with the clause of the grant option or with nothing.
pub privilege_grant_readback :
    (g : PrivilegeGrant)
    → NamesAreBytes g
    → (read_privilege_grant
          (bytes "GRANT ")
          (bytes " TO ")
          g.privilege
          (create_privilege_grant_statement g)
        ≡ some (target_of g (option_clause g.with_grant)))
      × (read_privilege_grant
            (bytes "REVOKE ")
            (bytes " FROM ")
            g.privilege
            (revoke_privilege_grant_statement g)
          ≡ some (target_of g []))
unfolding read_privilege_grant create_privilege_grant_statement revoke_privilege_grant_statement
privilege_grant_readback g h = (
  after_some _ (strip-append (bytes "GRANT ") _) (
      after_some _ (strip-append g.privilege _)
        (target_read g (bytes " TO ") _ h (option_lem g.with_grant) (λ s. refl))),
  after_some _ (strip-append (bytes "REVOKE ") _) (
      after_some _ (strip-append g.privilege _) (
        rw (← append-nil (escape (user_or_role g.grantee)))
          (target_read g (bytes " FROM ") [] h refl (λ s. refl)))),
)
