-- ===== src/Clickhouse/Statement/Reader.antt =====
-- A reader of the statements, independent of the code that writes them. A name may be empty here, which
-- the server refuses.
use terraform_provider_aiven.Prelude.{
  ◌≡◌, refl, Option, none, some, [], ◌∷◌, ◌++◌, arith, if◌then◌else◌, ◌==◌, Str, bytes, is_empty,
}
use terraform_provider_aiven.Clickhouse.Escape.Quoting.{read_quoted}

infixl 5 ◌>>=◌
abbrev pub ◌>>=◌ {ℓ κ} : {A : Type ℓ} {B : Type κ} → Option A → (A → Option B) → Option B
none >>= f = none
some a >>= f = f a

-- The text behind a keyword.
unfoldable pub strip : Str → Str → Option Str
strip [] s = some s
strip (c ∷ p) [] = none
strip (c ∷ p) (d ∷ s) = if c == d then strip p s else none

pub strip-append : (p s : Str) → strip p (p ++ s) ≡ some s
unfolding strip
strip-append [] s = refl
strip-append (c ∷ p) s = ground (arith, strip-append p s)

-- What a statement names behind the privilege: `none` is the wildcard or an absent column.
pub record Target : Type 0 where
  pub column : Option Str
  pub database : Option Str
  pub table : Option Str
  pub grantee : Str
  pub tail : Str

unfoldable pub read_column : Str → Option (Option Str × Str)
read_column s = elim (strip (bytes "(") s) [
  | none ↦ some (none, s)
  | some s' ↦ do (name, s'') ← read_quoted s'; r ← strip (bytes ")") s''; some (some name, r)
]

-- A wildcard or a quoted name.
unfoldable pub read_name : Str → Option (Option Str × Str)
read_name s = elim (strip (bytes "*") s) [
  | some r ↦ some (none, r)
  | none ↦ do (name, r) ← read_quoted s; some (some name, r)
]

unfoldable pub read_target : Str → Str → Option Target
read_target preposition s = do
  (column, s₁) ← read_column s
  s₂ ← strip (bytes " ON ") s₁
  (database, s₃) ← read_name s₂
  s₄ ← strip (bytes ".") s₃
  (table, s₅) ← read_name s₄
  s₆ ← strip preposition s₅
  (grantee, s₇) ← read_quoted s₆
  some
      (record { column = column; database = database; table = table; grantee = grantee; tail = s₇ })

-- `GRANT role TO grantee` and `REVOKE role FROM grantee`.
unfoldable pub read_role_grant : Str → Str → Str → Option (Str × Str)
read_role_grant verb preposition s = do
  s₁ ← strip verb s
  (role, s₂) ← read_quoted s₁
  s₃ ← strip preposition s₂
  (grantee, s₄) ← read_quoted s₃
  if is_empty s₄ then some (role, grantee) else none

-- A statement on a privilege that the caller names: a verb, the privilege and its target.
unfoldable pub read_privilege_grant : Str → Str → Str → Str → Option Target
read_privilege_grant verb preposition privilege s = do
  s₁ ← strip verb s
  s₂ ← strip privilege s₁
  read_target preposition s₂
