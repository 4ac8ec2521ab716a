-- ===== src/Clickhouse/Sql/Reads.antt =====
-- About the filters of `ReadRoleGrants` and `ReadPrivilegeGrants` (grant.go).
use terraform_provider_aiven.Prelude.{
  ◌≡◌, ◌≢◌, ◌↔◌, refl, inl, inr, Bool, true, not, ◌&&◌, List, [], ◌∷◌, keep, All, Str, is_empty,
  str_eq, str_eq_iff, Bool-cases, and_split, str_eq_refl,
}
use terraform_provider_aiven.Clickhouse.Statement.{Grantee, PrivilegeGrant, equals}
use terraform_provider_aiven.Clickhouse.Sql.{is_named_collection_privilege, privilege_grants_of}

keep-All {ℓ κ} :
    {A : Type ℓ} (P : A → Type κ) (p : A → Bool) (xs : List A)
    → All P (keep p xs) ↔ All (λ x. p x ≡ true → P x) xs
keep-All P p [] = (λ h. h, λ h. h)
keep-All P p (x ∷ xs) =
    let (f, g) = keep-All P p xs in
    elim (Bool-cases (p x)) [
      | inl e ↦ rw e (λ h. (λ _. h.0, f h.1), λ h. (h.0 refl, g h.1))
      | inr e ↦ rw e (λ h. (λ q. cc, f h), λ h. g h.1)
    ]

-- The database is set: the grant is not on a named collection.
pub IsTracked : Grantee → PrivilegeGrant → Type 0
IsTracked grantee g = (g.grantee ≡ grantee) × (g.database ≢ [])

All-mono {ℓ κ} :
    {A : Type ℓ} (P Q : A → Type κ) → ((x : A) → P x → Q x) → (xs : List A) → All P xs → All Q xs
All-mono P Q f [] h = h
All-mono P Q f (x ∷ xs) h = (f x h.0, All-mono P Q f xs h.1)

grantee_ext : (g h : Grantee) → g.user ≡ h.user → g.role ≡ h.role → g ≡ h
grantee_ext g h u r = cc (u, r)

equals_iff : (g h : Grantee) → (equals g h ≡ true) ↔ (g ≡ h)
unfolding equals
equals_iff g h = (
  (λ e.
      let (u, r) = and_split (str_eq g.user h.user) (str_eq g.role h.role) e in
      grantee_ext g h ((str_eq_iff g.user h.user).0 u) ((str_eq_iff g.role h.role).0 r)),
  λ e. rw e (rw (str_eq_refl h.user, str_eq_refl h.role) refl),
)

empty_iff : (s : Str) → (is_empty s ≡ true) ↔ (s ≡ [])
empty_iff [] = (λ e. refl, λ e. refl)
empty_iff (c ∷ s) = (λ e. cc, λ e. cc)

nonempty : (s : Str) → not (is_empty s) ≡ true → s ≢ []
nonempty [] h = cc
nonempty (c ∷ s) h = λ e. cc

is_set : (s : Str) → s ≢ [] → not (is_empty s) ≡ true
is_set [] h = absurd (h refl)
is_set (c ∷ s) h = refl

IsTracked-iff :
    (grantee : Grantee) (g : PrivilegeGrant)
    → ((equals g.grantee grantee && not (is_empty g.database)) ≡ true) ↔ IsTracked grantee g
unfolding IsTracked
IsTracked-iff grantee g =
    let (e, f) = equals_iff g.grantee grantee in
    let (i, j) = empty_iff g.database in
    (
      (λ h.
          let (a, b) = and_split (equals g.grantee grantee) (not (is_empty g.database)) h in
          (e a, λ n. nonempty g.database b n)),
      λ h. rw (f h.0) (is_set g.database h.1),
    )

-- Every property of grants holds of the grants that are read for a grantee exactly if it holds of
-- each grant in the table that has this very grantee, user and role, and a database: no such grant
-- is lost, and no other is taken.
pub reads_of_grantee :
    (P : PrivilegeGrant → Type 0) (grantee : Grantee) (grants : List PrivilegeGrant)
    → All P (privilege_grants_of grantee grants) ↔ All (λ g. IsTracked grantee g → P g) grants
unfolding privilege_grants_of is_named_collection_privilege IsTracked
reads_of_grantee P grantee grants =
    let p : PrivilegeGrant → Bool = λ g. equals g.grantee grantee && not (is_empty g.database) in
    let (f, h) = keep-All P p grants in
    (
      (λ a.
          All-mono (λ g. p g ≡ true → P g) (λ g. IsTracked grantee g → P g)
            (λ g k t. k ((IsTracked-iff grantee g).1 t)) grants (f a)),
      (λ a. h (
          All-mono (λ g. IsTracked grantee g → P g) (λ g. p g ≡ true → P g)
            (λ g k t. k ((IsTracked-iff grantee g).0 t)) grants a)),
    )
