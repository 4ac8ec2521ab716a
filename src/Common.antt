-- ===== src/Common.antt =====
-- internal/common/error.go, and Go's errors and results: a nil `error` is `none`, an error is one of
-- the two clients' API errors, a plain one, or one wrapped by `fmt.Errorf("...%w")`.
use terraform_provider_aiven.Prelude.{
  ℕ, ◌≡◌, ◌⊎◌, inl, inr, refl, Bool, false, ◌&&◌, ◌||◌, not, Option, none, some, ◌==◌,
  if◌then◌else◌, Str, bytes, contains,
}

pub data Error : Type 0 where
  avngen : ℕ → Str → Error
  aiven : ℕ → Str → Error
  plain : Str → Error
  wrap : Str → Error → Error

-- Go's `(T, error)`, of which one half is read.
pub data Result {ℓ} (A : Type ℓ) : Type ℓ where
  ok : A → Result A
  err : Error → Result A

pub Result-cases {ℓ} :
    {A : Type ℓ} (r : Result A) → ((a : A) × (r ≡ ok a)) ⊎ ((e : Error) × (r ≡ err e))
Result-cases (ok a) = inl (a, refl)
Result-cases (err e) = inr (e, refl)

-- `errors.As` to the message of the handwritten client's error.
abbrev pub as_aiven : Error → Option Str
as_aiven (aiven status message) = some message
as_aiven (wrap text e) = as_aiven e
as_aiven _ = none

-- `errors.As` to the message of the generated client's error.
abbrev pub as_avngen : Error → Option Str
as_avngen (avngen status message) = some message
as_avngen (wrap text e) = as_avngen e
as_avngen _ = none

-- The tests on errors that the two API clients export, with what their documentation says of an
-- error that is not wrapped. The tests of a nil error are false.
pub record ClientErrors : Type 0 where
  pub aiven_is_not_found : Error → Bool
  pub avngen_is_not_found : Error → Bool
  pub avngen_is_already_exists : Error → Bool
  pub not_found_avngen : (s : ℕ) (m : Str) → avngen_is_not_found (avngen s m) ≡ (s == 404)
  pub already_exists_avngen : (s : ℕ) (m : Str) → avngen_is_already_exists (avngen s m) ≡ (s == 409)
  pub not_found_aiven : (s : ℕ) (m : Str) → aiven_is_not_found (aiven s m) ≡ (s == 404)
  pub not_found_avngen_of_aiven : (s : ℕ) (m : Str) → avngen_is_not_found (aiven s m) ≡ false
  pub not_found_aiven_of_avngen : (s : ℕ) (m : Str) → aiven_is_not_found (avngen s m) ≡ false

-- `strings.Contains(msg, "Code: 511")` of the first API error in the chain.
unfoldable pub is_unknown_role : Error → Bool
is_unknown_role e = elim (as_aiven e) [
  | some message ↦ contains message (bytes "Code: 511")
  | none ↦ elim (as_avngen e) [ some message ↦ contains message (bytes "Code: 511") | none ↦ false ]
]

module _ (lib : ClientErrors) where
  unfoldable pub is_critical : Option Error → Bool
  is_critical none = false
  is_critical (some e) = not (lib.aiven_is_not_found e) && not (lib.avngen_is_not_found e)

  unfoldable pub is_not_found : Option Error → Bool
  is_not_found none = false
  is_not_found (some e) = lib.aiven_is_not_found e || lib.avngen_is_not_found e

  unfoldable pub omit_not_found : Option Error → Option Error
  unfolding is_not_found
  omit_not_found e = if is_not_found e then none else e

  unfoldable pub is_unknown_resource : Error → Bool
  unfolding is_not_found is_unknown_role
  is_unknown_resource e = is_not_found (some e) || is_unknown_role e

  unfoldable pub new_not_found : Str → Error
  new_not_found message = aiven 404 message
