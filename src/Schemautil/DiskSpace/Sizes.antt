-- ===== src/Schemautil/DiskSpace/Sizes.antt =====
-- About the sizes that `CustomizeDiffCheckDiskSpace` accepts (internal/schemautil/custom_diff.go).
use native.Mathlib.Nat.{zero-mod}
use terraform_provider_aiven.Prelude.{
  ℕ, ◌+◌, ◌-◌, ◌*◌, ◌/◌, ◌%◌, ◌≤◌, ◌<◌, ◌≡◌, ◌≢◌, ◌↔◌, ◌⊎◌, inl, inr, refl, sym, arith, Bool, true,
  false, ◌||◌, Bool-cases, Option, none, ◌==◌, ==_iff, Str,
}
use terraform_provider_aiven.Common.{Result, ok, err}
use terraform_provider_aiven.Schemautil.DiskSpace.{
  PlanParameters, Units, size_error, after_pricing, pricing_answer, check_requested,
}

-- The size is the default and a number of steps, and no more than the maximum, if there is one.
abbrev pub Fits : PlanParameters → ℕ → Type 0
Fits p r = ((p.max_mb ≡ 0) ⊎ (r ≤ p.max_mb)) × ((k : ℕ) × (r ≡ p.default_mb + k * p.step_mb))

steps_of_mod : (n s : ℕ) → n % s ≡ 0 → 0 < s → n ≡ n / s * s
steps_of_mod n s h p = grind arith

mod_of_steps : (k s : ℕ) → 0 < s → (k * s) % s ≡ 0
mod_of_steps k s p = grind arith

-- The three tests, one after the other.
abbrev Passes : PlanParameters → ℕ → Type 0
Passes p r =
    (p.default_mb ≤ r)
    × ((p.max_mb ≡ 0) ⊎ (r ≤ p.max_mb))
    × ((p.step_mb ≡ 0) ⊎ ((r - p.default_mb) % p.step_mb ≡ 0))

size_error_iff :
    (units : Units) (p : PlanParameters) (r : ℕ) → (size_error units p r ≡ none) ↔ Passes p r
unfolding size_error
size_error_iff units p r = (λ h. ground arith, λ h. ground arith)

mod_of_zero : (n s : ℕ) → n ≡ 0 → n % s ≡ 0
mod_of_zero n s e = rw e (zero-mod s)

steps_from :
    (p : PlanParameters) (r : ℕ)
    → 0 < p.step_mb
    → p.default_mb ≤ r
    → (p.step_mb ≡ 0) ⊎ ((r - p.default_mb) % p.step_mb ≡ 0)
    → r ≡ p.default_mb + (r - p.default_mb) / p.step_mb * p.step_mb
steps_from p r s d (inl z) = absurd (omega arith)
steps_from p r s d (inr m) =
    let e = steps_of_mod (r - p.default_mb) p.step_mb m s in omega (arith, e, d)

-- A size other than the default needs steps.
Passes-Fits :
    (p : PlanParameters) (r : ℕ) → (r ≡ p.default_mb) ⊎ (0 < p.step_mb) → Passes p r ↔ Fits p r
Passes-Fits p r (inl e) = (
  (λ h. (h.1, (0, omega arith))),
  (λ h. (omega arith, h.0, inr (mod_of_zero (r - p.default_mb) p.step_mb (omega arith)))),
)
Passes-Fits p r (inr s) = (
  (λ h. (h.1, ((r - p.default_mb) / p.step_mb, steps_from p r s h.0 h.2))),
  (λ h.
      let e : r - p.default_mb ≡ h.1.0 * p.step_mb = omega (arith, h.1.1) in
      (omega (arith, h.1.1), h.0, inr (rw e (mod_of_steps h.1.0 p.step_mb s)))),
)

after_pricing_iff :
    (units : Units) (p : PlanParameters) (r : ℕ) (a : Result Bool)
    → (after_pricing units p r a ≡ none) ↔ ((a ≡ ok true) × (size_error units p r ≡ none))
unfolding after_pricing
after_pricing_iff units p r (err e) = (λ h. cc, λ h. cc (h.0))
after_pricing_iff units p r (ok true) = (λ h. (refl, h), λ h. h.1)
after_pricing_iff units p r (ok false) = (λ h. cc, λ h. cc (h.0))

-- More space can be had: the plan has a maximum and a step, and the pricing allows it.
abbrev pub IsDynamic : PlanParameters → Result (Option Str) → Type 0
IsDynamic p price = (p.max_mb ≢ 0) × (p.step_mb ≢ 0) × (pricing_answer price ≡ ok true)

fixed_lem : (m s : ℕ) → ((m == 0) || (s == 0)) ≡ false → (m ≢ 0) × (s ≢ 0)
fixed_lem m s h = (λ e. ground arith, λ e. ground arith)

dynamic_lem : (m s : ℕ) → ((m == 0) || (s == 0)) ≡ true → m ≢ 0 → s ≢ 0 → ⊥
dynamic_lem m s h a b = ground (arith, a, b)

positive : {s : ℕ} → s ≢ 0 → 0 < s
positive {s} h = ground (arith, h)

other_size : (p : PlanParameters) (r : ℕ) → (p.default_mb == r) ≡ false → r ≢ p.default_mb
other_size p r e = λ q. ground arith

fixed_size :
    (p : PlanParameters) (r : ℕ) (price : Result (Option Str))
    → (p.default_mb == r) ≡ false
    → ((p.max_mb == 0) || (p.step_mb == 0)) ≡ true
    → (r ≡ p.default_mb) ⊎ IsDynamic p price
    → ⊥
fixed_size p r price e c (inl q) = other_size p r e q
fixed_size p r price e c (inr (m, s, t)) = dynamic_lem p.max_mb p.step_mb c m s

is_priced :
    (p : PlanParameters) (r : ℕ) (price : Result (Option Str))
    → (p.default_mb == r) ≡ false
    → (r ≡ p.default_mb) ⊎ IsDynamic p price
    → pricing_answer price ≡ ok true
is_priced p r price e (inl q) = absurd (other_size p r e q)
is_priced p r price e (inr (m, s, t)) = t

-- The size passes exactly if it is the plan's default and a number of the plan's steps, and no more
-- than the plan's maximum, where one is set; and, unless it is the default itself, if the plan has a
-- maximum and a step and the pricing allows more space.
pub check_requested_iff {ℓ} :
    {W : Type ℓ} (units : Units) (plan_price : W → Result (Option Str) × W) (p : PlanParameters)
    (r : ℕ) (w : W)
    → ((check_requested units plan_price p r w).0 ≡ none)
      ↔ (Fits p r × ((r ≡ p.default_mb) ⊎ IsDynamic p (plan_price w).0))
unfolding check_requested
check_requested_iff units plan_price p r w = elim (Bool-cases (p.default_mb == r)) [
  | inl e ↦
      let q : r ≡ p.default_mb = sym ((==_iff p.default_mb r).0 e) in
      let (f, g) = size_error_iff units p r in
      let (a, b) = Passes-Fits p r (inl q) in rw e (λ h. (a (f h), inl q), λ h. g (b h.0))
  | inr e ↦ elim (Bool-cases (p.max_mb == 0 || p.step_mb == 0)) [
    | inl c ↦ rw (e, c) (λ h. cc, λ h. absurd (fixed_size p r (plan_price w).0 e c h.1))
    | inr c ↦
        let (m, s) = fixed_lem p.max_mb p.step_mb c in
        let (f, g) = size_error_iff units p r in
        let (a, b) = Passes-Fits p r (inr (positive s)) in
        let (x, y) = after_pricing_iff units p r (pricing_answer (plan_price w).0) in
        rw (e, c)
          (
            (λ h. let (t, z) = x h in (a (f z), inr (m, s, t))),
            (λ h. y (is_priced p r (plan_price w).0 e h.1, g (b h.0))),
          )
  ]
]
