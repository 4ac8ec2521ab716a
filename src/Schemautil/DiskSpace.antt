-- ===== src/Schemautil/DiskSpace.antt =====
-- The disk space of a service: `CustomizeDiffCheckDiskSpace` and `CustomizeDiffAdditionalDiskSpace` of
-- custom_diff.go, the plan's parameters of helpers.go, and `getDiskSpaceFromStateOrDiff` of service.go.
-- Sizes are not negative. The package `units` is a parameter: how a size is read (`none` is an error,
-- which the source takes for zero megabytes) and how it is printed.
pub mod Sizes
mod Tests
use terraform_provider_aiven.Prelude.{
  ℕ, ◌+◌, ◌-◌, ◌*◌, ◌/◌, ◌%◌, Bool, true, false, not, ◌&&◌, ◌||◌, Option, none, some, List, [], ◌∷◌,
  ◌++◌, if◌then◌else◌, any, ltb, ◌==◌, Str, bytes, str_eq, is_empty,
}
use terraform_provider_aiven.Common.{Error, Result, ok, err, plain, wrap, ClientErrors}

-- `PlanParameters`
pub record PlanParameters : Type 0 where
  pub default_mb : ℕ
  pub step_mb : ℕ
  pub max_mb : ℕ

unfoldable pub plan_is_empty : PlanParameters → Bool
plan_is_empty p = p.default_mb == 0

abbrev pub empty_plan : PlanParameters
empty_plan = record { default_mb = 0; step_mb = 0; max_mb = 0 }

-- What the API says of a plan.
pub record PlanSpecs : Type 0 where
  pub disk_space_mb : ℕ
  pub disk_space_cap_mb : Option ℕ
  pub disk_space_step_mb : Option ℕ

abbrev pub from_ptr : Option ℕ → ℕ
from_ptr none = 0
from_ptr (some n) = n

-- What the rules read of a service: a size is there if the configuration has it.
pub record ServiceSize : Type 0 where
  pub service_type : Str
  pub plan : Str
  pub disk_space : Option Str
  pub additional_disk_space : Option Str

pub record Units : Type 0 where
  pub ram_in_bytes : Str → Option ℕ
  pub human : ℕ → Str

-- A mebibyte.
abbrev pub mib : ℕ
mib = 1_048_576

unfoldable pub convert_to_disk_space_mb : Units → Str → ℕ
convert_to_disk_space_mb units b = elim (units.ram_in_bytes b) [ none ↦ 0 | some n ↦ n / mib ]

unfoldable pub human_readable_mb : Units → ℕ → Str
human_readable_mb units s = units.human (s * mib)

abbrev pub not_configurable : Error
not_configurable = plain (bytes "dynamic disk space is not configurable for this service")

unfoldable pub too_small : Units → ℕ → ℕ → Error
too_small units r d = plain (
    bytes "requested disk size is too small: '"
    ++ (human_readable_mb units r ++ (bytes "' < '" ++ (human_readable_mb units d ++ bytes "'"))))

unfoldable pub too_large : Units → ℕ → ℕ → Error
too_large units r m = plain (
    bytes "requested disk size is too large: '"
    ++ (human_readable_mb units r ++ (bytes "' > '" ++ (human_readable_mb units m ++ bytes "'"))))

unfoldable pub off_step : Units → PlanParameters → ℕ → Error
off_step units p r = plain (
    bytes "requested disk size has to increase from: '"
    ++ (human_readable_mb units p.default_mb
        ++ (bytes "' in increments of '"
            ++ (human_readable_mb units p.step_mb
                ++ (bytes "'. Got: '" ++ (human_readable_mb units r ++ bytes "'"))))))

-- The last three tests: at least the default, at most the maximum, and a number of steps.
unfoldable pub size_error : Units → PlanParameters → ℕ → Option Error
size_error units p r =
    if ltb r p.default_mb
    then some (too_small units r p.default_mb)
    else if not (p.max_mb == 0) && ltb p.max_mb r
    then some (too_large units r p.max_mb)
    else if not (p.step_mb == 0) && not ((r - p.default_mb) % p.step_mb == 0)
    then some (off_step units p r)
    else none

-- From the answer on whether the pricing allows a dynamic size.
unfoldable pub after_pricing : Units → PlanParameters → ℕ → Result Bool → Option Error
after_pricing units p r (err e) =
    some (wrap (bytes "unable to check if dynamic disk space is allowed for this service") e)
after_pricing units p r (ok allowed) =
    if allowed then size_error units p r else some not_configurable

-- `dynamicDiskSpaceIsAllowedByPricing`, from the answer on: the price of more space, if there is one.
unfoldable pub pricing_answer : Result (Option Str) → Result Bool
pricing_answer (err e) = err (wrap (bytes "unable to get service plan pricing from api") e)
pricing_answer (ok none) = ok false
pricing_answer (ok (some price)) = ok (not (is_empty price))

-- A plan that is not found has no parameters.
unfoldable pub plan_answer : ClientErrors → Result PlanSpecs → Result PlanParameters
plan_answer lib (err e) = if lib.avngen_is_not_found e then ok empty_plan else err e
plan_answer lib (ok s) = ok (record {
  default_mb = s.disk_space_mb;
  step_mb = from_ptr s.disk_space_step_mb;
  max_mb = from_ptr s.disk_space_cap_mb;
})

abbrev pub unable_plan : Str
unable_plan = bytes "unable to get service plan parameters"

-- Without `disk_space` the size is the plan's, and `additional_disk_space` is added to it.
unfoldable pub size_of_plan : Units → ServiceSize → Result PlanParameters → Result ℕ
size_of_plan units d (err e) = err (wrap unable_plan e)
size_of_plan units d (ok p) = elim d.additional_disk_space [
  | none ↦ ok p.default_mb
  | some more ↦
      if plan_is_empty p
      then err (plain (bytes "additional disk space can't be used with plan " ++ d.plan))
      else ok (p.default_mb + convert_to_disk_space_mb units more)
]

module _ {ℓ} {W : Type ℓ} (units : Units) (plan_price : W → Result (Option Str) × W) where
  unfoldable pub check_requested : PlanParameters → ℕ → W → Option Error × W
  check_requested p r w =
      if p.default_mb == r
      then (size_error units p r, w)
      else if p.max_mb == 0 || p.step_mb == 0
      then (some not_configurable, w)
      else (let (a, w') = plan_price w in (after_pricing units p r (pricing_answer a), w'))

module _ {ℓ} {W : Type ℓ} (lib : ClientErrors) (units : Units)
    (plan_specs : W → Result PlanSpecs × W) where
  unfoldable pub get_plan_parameters : W → Result PlanParameters × W
  get_plan_parameters w = let (r, w') = plan_specs w in (plan_answer lib r, w')

  unfoldable pub get_disk_space : ServiceSize → W → Result ℕ × W
  get_disk_space d w = elim d.disk_space [
    | some b ↦ (ok (convert_to_disk_space_mb units b), w)
    | none ↦ let (r, w') = get_plan_parameters w in (size_of_plan units d r, w')
  ]

module _ {ℓ} {W : Type ℓ} (lib : ClientErrors) (units : Units)
    (plan_specs : W → Result PlanSpecs × W) (plan_price : W → Result (Option Str) × W) where
  unfoldable pub check_size : PlanParameters → Result ℕ × W → Option Error × W
  check_size p (err e, w) = (some e, w)
  check_size p (ok r, w) = if r == 0 then (none, w) else check_requested units plan_price p r w

  unfoldable pub check_plan : ServiceSize → Result PlanParameters × W → Option Error × W
  check_plan d (err e, w) = (some (wrap unable_plan e), w)
  check_plan d (ok p, w) =
      if plan_is_empty p then (none, w) else check_size p (get_disk_space lib units plan_specs d w)

  -- `CustomizeDiffCheckDiskSpace`
  unfoldable pub check_disk_space : ServiceSize → W → Option Error × W
  check_disk_space d w =
      if is_empty d.service_type
      then (some (plain (bytes "cannot check dynamic disk space because service_type is empty")), w)
      else check_plan d (get_plan_parameters lib units plan_specs w)

abbrev pub autoscaler_conflict : Error
autoscaler_conflict =
    plain (bytes "autoscaler integration is enabled, additional_disk_space cannot be set")

-- What `CustomizeDiffAdditionalDiskSpace` does with the change: it leaves it alone, refuses it, or
-- sets the computed field to "0B".
pub data Change : Type 0 where
  unchanged reset : Change
  refused : Error → Change

unfoldable pub is_set : Option Str → Bool
is_set none = false
is_set (some s) = true

-- From the answer on: the types of the service's integrations.
unfoldable pub additional_of_answer : ClientErrors → ServiceSize → Result (List Str) → Change
additional_of_answer lib d (err e) = if lib.avngen_is_not_found e then unchanged else refused e
additional_of_answer lib d (ok integrations) =
    let autoscaler = any (λ i. str_eq i (bytes "autoscaler")) integrations in
    if is_set d.additional_disk_space || is_set d.disk_space
    then (if autoscaler then refused autoscaler_conflict else unchanged)
    else if autoscaler
    then unchanged
    else reset
