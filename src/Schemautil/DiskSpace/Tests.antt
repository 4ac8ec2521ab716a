-- ===== src/Schemautil/DiskSpace/Tests.antt =====
-- The checks of disk space at concrete inputs.
use terraform_provider_aiven.Prelude.{ℕ, ◌≡◌, ◌↔◌, ◌⊎◌, Option, none, some, Str, bytes}
use terraform_provider_aiven.Common.{Result, ok}
use terraform_provider_aiven.Schemautil.DiskSpace.{PlanParameters, Units, check_requested}
use terraform_provider_aiven.Schemautil.DiskSpace.Sizes.{Fits, IsDynamic, check_requested_iff}

abbrev no_units : Units
no_units = record { ram_in_bytes = λ s. none; human = λ n. bytes "?" }

abbrev price : ℕ → Result (Option Str) × ℕ
price w = (ok (some (bytes "0.1")), w)

abbrev plan : PlanParameters
plan = record { default_mb = 100; step_mb = 10; max_mb = 200 }

check_requested_iff_example :
    ((check_requested no_units price plan 120 0).0 ≡ none)
    ↔ (Fits plan 120 × ((120 ≡ plan.default_mb) ⊎ IsDynamic plan (price 0).0))
check_requested_iff_example = check_requested_iff no_units price plan 120 0
