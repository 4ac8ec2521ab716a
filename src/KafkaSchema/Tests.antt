-- ===== src/KafkaSchema/Tests.antt =====
-- The wait for a version at concrete inputs.
use terraform_provider_aiven.Prelude.{
  ℕ, zero, suc, ◌*◌, ◌≡◌, refl, arith, true, none, some, List, [], ◌∷◌, Str, bytes,
}
use terraform_provider_aiven.Common.{ok}
use terraform_provider_aiven.Converters.Values.{no_fields}
use terraform_provider_aiven.KafkaSchema.{SchemaVersion, Registry, get_schema_version}
use terraform_provider_aiven.KafkaSchema.Versions.{
  Passes, passes_end, passes_one, waits_end, waits_turn, get_schema_version_ends,
}

abbrev schema_of : ℕ → SchemaVersion
schema_of v = record { id = 10 * v; version = v; schema = []; references = [] }

-- The second version is listed from the second time on.
abbrev versions_at : ℕ → List ℕ
versions_at zero = 1 ∷ []
versions_at (suc w) = 1 ∷ 2 ∷ []

abbrev registry : Registry ℕ
registry = record {
  post_version = λ s t k r w. (ok 20, w);
  get_versions = λ s w. (ok (versions_at w), suc w);
  get_version = λ s v w. (ok (schema_of v), w);
  put_config = λ s c w. (none, w);
  get_config = λ s w. (ok [], w);
  delete_subject = λ s p w. (none, w);
  check = λ d w. (ok (record { is_compatible = true; messages = [] }), w);
  user_config = λ p s w. (ok no_fields, w);
  cancelled = λ w. none;
}

abbrev subject : Str × Str × Str
subject = (bytes "p", bytes "s", bytes "t")

first-Passes : (w : ℕ) → Passes registry subject 20 (1 ∷ []) w w
first-Passes w = passes_one 1 [] (schema_of 1) w w w refl refl (passes_end w)

get_schema_version_ends_example : get_schema_version registry 5 subject 20 0 ≡ (some (ok 2), 2)
get_schema_version_ends_example =
    get_schema_version_ends registry subject 20 1 5 2 (1 ∷ []) [] (schema_of 2) 0 1 2 2 2
      (omega arith) (waits_turn 0 (1 ∷ []) 0 1 1 1 refl refl (first-Passes 1) (waits_end 1)) refl
      refl (first-Passes 2) refl refl
