-- ===== src/KafkaSchema.antt =====
-- internal/sdkprovider/service/kafkaschema/kafka_schema.go, from line 167, with `isSchemaRegistryEnabled` of
-- kafka_schema_configuration.go. The API, the parser of Avro and the context of the call are parameters.
pub mod Versions
pub mod Resource
mod Tests
use terraform_provider_aiven.Prelude.{
  ℕ, zero, suc, Bool, true, false, not, ◌&&◌, Option, none, some, List, [], ◌∷◌, ◌++◌,
  if◌then◌else◌, leb, ◌==◌, Str, bytes, str_eq, is_empty, join,
}
use terraform_provider_aiven.Common.{
  Error, Result, ok, err, plain, wrap, ClientErrors, is_critical, is_unknown_resource,
}
use terraform_provider_aiven.ResourceId.{build_resource_id, split_resource_id3}
use terraform_provider_aiven.Converters.Values.{
  Value, truth, Fields, lookup, Out, gives, fails, panics,
}

pub record Reference : Type 0 where
  pub name : Str
  pub subject : Str
  pub version : ℕ

-- A version of a schema, as the API gives it.
pub record SchemaVersion : Type 0 where
  pub id : ℕ
  pub version : ℕ
  pub schema : Str
  pub references : List Reference

-- The resource; a version of zero is none.
pub record SchemaData : Type 0 where
  pub id : Str
  pub is_new : Bool
  pub project : Str
  pub service_name : Str
  pub subject_name : Str
  pub schema : Str
  pub schema_type : Str
  pub references : List Reference
  pub version : ℕ
  pub compatibility_level : Str
  pub schema_changes : Bool
  pub references_change : Bool

-- Whether a schema is compatible, and the messages if it is not.
pub record Compatibility : Type 0 where
  pub is_compatible : Bool
  pub messages : List Str

-- The calls of the API; a subject is a project, a service and a name. `cancelled` is the error of the context.
pub record Registry {ℓ} (W : Type ℓ) : Type ℓ where
  pub post_version : Str × Str × Str → Str → Str → Option (List Reference) → W → Result ℕ × W
  pub get_versions : Str × Str × Str → W → Result (List ℕ) × W
  pub get_version : Str × Str × Str → ℕ → W → Result SchemaVersion × W
  pub put_config : Str × Str × Str → Str → W → Option Error × W
  pub get_config : Str × Str × Str → W → Result Str × W
  pub delete_subject : Str × Str × Str → (permanent : Bool) → W → Option Error × W
  pub check : SchemaData → W → Result Compatibility × W
  pub user_config : Str → Str → W → Result Fields × W
  pub cancelled : W → Option Error

unfoldable pub next {ℓ} :
    {W : Type ℓ} {A B : Type 0} → Result A × W → (A → W → Out B × W) → Out B × W
next (ok a, w) f = f a w
next (err e, w) f = (fails e, w)

unfoldable pub next_ok {ℓ} :
    {W : Type ℓ} {A B : Type 0} → Result A × W → (A → W → Result B × W) → Result B × W
next_ok (ok a, w) f = f a w
next_ok (err e, w) f = (err e, w)

unfoldable pub or_wrap : {A : Type 0} → Str → Result A → Result A
or_wrap text (ok a) = ok a
or_wrap text (err e) = err (wrap text e)

-- `expandKafkaSchemaReferences`: no references are a nil.
unfoldable pub expand_references : List Reference → Option (List Reference)
expand_references [] = none
expand_references (r ∷ l) = some (r ∷ l)

unfoldable pub subject_of : SchemaData → Str × Str × Str
subject_of d = (d.project, d.service_name, d.subject_name)

unfoldable pub registry_flag : Option Value → Bool
registry_flag (some (truth b)) = b
registry_flag v = false

-- `slices.Max`, which panics on an empty list.
unfoldable pub max_version : List ℕ → Out ℕ
max_version [] = panics
max_version (v ∷ []) = gives v
max_version (v ∷ w ∷ l) = elim (max_version (w ∷ l)) [
  | gives m ↦ gives (if leb v m then m else v)
  | fails e ↦ fails e
  | panics ↦ panics
]

unfoldable pub handle_not_found : ClientErrors → Error → SchemaData → Out SchemaData
handle_not_found lib e d =
    if is_unknown_resource lib e && not d.is_new then gives (record d { id = [] }) else fails e

module _ {ℓ} {W : Type ℓ} (api : Registry W) where
  -- `isSchemaRegistryEnabled`
  unfoldable pub registry_enabled : Str → Str → W → Result Bool × W
  registry_enabled project service w =
      next_ok (api.user_config project service w)
        (λ c w'. (ok (registry_flag (lookup (bytes "schema_registry") c)), w'))

  -- The version with the id among those of a list; `none` is not found.
  unfoldable pub find_version : Str × Str × Str → ℕ → List ℕ → W → Result (Option ℕ) × W
  find_version subject id [] w = (ok none, w)
  find_version subject id (v ∷ vs) w = next_ok (api.get_version subject v w) (λ s w'.
      elim (s.id == id) [
        | true ↦ (ok (some s.version), w')
        | false ↦ find_version subject id vs w'
      ])

  -- A turn of the loop, which the context may end.
  unfoldable pub poll_version : Str × Str × Str → ℕ → W → Result (Option ℕ) × W
  poll_version subject id w = elim (api.cancelled w) [
    | some e ↦ (err e, w)
    | none ↦ next_ok (api.get_versions subject w) (λ vs w'. find_version subject id vs w')
  ]

  -- What follows a turn, given how the loop goes on.
  unfoldable pub after_turn :
      (W → Option (Result ℕ) × W) → Result (Option ℕ) × W → Option (Result ℕ) × W
  after_turn go_on (err e, w) = (some (err e), w)
  after_turn go_on (ok (some v), w) = (some (ok v), w)
  after_turn go_on (ok none, w) = go_on w

  -- `getSchemaVersion` for some turns; `none` is that they are over.
  unfoldable pub get_schema_version : ℕ → Str × Str × Str → ℕ → W → Option (Result ℕ) × W
  get_schema_version zero subject id w = (none, w)
  get_schema_version (suc n) subject id w =
      after_turn (get_schema_version n subject id) (poll_version subject id w)

  -- Whether some version has references: one that is gone has none.
  unfoldable pub some_references : ClientErrors → Str × Str × Str → List ℕ → W → Result Bool × W
  some_references lib subject [] w = (ok false, w)
  some_references lib subject (v ∷ vs) w =
      let (r, w') = api.get_version subject v w in
      elim r [
        | err e ↦
            if lib.avngen_is_not_found e then some_references lib subject vs w' else (err e, w')
        | ok s ↦ elim s.references [
          | [] ↦ some_references lib subject vs w'
          | x ∷ l ↦ (ok true, w')
        ]
      ]

  -- `kafkaSchemaHasAnyVersionReferences`
  unfoldable pub has_references : ClientErrors → Str × Str × Str → W → Result Bool × W
  has_references lib subject w =
      let (r, w') = api.get_versions subject w in
      elim r [
        | err e ↦ if lib.avngen_is_not_found e then (ok false, w') else (err e, w')
        | ok vs ↦ some_references lib subject vs w'
      ]

  unfoldable pub delete_once : ClientErrors → Str × Str × Str → Bool → W → Option Error × W
  delete_once lib subject permanent w =
      let (e, w') = api.delete_subject subject permanent w in
      (if is_critical lib e then e else none, w')

  -- The soft deletion, and the permanent one if some version has references.
  unfoldable pub delete_twice : ClientErrors → Str × Str × Str → Bool → W → Option Error × W
  delete_twice lib subject references w =
      let (e, w') = delete_once lib subject false w in
      elim e [
        | some x ↦ (some x, w')
        | none ↦ if references then delete_once lib subject true w' else (none, w')
      ]

  unfoldable pub delete_enabled :
      ClientErrors → Str × Str × Str → Result Bool × W → Option Error × W
  delete_enabled lib subject (err e, w) = (some e, w)
  delete_enabled lib subject (ok false, w) = (none, w)
  delete_enabled lib subject (ok true, w) =
      let (r, w') = has_references lib subject w in
      elim r [ err e ↦ (some e, w') | ok references ↦ delete_twice lib subject references w' ]

  unfoldable pub delete_parts :
      ClientErrors → Option (Result (Str × Str × Str)) → W → Option (Option Error) × W
  delete_parts lib none w = (none, w)
  delete_parts lib (some (err e)) w = (some (some e), w)
  delete_parts lib (some (ok subject)) w =
      let (e, w') = delete_enabled lib subject (registry_enabled subject.0 subject.1 w) in
      (some e, w')

  -- `resourceKafkaSchemaDelete`; `none` is an index out of range.
  unfoldable pub schema_delete : ClientErrors → SchemaData → W → Option (Option Error) × W
  schema_delete lib d w = delete_parts lib (split_resource_id3 d.id) w
