-- ===== src/KafkaSchema/Resource.antt =====
-- kafka_schema.go: the upsert, the read and the check of the diff.
use terraform_provider_aiven.Prelude.{
  ℕ, not, ◌||◌, Option, none, some, List, [], ◌∷◌, ◌++◌, if◌then◌else◌, ◌==◌, Str, bytes, str_eq,
  is_empty, join,
}
use terraform_provider_aiven.Common.{Error, Result, ok, err, plain, wrap, ClientErrors}
use terraform_provider_aiven.ResourceId.{build_resource_id, split_resource_id3}
use terraform_provider_aiven.Converters.Values.{Out, gives, fails, panics}
use terraform_provider_aiven.KafkaSchema.{
  SchemaData, Compatibility, Registry, next, next_ok, or_wrap, expand_references, subject_of,
  max_version, handle_not_found, registry_enabled, get_schema_version,
}

-- A call that gives nothing but an error.
unfoldable pub done_or : {A : Type 0} → Str → A → Option Error → Result A
done_or text a none = ok a
done_or text a (some e) = err (wrap text e)

-- The polls that end with a version or an error; that they are over is the end of the context.
unfoldable pub polled : Option (Result ℕ) → Result ℕ
polled none = err (plain (bytes "context deadline exceeded"))
polled (some r) = or_wrap (bytes "unable to get schema version") r

unfoldable pub level_answer : ClientErrors → SchemaData → Result Str → Out SchemaData
level_answer lib d (ok level) = gives (record d { compatibility_level = level })
level_answer lib d (err e) = if lib.avngen_is_not_found e then gives d else fails e

unfoldable pub messages_error : Compatibility → Option Error
messages_error r =
    if r.is_compatible
    then none
    else some (
        plain (
          bytes "schema is not compatible with previous version: " ++ join (bytes ", ") r.messages))

module _ {ℓ} {W : Type ℓ} (api : Registry W) (lib : ClientErrors) where
  -- The schema itself: its project, service and name are those of the id.
  unfoldable pub read_version : SchemaData → Str × Str × Str → ℕ → W → Out SchemaData × W
  read_version d subject version w =
      let (r, w') = api.get_version subject version w in
      elim r [
        | err e ↦ (handle_not_found lib e (record d { version = version }), w')
        | ok s ↦
            let (level, w'') = api.get_config subject w' in
            (
              level_answer lib
                  (record d {
                    schema = s.schema;
                    references = s.references;
                    version = version;
                    project = subject.0;
                    service_name = subject.1;
                    subject_name = subject.2;
                  })
                  level,
              w'',
            )
      ]

  -- From the versions on, where the resource has none: the latest is read.
  unfoldable pub read_latest :
      SchemaData → Str × Str × Str → Result (List ℕ) × W → Out SchemaData × W
  read_latest d subject (err e, w) = (handle_not_found lib e d, w)
  read_latest d subject (ok vs, w) = elim (max_version vs) [
    | gives v ↦ read_version d subject v w
    | fails e ↦ (fails e, w)
    | panics ↦ (panics, w)
  ]

  unfoldable pub read_parts :
      SchemaData → Option (Result (Str × Str × Str)) → W → Out SchemaData × W
  read_parts d none w = (panics, w)
  read_parts d (some (err e)) w = (fails e, w)
  read_parts d (some (ok subject)) w =
      next (registry_enabled api subject.0 subject.1 w) (λ enabled w'.
        if not enabled
        then (gives (record d { id = [] }), w')
        else if d.version == 0
        then read_latest d subject (api.get_versions subject w')
        else read_version d subject d.version w')

  -- `resourceKafkaSchemaRead`
  unfoldable pub schema_read : SchemaData → W → Out SchemaData × W
  schema_read d w = read_parts d (split_resource_id3 d.id) w

  -- A schema that has changed is posted, and its version is the one with the id of the answer.
  unfoldable pub post_schema : ℕ → SchemaData → W → Result SchemaData × W
  post_schema turns d w =
      if not (d.schema_changes || d.references_change)
      then (ok d, w)
      else (let (r, w') =
            api.post_version (subject_of d) d.schema d.schema_type (expand_references d.references)
              w in
          next_ok (or_wrap (bytes "unable to add schema") r, w')
            (λ id w''.
              let (v, w₃) = get_schema_version api turns (subject_of d) id w'' in
              next_ok (polled v, w₃) (λ version w₄. (ok (record d { version = version }), w₄))))

  -- A level that is set is sent, whether it has changed or not.
  unfoldable pub put_level : SchemaData → W → Result SchemaData × W
  put_level d w =
      if is_empty d.compatibility_level
      then (ok d, w)
      else (let (e, w') = api.put_config (subject_of d) d.compatibility_level w in
          (done_or (bytes "unable to update configuration") d e, w'))

  -- `resourceKafkaSchemaUpsert`
  unfoldable pub schema_upsert : ℕ → SchemaData → W → Out SchemaData × W
  schema_upsert turns d w = next (post_schema turns d w) (λ d₁ w₁. next (put_level d₁ w₁) (λ d₂ w₂.
      schema_read
        (record d₂ { id = build_resource_id (d.project ∷ d.service_name ∷ d.subject_name ∷ []) })
        w₂))

  unfoldable pub check_answer : SchemaData → Result Compatibility × W → Option Error × W
  check_answer d (ok r, w) = (messages_error r, w)
  check_answer d (err e, w) =
      let (r, w') = registry_enabled api d.project d.service_name w in
      elim r [
        | err x ↦ (some (wrap (bytes "unable to check schema registry status") x), w')
        | ok enabled ↦
            (if enabled then some (wrap (bytes "unable to check schema validity") e) else none, w')
      ]

  -- `resourceKafkaSchemaCustomizeDiff`; `parse` is the error of the parser of Avro.
  unfoldable pub check_schema : (Str → Option Error) → SchemaData → W → Option Error × W
  check_schema parse d w = elim (expand_references d.references) [
    | some l ↦ (none, w)
    | none ↦ elim (if str_eq d.schema_type (bytes "AVRO") then parse d.schema else none) [
      | some e ↦ (some (wrap (bytes "schema validation error") e), w)
      | none ↦ if d.version == 0 then (none, w) else check_answer d (api.check d w)
    ]
  ]
