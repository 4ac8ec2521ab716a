-- ===== src/Adapter/Open.antt =====
-- resourcedata.go: `NewResourceData` with its options, `GetConfigOk` and `GetState`; timeouts.go: which timeout an
-- operation has. `parse_duration` is `time.ParseDuration`.
use terraform_provider_aiven.Prelude.{
  ℕ, Bool, true, false, Option, none, some, List, [], ◌∷◌, ◌++◌, if◌then◌else◌, Str, bytes,
}
use terraform_provider_aiven.Common.{plain, wrap}
use terraform_provider_aiven.Converters.Values.{Out, gives, fails, panics, and_then}
use terraform_provider_aiven.Adapter.Values.{
  Flags, Schema, object, Properties, no_properties, TfValue, Value, Fields, schema_at,
}
use terraform_provider_aiven.Adapter.Marshalling.{decode}
use terraform_provider_aiven.Adapter.Normalize.{Text}
use terraform_provider_aiven.Adapter.Data.{ResourceData, Got, get_in, get_ok, must, as_text}

-- `WithPreservePlanValues`, `WithPlan`, `WithState`, `WithConfig` and `WithIsDataSource`
pub data DataOption : Type 0 where
  preserve_plan_values is_data_source : DataOption
  plan state config : TfValue → DataOption

-- The data that is built, with `preservePlanValues`.
pub record Building : Type 0 where
  pub data_now : ResourceData
  pub preserve : Bool

unfoldable pub decoded {ℓ} : {A : Type ℓ} → Str → Out A → Out A
decoded what (gives a) = gives a
decoded what (fails e) = fails (wrap (bytes "failed to decode " ++ what) e)
decoded what panics = panics

-- The data with other maps.
unfoldable pub with_maps : Building → Option Fields → Option Fields → Option Fields → Building
with_maps b p s c = record {
  data_now = record {
    root = b.data_now.root;
    schema = b.data_now.schema;
    plan = p;
    state = s;
    config = c;
    id_fields = b.data_now.id_fields;
    is_data_source = b.data_now.is_data_source;
    requires_replace = b.data_now.requires_replace;
  };
  preserve = b.preserve;
}

unfoldable pub as_data_source : ResourceData → ResourceData
as_data_source d = record {
  root = d.root;
  schema = d.schema;
  plan = d.plan;
  state = d.state;
  config = d.config;
  id_fields = d.id_fields;
  is_data_source = true;
  requires_replace = d.requires_replace;
}

module _ (to_int to_float : Str → Str) where
  unfoldable pub decode_map : Building → Str → Bool → TfValue → Out (Option Fields)
  unfolding decoded
  decode_map b what preserve t =
      decoded what (decode to_int to_float preserve (object b.data_now.root b.data_now.schema) t)

  unfoldable pub apply : DataOption → Building → Out Building
  unfolding decode_map with_maps as_data_source
  apply preserve_plan_values b = gives (record { data_now = b.data_now; preserve = true })
  apply is_data_source b =
      gives (record { data_now = as_data_source b.data_now; preserve = b.preserve })
  apply (plan t) b =
      and_then (decode_map b (bytes "plan") b.preserve t)
        (λ m. gives (with_maps b m b.data_now.state b.data_now.config))
  apply (state t) b =
      and_then (decode_map b (bytes "state") false t)
        (λ m. gives (with_maps b b.data_now.plan m b.data_now.config))
  apply (config t) b =
      and_then (decode_map b (bytes "config") false t)
        (λ m. gives (with_maps b b.data_now.plan b.data_now.state m))

  unfoldable pub apply_all : List DataOption → Building → Out ResourceData
  unfolding apply
  apply_all [] b = gives b.data_now
  apply_all (o ∷ l) b = and_then (apply o b) (apply_all l)

  -- `NewResourceData`
  unfoldable pub new_resource_data :
      Flags → Properties → List Str → List DataOption → Out ResourceData
  unfolding apply_all
  new_resource_data f p l opts = apply_all opts (record {
    data_now = record {
      root = f;
      schema = p;
      plan = none;
      state = none;
      config = none;
      id_fields = l;
      is_data_source = false;
      requires_replace = [];
    };
    preserve = false;
  })

module _ (lib : Text) (atoi : Str → Option ℕ) where
  -- `GetConfigOk`; `none` is its nil value.
  unfoldable pub get_config_ok : ResourceData → Str → Out (Option Got)
  unfolding must get_in
  get_config_ok d key = elim d.config [
    | none ↦ gives none
    | some c ↦ and_then (must lib atoi (get_in lib atoi d (some c) key)) (λ g. gives (some g))
  ]

  -- `GetState`, which panics without a state.
  unfoldable pub get_state : ResourceData → Str → Out Value
  unfolding must get_in
  get_state d key = elim d.state [
    | none ↦ panics
    | some s ↦ and_then (must lib atoi (get_in lib atoi d (some s) key)) (λ g. gives g.value)
  ]

  -- Whether the schema has a default timeout.
  unfoldable pub properties_of : Option Schema → Properties
  properties_of (some (object f p)) = p
  properties_of o = no_properties

  unfoldable pub has_schema : Option Schema → Bool
  has_schema none = false
  has_schema (some s) = true

  unfoldable pub has_default_timeout : ResourceData → Bool
  unfolding properties_of has_schema
  has_default_timeout d =
      has_schema
        (schema_at (bytes "default") (properties_of (schema_at (bytes "timeouts") d.schema)))

  module _ (parse_duration : Str → Option ℕ) (fallback : ℕ) where
    unfoldable pub parsed_timeout : Str → Got → Out ℕ
    unfolding as_text
    parsed_timeout key g = and_then (as_text lib atoi g.value) (λ s. elim (parse_duration s) [
      | some n ↦ gives n
      | none ↦ fails (plain (bytes "failed to parse timeout value for " ++ key))
    ])

    unfoldable pub default_timeout : ResourceData → Str → Out ℕ
    unfolding parsed_timeout
    default_timeout d key =
        and_then (get_ok lib atoi d (bytes "timeouts.default"))
          (λ g. if g.there then parsed_timeout key g else gives fallback)

    -- `getTimeoutValue`
    unfoldable pub get_timeout_value : ResourceData → Str → Out ℕ
    unfolding parsed_timeout default_timeout has_default_timeout
    get_timeout_value d key = and_then (get_ok lib atoi d (bytes "timeouts." ++ key)) (λ g.
        if g.there
        then parsed_timeout key g
        else if has_default_timeout d
        then default_timeout d key
        else gives fallback)
