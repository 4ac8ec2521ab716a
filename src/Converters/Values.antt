-- ===== src/Converters/Values.antt =====
-- What the converters of internal/sdkprovider/userconfig/converters read and write. A value is Go's `any` as
-- JSON gives it, with the sets of the Terraform SDK; a number is its text in JSON. A schema is a
-- `schema.Schema` with what the converters read of it, and a configuration is a `cty.Value`.
use terraform_provider_aiven.Prelude.{
  ℕ, Bool, Option, none, some, if◌then◌else◌, Str, bytes, str_eq,
}
use terraform_provider_aiven.Common.{Error}

mutual
  pub data Value : Type 0 where
    null : Value
    text : Str → Value
    truth : Bool → Value
    number : Str → Value
    items : Values → Value
    set : Values → Value
    object : Fields → Value

  pub data Values : Type 0 where
    no_items : Values
    item : Value → Values → Values

  pub data Fields : Type 0 where
    no_fields : Fields
    field : Str → Value → Fields → Fields

-- The types of scalars: `TypeInt` and `TypeFloat` are numbers.
pub data Kind : Type 0 where
  string_kind bool_kind number_kind : Kind

-- A scalar, a map, a list or a set of what is no object, and one of objects with its most items (0 is no bound).
-- The first flag of a collection says whether it is a set, the last of each whether it is `ForceNew`.
mutual
  pub data Schema : Type 0 where
    scalar : Kind → (force_new : Bool) → Schema
    mapped : (force_new : Bool) → Schema
    scalars : (is_set : Bool) → Schema → (force_new : Bool) → Schema
    objects : (is_set : Bool) → (max_items : ℕ) → Schemas → (force_new : Bool) → Schema

  pub data Schemas : Type 0 where
    no_schemas : Schemas
    entry : Str → Schema → Schemas → Schemas

-- `unset` is a null, and `keyed` is a map or an object.
mutual
  pub data Config : Type 0 where
    unset written : Config
    listed : Configs → Config
    keyed : Configs → Config

  pub data Configs : Type 0 where
    no_configs : Configs
    config : Str → Config → Configs → Configs

-- A result, an error, or a panic.
pub data Out {ℓ} (A : Type ℓ) : Type ℓ where
  gives : A → Out A
  fails : Error → Out A
  panics : Out A

unfoldable pub and_then {ℓ} : {A B : Type ℓ} → Out A → (A → Out B) → Out B
and_then (gives a) f = f a
and_then (fails e) f = fails e
and_then panics f = panics

-- `v, ok := m[k]`
unfoldable pub lookup : Str → Fields → Option Value
lookup k no_fields = none
lookup k (field j v f) = if str_eq k j then some v else lookup k f

unfoldable pub lookup_config : Str → Configs → Option Config
lookup_config k no_configs = none
lookup_config k (config j c f) = if str_eq k j then some c else lookup_config k f

-- `m[k]`
unfoldable pub value_or_nil : Option Value → Value
value_or_nil none = null
value_or_nil (some v) = v

-- A nil is no value.
unfoldable pub non_nil : Value → Option Value
non_nil null = none
non_nil (text s) = some (text s)
non_nil (truth b) = some (truth b)
non_nil (number s) = some (number s)
non_nil (items l) = some (items l)
non_nil (set l) = some (set l)
non_nil (object f) = some (object f)

-- `fmt.Sprintf("%T", v)`
unfoldable pub type_name : Value → Str
type_name null = bytes "<nil>"
type_name (text s) = bytes "string"
type_name (truth b) = bytes "bool"
type_name (number s) = bytes "float64"
type_name (items l) = bytes "[]interface {}"
type_name (set l) = bytes "*schema.Set"
type_name (object f) = bytes "map[string]interface {}"

unfoldable pub force_new : Schema → Bool
force_new (scalar k b) = b
force_new (mapped b) = b
force_new (scalars s e b) = b
force_new (objects s m r b) = b
