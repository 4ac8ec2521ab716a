-- ===== src/Adapter/Values.antt =====
-- What internal/plugin/adapter reads and writes: schema.go, Go's `any` as the adapter holds it, and the
-- values of the package tftypes. A number is its text. A schema of a collection has its items.
use terraform_provider_aiven.Prelude.{
  Bool, false, Option, none, some, [], ◌∷◌, if◌then◌else◌, Str, str_eq,
}

pub data Primitive : Type 0 where
  string int float bool : Primitive

-- The flags of a schema: `Computed`, `IsObject`, `IsAttribute` and `ZeroNotAllowed`.
pub record Flags : Type 0 where
  pub computed : Bool
  pub is_object : Bool
  pub is_attribute : Bool
  pub zero_not_allowed : Bool

mutual
  pub data Schema : Type 0 where
    primitive : Flags → Primitive → Schema
    list : Flags → Schema → Schema
    set : Flags → Schema → Schema
    dict : Flags → Schema → Schema
    object : Flags → Properties → Schema

  pub data Properties : Type 0 where
    no_properties : Properties
    property : Str → Schema → Properties → Properties

-- `tftypes.Type`
mutual
  pub data TfType : Type 0 where
    tf_string tf_number tf_bool : TfType
    tf_list tf_set tf_map : TfType → TfType
    tf_object : TfTypes → TfType

  pub data TfTypes : Type 0 where
    no_types : TfTypes
    typed : Str → TfType → TfTypes → TfTypes

-- `tftypes.Value`, which has its type.
mutual
  pub data TfValue : Type 0 where
    nil unknown : TfType → TfValue
    known_string known_number : Str → TfValue
    known_bool : Bool → TfValue
    known_list known_set : TfType → TfValues → TfValue
    known_map : TfType → TfFields → TfValue
    known_object : TfTypes → TfFields → TfValue

  pub data TfValues : Type 0 where
    no_values : TfValues
    value : TfValue → TfValues → TfValues

  pub data TfFields : Type 0 where
    no_entries : TfFields
    entry : Str → TfValue → TfFields → TfFields

-- A Go value; `kept` is a nil or an unknown of the plan.
mutual
  pub data Value : Type 0 where
    null : Value
    text : Str → Value
    number : Str → Value
    truth : Bool → Value
    items : Values → Value
    fields : Fields → Value
    pointer : Value → Value
    kept : TfValue → Value

  pub data Values : Type 0 where
    no_items : Values
    item : Value → Values → Values

  pub data Fields : Type 0 where
    no_fields : Fields
    field : Str → Value → Fields → Fields

unfoldable pub flags : Schema → Flags
flags (primitive f p) = f
flags (list f s) = f
flags (set f s) = f
flags (dict f s) = f
flags (object f p) = f

unfoldable mutual
  pub type_of : Schema → TfType
  type_of (primitive f string) = tf_string
  type_of (primitive f int) = tf_number
  type_of (primitive f float) = tf_number
  type_of (primitive f bool) = tf_bool
  type_of (list f s) = tf_list (type_of s)
  type_of (set f s) = tf_set (type_of s)
  type_of (dict f s) = tf_map (type_of s)
  type_of (object f p) = tf_object (types_of p)

  pub types_of : Properties → TfTypes
  types_of no_properties = no_types
  types_of (property k s p) = typed k (type_of s) (types_of p)

-- `v, ok := m[k]`
unfoldable pub lookup : Str → Fields → Option Value
lookup k no_fields = none
lookup k (field j v f) = if str_eq k j then some v else lookup k f

unfoldable pub schema_at : Str → Properties → Option Schema
schema_at k no_properties = none
schema_at k (property j s p) = if str_eq k j then some s else schema_at k p

-- `zeroValue`
unfoldable pub zero_value : Schema → Value
zero_value (primitive f string) = text []
zero_value (primitive f int) = number (48 ∷ [])
zero_value (primitive f float) = number (48 ∷ [])
zero_value (primitive f bool) = truth false
zero_value (list f s) = items no_items
zero_value (set f s) = items no_items
zero_value (dict f s) = fields no_fields
zero_value (object f p) = fields no_fields
