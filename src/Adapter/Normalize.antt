-- ===== src/Adapter/Normalize.antt =====
-- resourcedata.go: `dereference` and `normalizeAny`. `sprint` is `fmt.Sprint`, and the parsers are those of the
-- package strconv, which give a number as its text. The texts of some errors are shortened.
use terraform_provider_aiven.Prelude.{
  Bool, true, false, ◌&&◌, Option, none, some, if◌then◌else◌, Str, bytes, str_eq, is_empty, ◌++◌,
}
use terraform_provider_aiven.Common.{plain}
use terraform_provider_aiven.Converters.Values.{Out, gives, fails, and_then}
use terraform_provider_aiven.Adapter.Values.{
  Primitive, string, int, float, bool, Schema, primitive, list, set, dict, object, Properties,
  no_properties, property, Value, null, text, number, truth, items, fields, pointer, kept, Values,
  no_items, item, Fields, no_fields, field, zero_value,
}
use terraform_provider_aiven.Adapter.Marshalling.{expected}

-- One pointer is followed.
unfoldable pub dereference : Value → Out Value
dereference (pointer (pointer v)) = fails (plain (bytes "pointer to pointer not allowed"))
dereference (pointer v) = gives v
dereference v = gives v

-- A nil and what a plan preserves are the zero value of the schema.
unfoldable pub unless_nil : Value → (Value → Out Value) → Value → Out Value
unless_nil zero f null = gives zero
unless_nil zero f (kept t) = gives zero
unless_nil zero f v = f v

unfoldable pub is_string : Schema → Bool
is_string (primitive f string) = true
is_string s = false

-- What is not a list is, for an object that is written, a list of it.
unfoldable pub as_list : Bool → Value → Out Values
as_list wraps (items l) = gives l
as_list wraps v = if wraps then gives (item v no_items) else expected (bytes "set or list")

unfoldable pub normalize_items : (Value → Out Value) → Values → Out Values
normalize_items f no_items = gives no_items
normalize_items f (item v l) =
    and_then (f v) (λ u. and_then (normalize_items f l) (λ us. gives (item u us)))

-- An object is a list of at most one, of which a read returns the element.
unfoldable pub normalize_object : Bool → (Value → Out Value) → Values → Out Value
normalize_object set_flow f no_items = gives (items no_items)
normalize_object set_flow f (item v no_items) =
    and_then (f v) (λ u. gives (if set_flow then items (item u no_items) else u))
normalize_object set_flow f (item v (item w l)) = expected (bytes "at most one object")

unfoldable pub normalize_list : Bool → Bool → (Value → Out Value) → Value → Out Value
unfolding as_list normalize_items normalize_object
normalize_list is_object set_flow f v = and_then (as_list (is_object && set_flow) v) (λ l.
    if is_object
    then normalize_object set_flow f l
    else and_then (normalize_items f l) (λ us. gives (items us)))

unfoldable pub as_map : Value → Out Fields
as_map (fields m) = gives m
as_map v = expected (bytes "map")

-- An element of a map or an object: `none` is an unknown property that is ignored.
unfoldable pub add_field : Str → Out (Option Value) → Out Fields → Out Fields
add_field k r rest =
    and_then r (λ o. and_then rest (λ us. gives (elim o [ none ↦ us | some u ↦ field k u us ])))

unfoldable pub normalize_fields : (Str → Value → Out (Option Value)) → Fields → Out Fields
unfolding add_field
normalize_fields f no_fields = gives no_fields
normalize_fields f (field k v m) = add_field k (f k v) (normalize_fields f m)

unfoldable pub normalize_map : (Str → Value → Out (Option Value)) → Value → Out Value
unfolding as_map normalize_fields
normalize_map f v =
    and_then (as_map v) (λ m. and_then (normalize_fields f m) (λ us. gives (fields us)))

-- The functions of fmt and strconv.
pub record Text : Type 0 where
  pub sprint : Value → Str
  pub parse_int : Str → Option Str
  pub parse_float : Str → Option Str
  pub parse_bool : Str → Option Bool

unfoldable pub parsed {ℓ} : {A : Type ℓ} → Option A → (A → Value) → Str → Out Value
parsed none f s = fails (plain (bytes "failed to parse " ++ s))
parsed (some a) f s = gives (f a)

module _ (lib : Text) where
  -- A scalar; an empty string is nil where it is written. A number that the parser takes is a number: NaN,
  -- on which the source panics when it makes a value of it later, is not told apart.
  unfoldable pub normalize_primitive : Bool → Primitive → Value → Out Value
  unfolding parsed
  normalize_primitive set_flow string v =
      gives (if is_empty (lib.sprint v) && set_flow then null else text (lib.sprint v))
  normalize_primitive set_flow int v = parsed (lib.parse_int (lib.sprint v)) number (lib.sprint v)
  normalize_primitive set_flow float v =
      parsed (lib.parse_float (lib.sprint v)) number (lib.sprint v)
  normalize_primitive set_flow bool v = parsed (lib.parse_bool (lib.sprint v)) truth (lib.sprint v)

  module _ (ignore_unknown : Bool) where
    -- `normalizeAny`, and what it does with a property of an object.
    unfoldable mutual
      unfolding dereference unless_nil is_string normalize_list normalize_map normalize_primitive

      pub normalize : Schema → Bool → Value → Out Value
      normalize (primitive f p) set_flow v =
          and_then (dereference v)
            (unless_nil (zero_value (primitive f p)) (normalize_primitive set_flow p))
      normalize (list f s) set_flow v =
          and_then (dereference v) (
            unless_nil (items no_items)
              (normalize_list f.is_object set_flow (normalize s set_flow)))
      normalize (set f s) set_flow v =
          and_then (dereference v) (
            unless_nil (items no_items)
              (normalize_list f.is_object set_flow (normalize s set_flow)))
      normalize (dict f s) set_flow v = and_then (dereference v) (
          unless_nil (fields no_fields) (
            normalize_map (λ k u.
              and_then (normalize s (if is_string s then false else set_flow) u)
                (λ w. gives (some w)))))
      normalize (object f p) set_flow v =
          and_then (dereference v)
            (unless_nil (fields no_fields) (normalize_map (normalize_at p set_flow)))

      pub normalize_at : Properties → Bool → Str → Value → Out (Option Value)
      normalize_at no_properties set_flow k v =
          if ignore_unknown then gives none else fails (plain (bytes "unknown property " ++ k))
      normalize_at (property j s p) set_flow k v =
          if str_eq k j
          then and_then (normalize s set_flow v) (λ w. gives (some w))
          else normalize_at p set_flow k v
