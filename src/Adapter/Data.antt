-- ===== src/Adapter/Data.antt =====
-- resourcedata.go: `resourceData`, whose schema is the properties of an object. What `remarshal` and the modifiers
-- make of a request or a response is an argument here. The order of a map's keys is that of the association list.
use terraform_provider_aiven.Prelude.{
  ℕ, zero, suc, Bool, true, false, not, ◌&&◌, ◌||◌, Option, none, some, List, [], ◌∷◌, ◌++◌,
  if◌then◌else◌, length, get_elem?, Str, bytes, str_eq, str_mem, is_empty,
}
use terraform_provider_aiven.Common.{plain, Result, ok, err}
use terraform_provider_aiven.Converters.Values.{Out, gives, fails, panics, and_then}
use terraform_provider_aiven.ResourceId.{split_resource_id}
use terraform_provider_aiven.UserConfigDiff.{split_dots}
use terraform_provider_aiven.Adapter.Values.{
  Flags, Schema, primitive, list, set, dict, object, Properties, Value, text, items, fields, kept,
  Values, no_items, item, Fields, no_fields, field, lookup, schema_at, zero_value,
}
use terraform_provider_aiven.Adapter.Marshalling.{expected}
use terraform_provider_aiven.Adapter.Normalize.{Text, normalize}

pub record ResourceData : Type 0 where
  pub root : Flags
  pub schema : Properties
  pub plan : Option Fields
  pub state : Option Fields
  pub config : Option Fields
  pub id_fields : List Str
  pub is_data_source : Bool
  pub requires_replace : List Str

-- `m[k] = v` and `delete(m, k)`
unfoldable pub put : Str → Value → Fields → Fields
put k v no_fields = field k v no_fields
put k v (field j w m) = if str_eq k j then field j v m else field j w (put k v m)

unfoldable pub remove : Str → Fields → Fields
remove k no_fields = no_fields
remove k (field j w m) = if str_eq k j then remove k m else field j w (remove k m)

-- `maps.Copy`
unfoldable pub copy : Fields → Fields → Fields
unfolding put
copy m no_fields = m
copy m (field k v n) = put k v (copy m n)

-- A nil map is read as one without keys.
unfoldable pub or_empty : Option Fields → Fields
or_empty none = no_fields
or_empty (some m) = m

-- `currentState`
unfoldable pub first_map : Option Fields → Option Fields → Option Fields → Option Fields
first_map (some m) s c = some m
first_map none (some m) c = some m
first_map none none c = c

unfoldable pub current_state : ResourceData → Option Fields
unfolding first_map
current_state d = first_map d.plan d.state d.config

-- The data with another current state: that of the plan, of the state or of the configuration.
unfoldable pub with_plan : ResourceData → Fields → ResourceData
with_plan d m = record {
  root = d.root;
  schema = d.schema;
  plan = some m;
  state = d.state;
  config = d.config;
  id_fields = d.id_fields;
  is_data_source = d.is_data_source;
  requires_replace = d.requires_replace;
}

unfoldable pub with_state : ResourceData → Fields → ResourceData
with_state d m = record {
  root = d.root;
  schema = d.schema;
  plan = none;
  state = some m;
  config = d.config;
  id_fields = d.id_fields;
  is_data_source = d.is_data_source;
  requires_replace = d.requires_replace;
}

unfoldable pub with_config : ResourceData → Fields → ResourceData
with_config d m = record {
  root = d.root;
  schema = d.schema;
  plan = none;
  state = none;
  config = some m;
  id_fields = d.id_fields;
  is_data_source = d.is_data_source;
  requires_replace = d.requires_replace;
}

-- A write to a nil map panics.
unfoldable pub write :
    ResourceData → Option Fields → Option Fields → Option Fields → Fields → Out ResourceData
unfolding with_plan with_state with_config
write d (some p) s c m = gives (with_plan d m)
write d none (some s) c m = gives (with_state d m)
write d none none (some c) m = gives (with_config d m)
write d none none none m = panics

unfoldable pub with_current : ResourceData → Fields → Out ResourceData
unfolding write
with_current d m = write d d.plan d.state d.config m

-- `RequiresReplace`, which panics on an attribute that the schema does not have.
unfoldable pub requires_replace_one : Option Schema → Str → List Str → Out (List Str)
requires_replace_one none k l = panics
requires_replace_one (some s) k l = gives (if str_mem k l then l else l ++ k ∷ [])

unfoldable pub requires_replace_all : Properties → List Str → List Str → Out (List Str)
unfolding requires_replace_one
requires_replace_all p [] l = gives l
requires_replace_all p (k ∷ ks) l =
    and_then (requires_replace_one (schema_at k p) k l) (requires_replace_all p ks)

unfoldable pub is_kept : Value → Bool
is_kept (kept t) = true
is_kept v = false

unfoldable pub get_item : Values → ℕ → Option Value
get_item no_items n = none
get_item (item v l) zero = some v
get_item (item v l) (suc n) = get_item l n

-- A value, and whether it was found.
pub record Got : Type 0 where
  pub value : Value
  pub there : Bool

module _ (lib : Text) (atoi : Str → Option ℕ) where
  -- An element of a step of a path: a schema with its value, or the zero value where there is none.
  unfoldable pub step_to : Option Schema → Option Value → (Schema → Value → Out Got) → Out Got
  unfolding is_kept
  step_to none o f = expected (bytes "known property")
  step_to (some s) none f = gives (record { value = zero_value s; there = false })
  step_to (some s) (some v) f =
      if is_kept v then gives (record { value = zero_value s; there = false }) else f s v

  unfoldable pub step_in : (Fields → Out Got) → Value → Out Got
  step_in f (fields m) = f m
  step_in f v = expected (bytes "map")

  unfoldable pub step_item : Schema → Option ℕ → Value → (Schema → Value → Out Got) → Out Got
  unfolding get_item step_to
  step_item s none v f = fails (plain (bytes "invalid index"))
  step_item s (some n) (items l) f = elim (get_item l n) [
    | none ↦ fails (plain (bytes "index out of range"))
    | some v ↦ step_to (some s) (some v) f
  ]
  step_item s (some n) v f = expected (bytes "list")

  -- A step of `getOk`, whose rest is given.
  unfoldable pub step : Str → Schema → Value → (Schema → Value → Out Got) → Out Got
  unfolding step_item step_in step_to
  step k (primitive g p) v f =
      and_then (normalize lib false (primitive g p) false v) (f (primitive g p))
  step k (list g s) v f = step_item s (atoi k) v f
  step k (set g s) v f = fails (plain (bytes "set indexing is not supported"))
  step k (dict g s) v f = step_in (λ m. step_to (some s) (lookup k m) f) v
  step k (object g p) v f = step_in (λ m. step_to (schema_at k p) (lookup k m) f) v

  unfoldable pub walk : List Str → Schema → Value → Out Got
  unfolding step
  walk [] s v = gives (record { value = v; there = true })
  walk (k ∷ ks) s v = step k s v (walk ks)

  -- `getOk` on a map of the data; an error of it is a panic of the methods.
  unfoldable pub get_in : ResourceData → Option Fields → Str → Out Got
  unfolding walk or_empty
  get_in d m key =
      if is_empty key
      then fails (plain (bytes "key is empty"))
      else walk (split_dots key) (object d.root d.schema) (fields (or_empty m))

  unfoldable pub must {ℓ} : {A : Type ℓ} → Out A → Out A
  must (gives a) = gives a
  must (fails e) = panics
  must panics = panics

  -- `slices.Index`
  unfoldable pub index : Str → List Str → ℕ
  index k [] = 0
  index k (j ∷ l) = if str_eq k j then 0 else suc (index k l)

  unfoldable pub part_at : Option Str → Out Got
  part_at none = panics
  part_at (some s) = gives (record { value = text s; there = true })

  unfoldable pub part_of_id : List Str → Str → Result (List Str) → Out Got
  unfolding part_at index
  part_of_id l key (err e) = panics
  part_of_id l key (ok parts) = part_at (get_elem? parts (index key l))

  unfoldable pub id_text : Option Value → Str
  id_text (some (text s)) = s
  id_text o = []

  -- A component of the id is read from the id of the state where the state does not have it.
  unfoldable pub from_id : ResourceData → Fields → Str → Got → Out Got
  unfolding part_of_id id_text
  from_id d s key g =
      if str_mem key d.id_fields && not (is_empty (id_text (lookup (bytes "id") s)))
      then part_of_id d.id_fields key
          (split_resource_id (id_text (lookup (bytes "id") s)) (length d.id_fields))
      else gives g

  unfoldable pub is_some : Option Fields → Bool
  is_some none = false
  is_some (some m) = true

  unfoldable pub from_state : ResourceData → Option Fields → Str → Got → Out Got
  unfolding from_id is_some must get_in
  from_state d none key g = gives g
  from_state d (some s) key g =
      if is_some d.plan && not (str_eq key (bytes "id")) && not (str_mem key d.id_fields)
      then gives g
      else and_then (must (get_in d (some s) key))
          (λ h. if h.there then gives h else from_id d s key h)

  unfoldable pub from_config : ResourceData → Option Fields → Str → Got → Out Got
  unfolding from_state must get_in
  from_config d none key g = from_state d d.state key g
  from_config d (some c) key g =
      and_then (must (get_in d (some c) key))
        (λ h. if h.there then gives h else from_state d d.state key h)

  -- `GetOk`
  unfoldable pub get_ok : ResourceData → Str → Out Got
  unfolding from_config must get_in
  get_ok d key =
      and_then (must (get_in d d.plan key))
        (λ g. if g.there then gives g else from_config d d.config key g)

  -- `v.(string)`
  unfoldable pub as_text : Value → Out Str
  as_text (text s) = gives s
  as_text v = panics

  -- `ID`
  unfoldable pub id : ResourceData → Out Str
  unfolding as_text get_ok
  id d = and_then (get_ok d (bytes "id")) (λ g. as_text g.value)

  -- `HasChange`, given `cmp.Equal`.
  unfoldable pub has_change : (Value → Value → Bool) → ResourceData → Str → Out Bool
  unfolding must get_in is_some
  has_change equal d key =
      if not (is_some d.plan) && not (is_some d.state)
      then gives false
      else and_then (must (get_in d d.plan key)) (λ p. and_then (must (get_in d d.state key)) (λ s.
        gives (
          if p.there
          then not s.there || not (equal p.value s.value)
          else s.there || not (equal p.value s.value))))
