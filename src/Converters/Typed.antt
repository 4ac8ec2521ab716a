-- ===== src/Converters/Typed.antt =====
-- The values of a schema, and what Terraform makes of them, for the proofs about the round trip.
use terraform_provider_aiven.Prelude.{
  ℕ, suc, ◌≡◌, ◌≢◌, Bool, true, false, not, ◌&&◌, ◌||◌, Option, none, some, Str, str_eq,
}
use terraform_provider_aiven.Converters.Values.{
  Value, text, truth, number, items, set, object, Values, no_items, item, Fields, no_fields, field,
  Kind, string_kind, bool_kind, number_kind, Schema, scalar, mapped, scalars, objects, Schemas,
  no_schemas, entry, Config, unset, written, listed, Configs, no_configs, config, Out, gives,
  lookup, force_new,
}
use terraform_provider_aiven.Converters.Expand.{Resource, at_key, at_index, get_attr, is_null}

unfoldable pub OfKind : Kind → Value → Type 0
OfKind string_kind (text s) = Unit
OfKind bool_kind (truth b) = Unit
OfKind number_kind (number s) = Unit
OfKind k v = ⊥

unfoldable pub AllOfKind : Kind → Values → Type 0
AllOfKind k no_items = Unit
AllOfKind k (item v l) = OfKind k v × AllOfKind k l

unfoldable pub has_key : Str → Schemas → Bool
has_key k no_schemas = false
has_key k (entry j s rest) = str_eq k j || has_key k rest

module _ (new_set : Schema → Values → Values) where
  -- A value of a schema without maps, as the API sends it: no list and no object is empty, no key of
  -- a schema stands twice, a set is in the order of the sets of Terraform, and an object that is
  -- alone is one where the schema allows a single item, and a list of objects where it does not.
  mutual
    pub data Fits : Schema → Value → Type 0 where
      fits_scalar : (k : Kind) (b : Bool) (v : Value) → OfKind k v → Fits (scalar k b) v
      fits_list :
          (k : Kind) (b b' : Bool) (v : Value) (l : Values)
          → AllOfKind k (item v l)
          → Fits (scalars false (scalar k b) b') (items (item v l))
      fits_set :
          (k : Kind) (b b' : Bool) (v : Value) (l : Values)
          → AllOfKind k (item v l)
          → new_set (scalar k b) (item v l) ≡ item v l
          → Fits (scalars true (scalar k b) b') (items (item v l))
      fits_object :
          (r : Schemas) (b : Bool) (k : Str) (v : Value) (f : Fields)
          → FitsFields r (field k v f)
          → Fits (objects false 1 r b) (object (field k v f))
      fits_objects :
          (m : ℕ) (r : Schemas) (b : Bool) (v : Value) (l : Values)
          → m ≢ 1
          → FitsItems r (item v l)
          → Fits (objects false m r b) (items (item v l))

    pub data FitsFields : Schemas → Fields → Type 0 where
      fits_end : FitsFields no_schemas no_fields
      fits_skip :
          (k : Str) (s : Schema) (r : Schemas) (f : Fields)
          → has_key k r ≡ false
          → FitsFields r f
          → FitsFields (entry k s r) f
      fits_field :
          (k : Str) (s : Schema) (r : Schemas) (v : Value) (f : Fields)
          → has_key k r ≡ false
          → Fits s v
          → FitsFields r f
          → FitsFields (entry k s r) (field k v f)

    pub data FitsItems : Schemas → Values → Type 0 where
      fits_none : (r : Schemas) → FitsItems r no_items
      fits_item :
          (r : Schemas) (k : Str) (v : Value) (f : Fields) (l : Values)
          → FitsFields r (field k v f)
          → FitsItems r l
          → FitsItems r (item (object (field k v f)) l)

  -- What Terraform makes of it: an object is a list of one object.
  unfoldable mutual
    pub to_tf : {s : Schema} {v : Value} → Fits s v → Value
    to_tf (fits_scalar k b v h) = v
    to_tf (fits_list k b b' v l h) = items (item v l)
    to_tf (fits_set k b b' v l h e) = set (item v l)
    to_tf (fits_object r b k v f p) = items (item (object (to_fields p)) no_items)
    to_tf (fits_objects m r b v l h p) = items (to_items p)

    pub to_fields : {r : Schemas} {f : Fields} → FitsFields r f → Fields
    to_fields fits_end = no_fields
    to_fields (fits_skip k s r f h p) = to_fields p
    to_fields (fits_field k s r v f h q p) = field k (to_tf q) (to_fields p)

    pub to_items : {r : Schemas} {l : Values} → FitsItems r l → Values
    to_items (fits_none r) = no_items
    to_items (fits_item r k v f l p q) = item (object (to_fields p)) (to_items q)

unfoldable pub IsAbsent : Schema → Config → Type 0
IsAbsent (mapped b) c = c ≡ unset
IsAbsent s c = is_null c ≡ true

-- What the configuration and the resource say of the value that Terraform keeps at a path.
module _ (res : Resource) where
  unfoldable pub StoredItems : Str → ℕ → Configs → Values → Type 0
  StoredItems path i no_configs no_items = Unit
  StoredItems path i (config k c l) (item v m) =
      (c ≡ written) × (res.get (at_index path i) ≡ v) × StoredItems path (suc i) l m
  StoredItems path i l m = ⊥

  unfoldable pub StoredObjects :
      (Str → Config → Fields → Type 0) → Str → ℕ → Configs → Values → Type 0
  StoredObjects P path i no_configs no_items = Unit
  StoredObjects P path i (config k c l) (item (object f) m) =
      P (at_index path i) c f × StoredObjects P path (suc i) l m
  StoredObjects P path i l m = ⊥

  -- A field that has no value is null and has not changed, and one that has a value may be sent.
  unfoldable pub StoredField :
      Schema → (Config → Value → Type 0) → Str → Out Config → Option Value → Type 0
  StoredField s P path a none =
      (c : Config) × (a ≡ gives c) × IsAbsent s c × (res.has_change path ≡ false)
  StoredField s P path a (some v) =
      ((force_new s && not res.is_new) ≡ false) × ((c : Config) × (a ≡ gives c) × P c v)

  unfoldable mutual
    pub Stored : Schema → Str → Config → Value → Type 0
    Stored (scalar k b) path c v = (c ≡ written) × (res.get path ≡ v)
    Stored (scalars false e b) path (listed l) (items m) = StoredItems path 0 l m
    Stored (scalars true e b) path (listed (config k c l)) (set m) = res.get path ≡ set m
    Stored (objects s m r b) path (listed l) (items t) = StoredObjects (StoredFields r) path 0 l t
    Stored s path c v = ⊥

    pub StoredFields : Schemas → Str → Config → Fields → Type 0
    StoredFields no_schemas path c f = Unit
    StoredFields (entry k s rest) path c f =
        StoredField s (Stored s (at_key path k)) (at_key path k) (get_attr k c) (lookup k f)
        × StoredFields rest path c f
