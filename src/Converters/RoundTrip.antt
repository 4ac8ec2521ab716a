-- ===== src/Converters/RoundTrip.antt =====
-- The round trip from the API to Terraform and back.
use terraform_provider_aiven.Prelude.{
  ℕ, suc, ◌≡◌, ◌≢◌, refl, ◌∙◌, inl, inr, arith, Bool, true, false, not, ◌&&◌, Bool-cases, none,
  some, ◌==◌, Str,
}
use terraform_provider_aiven.Converters.Values.{
  Value, items, set, Values, no_items, item, Fields, Kind, Schema, scalar, mapped, scalars, objects,
  Schemas, Config, written, listed, Configs, no_configs, config, Out, gives, fails, panics,
  and_then, lookup, force_new,
}
use terraform_provider_aiven.Converters.Flatten.{
  field_error, join_fields, add_field, some_object, add_object, flatten_attr,
}
use terraform_provider_aiven.Converters.Expand.{
  Resource, at_key, at_index, is_null, get_attr, list_items, set_elements, add_item, single_object,
  list_or_object, expand_objects, expand_scalar, expand_map, expand_set, expand_items, is_unsent,
  expand_attr, expand_obj,
}
use terraform_provider_aiven.Converters.Typed.{
  OfKind, AllOfKind, has_key, Fits, fits_scalar, fits_list, fits_set, fits_object, fits_objects,
  FitsFields, fits_end, fits_skip, fits_field, FitsItems, fits_none, fits_item, to_tf, to_fields,
  to_items, StoredItems, StoredObjects, IsAbsent, StoredField, Stored, StoredFields,
}
use terraform_provider_aiven.Converters.Flattened.{
  Agree, kind_non_nil, not_first, Agree-next, Agree-rest, Agree-refl, Agree-first, Agree-here,
  flatten_attr_lem,
}

module _ (res : Resource) where
  expand_scalar_lem :
      (k : Kind) (path : Str) (c : Config) (v : Value)
      → OfKind k v
      → c ≡ written
      → res.get path ≡ v
      → expand_scalar res path c ≡ some v
  unfolding expand_scalar is_null
  expand_scalar_lem k path c v h e g = rw (e, g) (kind_non_nil k v h)

  expand_items_lem :
      (k : Kind) (path : Str) (i : ℕ) (cs : Configs) (l : Values)
      → AllOfKind k l
      → StoredItems res path i cs l
      → expand_items res path i cs ≡ l
  unfolding AllOfKind StoredItems expand_items add_item
  expand_items_lem k path i no_configs no_items h g = refl
  expand_items_lem k path i (config j c cs) (item v l) h g =
      rw
        (
          expand_scalar_lem k (at_index path i) c v h.0 g.0 g.1,
          expand_items_lem k path (suc i) cs l h.1 g.2,
        )
        refl
  expand_items_lem k path i cs l h g = absurd g

  expand_list_lem :
      (k : Kind) (b b' : Bool) (path : Str) (c : Config) (v : Value) (l : Values)
      → AllOfKind k (item v l)
      → Stored res (scalars false (scalar k b) b') path c (items (item v l))
      → expand_attr res (scalars false (scalar k b) b') path c ≡ gives (some (items (item v l)))
  unfolding Stored StoredItems expand_attr is_unsent is_null list_items and_then
  expand_list_lem k b b' path (listed (config j c cs)) v l h g =
      rw (expand_items_lem k path 0 (config j c cs) (item v l) h g) refl
  expand_list_lem k b b' path c v l h g = absurd g

  expand_set_lem :
      (e : Schema) (b : Bool) (path : Str) (c : Config) (m : Values)
      → Stored res (scalars true e b) path c (set m)
      → expand_attr res (scalars true e b) path c ≡ gives (some (items m))
  unfolding Stored expand_attr is_unsent is_null expand_set set_elements
  expand_set_lem e b path (listed (config j c cs)) m h = rw h refl
  expand_set_lem e b path c m h = absurd h

  expand-absent :
      (s : Schema) (path : Str) (c : Config)
      → IsAbsent s c
      → res.has_change path ≡ false
      → expand_attr res s path c ≡ gives none
  unfolding IsAbsent expand_attr expand_scalar is_unsent expand_map is_null
  expand-absent (scalar k b) path c h n = rw h refl
  expand-absent (mapped b) path c h n = rw h refl
  expand-absent (scalars true e b) path c h n = rw (h, n) refl
  expand-absent (scalars false e b) path c h n = rw (h, n) refl
  expand-absent (objects true m r b) path c h n = rw (h, n) refl
  expand-absent (objects false m r b) path c h n = rw (h, n) refl

not_single : (m : ℕ) → m ≢ 1 → (m == 1) ≡ false
not_single m h = ground arith

module _ (new_set : Schema → Values → Values) where
  lookup-to_fields :
      {r : Schemas} {f : Fields} (k : Str) (p : FitsFields new_set r f)
      → has_key k r ≡ false
      → lookup k (to_fields new_set p) ≡ none
  unfolding lookup to_fields
  lookup-to_fields k fits_end h = refl
  lookup-to_fields k (fits_skip j s r f g p) h = lookup-to_fields k p (not_first k j s r h).1
  lookup-to_fields k (fits_field j s r v f g q p) h =
      rw (not_first k j s r h).0 (lookup-to_fields k p (not_first k j s r h).1)

  module _ (res : Resource) where
    absent_field :
        (k : Str) (s : Schema) (path : Str) (a : Out Config) (rest : Out Fields)
        → StoredField res s (Stored res s path) path a none
        → join_fields k (and_then a (expand_attr res s path)) rest ≡ rest
    unfolding StoredField join_fields field_error and_then add_field
    absent_field k s path a (gives f) (c, e, n, m) = rw (e, expand-absent res s path c n m) refl
    absent_field k s path a (fails x) (c, e, n, m) = rw (e, expand-absent res s path c n m) refl
    absent_field k s path a panics (c, e, n, m) = rw (e, expand-absent res s path c n m) refl

    mutual
      unfolding expand_attr expand_obj to_tf to_fields to_items Stored StoredFields StoredObjects
          StoredField is_unsent is_null list_items and_then expand_objects add_object some_object
          list_or_object single_object join_fields field_error add_field

      expand_attr_lem :
          {s : Schema} {v : Value} (p : Fits new_set s v) (path : Str) (c : Config)
          → Stored res s path c (to_tf new_set p)
          → expand_attr res s path c ≡ gives (some v)
      expand_attr_lem (fits_scalar k b v h) path c g =
          rw (expand_scalar_lem res k path c v h g.0 g.1) refl
      expand_attr_lem (fits_list k b b' v l h) path c g = expand_list_lem res k b b' path c v l h g
      expand_attr_lem (fits_set k b b' v l h e) path c g =
          expand_set_lem res (scalar k b) b' path c (item v l) g
      expand_attr_lem (fits_object r b k v f p) path (listed (config j c no_configs)) g =
          rw
            (expand_fields_lem p (at_index path 0) c (to_fields new_set p)
              (Agree-refl r (to_fields new_set p)) g.0)
            refl
      expand_attr_lem (fits_object r b k v f p) path (listed (config j c (config j' c' cs))) g =
          absurd g.1
      expand_attr_lem (fits_object r b k v f p) path c g = absurd g
      expand_attr_lem (fits_objects m r b v l h (fits_item _ k u f _ p q)) path
            (listed (config j c cs)) g =
          rw
            (
              expand_fields_lem p (at_index path 0) c (to_fields new_set p)
                  (Agree-refl r (to_fields new_set p)) g.0,
              expand_objects_lem q path 1 cs g.1,
              not_single m h,
            )
            refl
      expand_attr_lem (fits_objects m r b v l h (fits_item _ k u f _ p q)) path c g = absurd g

      expand_fields_lem :
          {r : Schemas} {f : Fields} (p : FitsFields new_set r f) (path : Str) (c : Config)
          (g : Fields)
          → Agree r g (to_fields new_set p)
          → StoredFields res r path c g
          → expand_obj res r path c ≡ gives f
      expand_fields_lem fits_end path c g a h = refl
      expand_fields_lem (fits_skip k s r f n p) path c g a h =
          let e : lookup k g ≡ none =
            Agree-here k s r g (to_fields new_set p) a ∙ lookup-to_fields k p n in
          let rest =
            expand_fields_lem p path c g (Agree-rest k s r g (to_fields new_set p) a) h.1 in
          elim (Bool-cases (force_new s && not res.is_new)) [
            | inl t ↦ rw t rest
            | inr t ↦ rw t (
                absent_field k s (at_key path k) (get_attr k c) (expand_obj res r path c)
                  (rw e at h.0)
                ∙ rest)
          ]
      expand_fields_lem (fits_field k s r v f n q p) path c g a h =
          let e : lookup k g ≡ some (to_tf new_set q) =
            Agree-first k s r (to_tf new_set q) g (to_fields new_set p) a in
          let (t, (c', x, y)) = (rw e at h.0) in
          rw
            (
              t,
              x,
              expand_attr_lem q (at_key path k) c' y,
              expand_fields_lem p path c g
                  (Agree-next k s r (to_tf new_set q) g (to_fields new_set p) n a) h.1,
            )
            refl

      expand_objects_lem :
          {r : Schemas} {l : Values} (p : FitsItems new_set r l) (path : Str) (i : ℕ) (cs : Configs)
          → StoredObjects res (StoredFields res r) path i cs (to_items new_set p)
          → expand_objects (expand_obj res r) path i cs ≡ gives l
      expand_objects_lem (fits_none r) path i no_configs h = refl
      expand_objects_lem (fits_item r k v f l p q) path i (config j c cs) h =
          rw
            (
              expand_fields_lem p (at_index path i) c (to_fields new_set p)
                  (Agree-refl r (to_fields new_set p)) h.0,
              expand_objects_lem q path (suc i) cs h.1,
            )
            refl
      expand_objects_lem p path i cs h = absurd h

    -- A value that fits the schema, as the API sends it, comes back as it was: `flattenAttr` makes
    -- the value of Terraform of it, and where the configuration and the resource store that value
    -- at a path, no absent field has changed and the fields that are there may be sent,
    -- `expandAttr` gives back the value of the API.
    pub expand-flatten :
        (s : Schema) (v : Value) (path : Str) (c : Config) (p : Fits new_set s v)
        → Stored res s path c (to_tf new_set p)
        → (flatten_attr new_set s v ≡ gives (to_tf new_set p))
          × (expand_attr res s path c ≡ gives (some v))
    expand-flatten s v path c p h = (flatten_attr_lem new_set p, expand_attr_lem p path c h)
