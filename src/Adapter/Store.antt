-- ===== src/Adapter/Store.antt =====
-- resourcedata.go: `Set`, `SetID`, `Expand` and `Flatten` with what it prunes, and `tfValue`.
use terraform_provider_aiven.Prelude.{
  Bool, true, false, not, ◌&&◌, ◌||◌, Option, none, some, List, [], ◌∷◌, ◌++◌, if◌then◌else◌, Str,
  bytes, is_empty, join, ℕ,
}
use terraform_provider_aiven.Common.{plain}
use terraform_provider_aiven.Converters.Values.{Out, gives, fails, panics, and_then}
use terraform_provider_aiven.Adapter.Values.{
  Flags, string, Schema, primitive, list, set, dict, object, Properties, no_properties, property,
  TfValue, Value, null, text, items, fields, no_items, Fields, no_fields, field, flags, lookup,
  schema_at, zero_value,
}
use terraform_provider_aiven.Adapter.Marshalling.{to_tf}
use terraform_provider_aiven.Adapter.Normalize.{Text, normalize, as_map}
use terraform_provider_aiven.Adapter.Data.{
  ResourceData, put, remove, copy, or_empty, current_state, with_current, as_text, get_ok,
}

-- `isMapValueUnsetOrEmpty`
unfoldable pub is_unset_or_empty : Option Value → Bool
is_unset_or_empty none = true
is_unset_or_empty (some null) = true
is_unset_or_empty (some (text s)) = is_empty s
is_unset_or_empty (some (items no_items)) = true
is_unset_or_empty (some (fields no_fields)) = true
is_unset_or_empty (some v) = false

unfoldable pub has_key : Option Value → Bool
has_key none = false
has_key (some v) = true

-- The state and what the API reported.
pub record Maps : Type 0 where
  pub state : Fields
  pub norm : Fields

unfoldable pub without_state : Str → Maps → Maps
without_state k m = record { state = remove k m.state; norm = m.norm }

unfoldable pub without_norm : Str → Maps → Maps
without_norm k m = record { state = m.state; norm = remove k m.norm }

unfoldable pub without_both : Str → Maps → Maps
without_both k m = record { state = remove k m.state; norm = remove k m.norm }

-- A computed block or attribute of `pruneResourceComputedObjectBlocks`.
unfoldable pub prune_block : Option Fields → Str → Flags → Maps → Maps
unfolding without_state without_norm without_both is_unset_or_empty has_key
prune_block config k f m =
    if not f.is_object || not f.computed
    then m
    else if f.is_attribute
    then if has_key (lookup k m.norm) then m else without_state k m
    else if is_unset_or_empty (lookup k m.norm)
    then without_both k m
    else elim config [
      | some c ↦ if is_unset_or_empty (lookup k c) then without_both k m else m
      | none ↦ if is_unset_or_empty (lookup k m.state) then without_norm k m else m
    ]

unfoldable pub prune_blocks : Option Fields → Properties → Maps → Maps
unfolding prune_block
prune_blocks config no_properties m = m
prune_blocks config (property k s p) m = prune_blocks config p (prune_block config k (flags s) m)

unfoldable pub is_collection : Schema → Bool
is_collection (primitive f p) = false
is_collection (list f s) = true
is_collection (set f s) = true
is_collection (dict f s) = true
is_collection (object f p) = false

-- A property of `pruneUnsetEmptyCollections`.
unfoldable pub prune_empty : Option Fields → Str → Schema → Maps → Maps
unfolding is_collection without_norm is_unset_or_empty has_key or_empty
prune_empty config k s m =
    if not (is_collection s)
    then m
    else if (flags s).computed && (flags s).is_attribute
    then m
    else if not (is_unset_or_empty (lookup k m.norm))
    then m
    else if not (has_key (lookup k m.state)) && not (has_key (lookup k (or_empty config)))
    then without_norm k m
    else m

unfoldable pub prune_empties : Option Fields → Properties → Maps → Maps
unfolding prune_empty
prune_empties config no_properties m = m
prune_empties config (property k s p) m = prune_empties config p (prune_empty config k s m)

-- A removed string, list or set is sent as its zero value.
unfoldable pub sends_zero : Schema → Bool
sends_zero (primitive f string) = true
sends_zero (list f s) = true
sends_zero (set f s) = true
sends_zero s = false

unfoldable pub zero_removed : Option Schema → Str → Fields → Fields
unfolding sends_zero has_key
zero_removed none k norm = norm
zero_removed (some s) k norm =
    if (flags s).computed
    then norm
    else if not (has_key (lookup k norm)) && not (flags s).zero_not_allowed && sends_zero s
    then put k (zero_value s) norm
    else norm

unfoldable pub zero_all : Properties → Fields → Fields → Fields
unfolding zero_removed
zero_all p no_fields norm = norm
zero_all p (field k v m) norm = zero_all p m (zero_removed (schema_at k p) k norm)

-- The modifiers of a request or a response, in their order.
unfoldable pub modify : List (Fields → Out Fields) → Fields → Out Fields
modify [] m = gives m
modify (f ∷ l) m = and_then (f m) (modify l)

module _ (lib : Text) where
  -- `normalizeTyped` of the properties of an object.
  unfoldable pub normalize_typed : ResourceData → Bool → Bool → Fields → Out Fields
  unfolding as_map
  normalize_typed d ignore_unknown set_flow m =
      and_then (normalize lib ignore_unknown (object d.root d.schema) set_flow (fields m)) as_map

  unfoldable pub set_value : ResourceData → Str → Schema → Value → Out ResourceData
  unfolding or_empty
  set_value d key s v =
      and_then (normalize lib false s true v)
        (λ u. with_current d (put key u (or_empty (current_state d))))

  -- A nil is removed; it is not in a nil map.
  unfoldable pub remove_value : ResourceData → Str → Option Fields → Out ResourceData
  remove_value d key none = gives d
  remove_value d key (some m) = with_current d (remove key m)

  unfoldable pub set_with : ResourceData → Str → Option Schema → Value → Out ResourceData
  unfolding set_value remove_value
  set_with d key none v = fails (plain (bytes "key not found in schema: " ++ key))
  set_with d key (some s) null = remove_value d key (current_state d)
  set_with d key (some s) v = set_value d key s v

  -- `Set`
  unfoldable pub set_key : ResourceData → Str → Value → Out ResourceData
  unfolding set_with
  set_key d key v = set_with d key (schema_at key d.schema) v

  -- `SetID`
  unfoldable pub set_id : ResourceData → List Str → Out ResourceData
  unfolding set_key
  set_id d parts = set_key d (bytes "id") (text (join (bytes "/") parts))

  -- `Expand`, up to the JSON of the request.
  unfoldable pub expand : ResourceData → List (Fields → Out Fields) → Out Fields
  unfolding normalize_typed zero_all modify or_empty
  expand d modifiers = elim d.plan [
    | none ↦ fails (plain (bytes "no plan provided"))
    | some p ↦
        and_then (normalize_typed d false false p)
          (λ norm. modify modifiers (zero_all d.schema (or_empty d.state) norm))
  ]

  -- `maps.Copy(state, norm)` of what is left of the two.
  unfoldable pub merged : ResourceData → Fields → Fields
  unfolding prune_blocks prune_empties copy
  merged d norm =
      let start : Maps = record { state = or_empty (current_state d); norm = norm } in
      let blocks = if d.is_data_source then start else prune_blocks d.config d.schema start in
      let m = prune_empties d.config d.schema blocks in copy m.state m.norm

  module _ (atoi : Str → Option ℕ) where
    unfoldable pub id_values : ResourceData → List Str → Out (List Str)
    unfolding as_text
    id_values d [] = gives []
    id_values d (k ∷ l) = and_then (get_ok lib atoi d k) (λ g.
        if g.there
        then and_then (as_text lib atoi g.value)
            (λ s. and_then (id_values d l) (λ ss. gives (s ∷ ss)))
        else fails (plain (bytes "no value for id field " ++ k)))

    -- `Flatten`, behind the JSON of the response.
    unfoldable pub flatten : ResourceData → List (Fields → Out Fields) → Fields → Out ResourceData
    unfolding modify normalize_typed merged id_values set_id
    flatten d modifiers m = and_then (modify modifiers m) (λ n.
        and_then (normalize_typed d true true n) (λ norm.
          and_then (with_current d (merged d norm))
            (λ e. and_then (id_values e d.id_fields) (set_id e))))

unfoldable pub or_panic {ℓ} : {A : Type ℓ} → Out A → Out A
or_panic (gives a) = gives a
or_panic (fails e) = panics
or_panic panics = panics

-- `tfValue`, which panics on an error; a nil map is a map without keys there.
unfoldable pub tf_value : ResourceData → Out TfValue
unfolding or_empty or_panic
tf_value d = or_panic (to_tf (object d.root d.schema) (fields (or_empty (current_state d))))
