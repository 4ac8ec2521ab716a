-- ===== src/Adapter/Decoded.antt =====
-- marshalling.go: the shape of what `fromTFValue` reads from Terraform.
use terraform_provider_aiven.Prelude.{
  ◌≡◌, subst, inl, inr, Bool, Bool-cases, false, not, ◌&&◌, some, Str, str_eq, str_eq_iff,
}
use terraform_provider_aiven.Converters.Values.{Out, gives}
use terraform_provider_aiven.Adapter.Values.{
  string, int, float, bool, Schema, primitive, list, set, dict, object, Properties, TfValue, nil,
  unknown, known_string, known_number, known_bool, known_list, known_set, known_map, known_object,
  TfValues, no_values, value, TfFields, no_entries, entry, Value, Values, Fields, field, lookup,
  schema_at, zero_value,
}
use terraform_provider_aiven.Adapter.Marshalling.{
  expected, is_missing, as_string, as_bool, as_items, as_fields, add_entry, with_schema, as_number,
  from_missing, from_tf, from_values, from_entries, from_properties,
}
use terraform_provider_aiven.Adapter.Shape.{
  PrimitiveShaped, AllItems, AllFields, IsItems, IsFields, IfThere, Shaped, ShapedFields,
}
use terraform_provider_aiven.Adapter.Normalized.{
  WellKeyed, WellKeyedIn, gives_inj, and_then_gives, no_fields-Shaped,
}
use terraform_provider_aiven.Adapter.Written.{primitive-Shaped, found-ShapedFields}
use terraform_provider_aiven.Adapter.SetShape.{at-WellKeyed}

zero-Shaped : (s : Schema) → Shaped s (zero_value s)
unfolding Shaped IsItems IsFields AllItems AllFields zero_value
zero-Shaped (primitive f p) = primitive-Shaped f p
zero-Shaped (list f s) = tt
zero-Shaped (set f s) = tt
zero-Shaped (dict f s) = tt
zero-Shaped (object f p) = no_fields-Shaped p

as_string-Shaped : (x : Str) (s : Schema) (v : Value) → as_string x s ≡ gives v → Shaped s v
unfolding as_string Shaped PrimitiveShaped expected
as_string-Shaped x (primitive f string) v h = subst (PrimitiveShaped string) (gives_inj h) tt
as_string-Shaped x s v h = cc

as_bool-Shaped : (b : Bool) (s : Schema) (v : Value) → as_bool b s ≡ gives v → Shaped s v
unfolding as_bool Shaped PrimitiveShaped expected
as_bool-Shaped b (primitive f bool) v h = subst (PrimitiveShaped bool) (gives_inj h) tt
as_bool-Shaped b s v h = cc

as_items-Shaped :
    (g : Schema → Out Values) (s : Schema) (v : Value)
    → ((c : Schema) (l : Values) → WellKeyed c → g c ≡ gives l → AllItems (Shaped c) l)
    → WellKeyed s
    → as_items g s ≡ gives v
    → Shaped s v
unfolding as_items Shaped IsItems WellKeyed expected
as_items-Shaped g (list f s) v k w h =
    let (l, p, q) = and_then_gives (g s) _ v h in
    subst (IsItems (AllItems (Shaped s))) (gives_inj q) (k s l w p)
as_items-Shaped g (set f s) v k w h =
    let (l, p, q) = and_then_gives (g s) _ v h in
    subst (IsItems (AllItems (Shaped s))) (gives_inj q) (k s l w p)
as_items-Shaped g s v k w h = cc

-- What is found under the names of properties.
FoundShaped : Properties → Fields → Type 0
FoundShaped p m = (j : Str) (s : Schema) → schema_at j p ≡ some s → IfThere (Shaped s) (lookup j m)

as_fields-Shaped :
    (g : Schema → Out Fields) (g' : Properties → Out Fields) (s : Schema) (v : Value)
    → ((c : Schema) (m : Fields) → WellKeyed c → g c ≡ gives m → AllFields (Shaped c) m)
    → ((p : Properties) (m : Fields) → WellKeyedIn p → g' p ≡ gives m → FoundShaped p m)
    → WellKeyed s
    → as_fields g g' s ≡ gives v
    → Shaped s v
unfolding as_fields Shaped IsFields WellKeyed expected FoundShaped
as_fields-Shaped g g' (dict f s) v k k' w h =
    let (m, p, q) = and_then_gives (g s) _ v h in
    subst (IsFields (AllFields (Shaped s))) (gives_inj q) (k s m w p)
as_fields-Shaped g g' (object f p) v k k' w h =
    let (m, e, q) = and_then_gives (g' p) _ v h in
    subst (IsFields (ShapedFields p)) (gives_inj q) (found-ShapedFields p m w (k' p m w e))
as_fields-Shaped g g' s v k k' w h = cc

-- An element is left out, or it is added in front.
add_entry-cases :
    (P : Fields → Type 0) (b : Bool) (k : Str) (t : TfValue) (r : Out Value) (rest : Out Fields)
    (m : Fields)
    → ((n : Fields) → rest ≡ gives n → P n)
    → ((u : Value) (n : Fields) → r ≡ gives u → rest ≡ gives n → P (field k u n))
    → add_entry b k t r rest ≡ gives m
    → P m
unfolding add_entry
add_entry-cases P b k t r rest m left added h = elim (Bool-cases (not b && is_missing t)) [
  | inl p ↦ left m (rw p at h)
  | inr p ↦
      let (u, d, h) = and_then_gives r _ m (rw p at h) in
      let (n, e, q) = and_then_gives rest _ m h in subst P (gives_inj q) (added u n d e)
]

with_schema-Shaped :
    (p : Properties) (k : Str) (g : Schema → Out Value) (u : Value)
    → ((s : Schema) (v : Value) → WellKeyed s → g s ≡ gives v → Shaped s v)
    → WellKeyedIn p
    → with_schema (schema_at k p) g ≡ gives u
    → (s : Schema) → schema_at k p ≡ some s
    → Shaped s u
unfolding with_schema expected
with_schema-Shaped p k g u h w e s d = h s u (at-WellKeyed p k s w d) (rw d at e)

field-FoundShaped :
    (p : Properties) (k : Str) (u : Value) (n : Fields)
    → ((s : Schema) → schema_at k p ≡ some s → Shaped s u)
    → FoundShaped p n
    → FoundShaped p (field k u n)
unfolding FoundShaped lookup IfThere
field-FoundShaped p k u n h f j s e = elim (Bool-cases (str_eq j k)) [
  | inl q ↦ rw q (h s (subst (λ i. schema_at i p ≡ some s) ((str_eq_iff j k).0 q) e))
  | inr q ↦ rw q (f j s e)
]

module _ (to_int to_float : Str → Str) where
  as_number-Shaped :
      (b : Bool) (x : Str) (s : Schema) (v : Value)
      → as_number to_int to_float b x s ≡ gives v
      → Shaped s v
  unfolding as_number Shaped PrimitiveShaped expected
  as_number-Shaped b x (primitive f int) v h = subst (PrimitiveShaped int) (gives_inj h) tt
  as_number-Shaped b x (primitive f float) v h = subst (PrimitiveShaped float) (gives_inj h) tt
  as_number-Shaped b x s v h = cc

  mutual
    unfolding from_tf from_values from_entries from_properties from_missing AllItems AllFields
        FoundShaped lookup IfThere

    value_fits :
        (t : TfValue) (s : Schema) (v : Value)
        → WellKeyed s
        → from_tf to_int to_float false t s ≡ gives v
        → Shaped s v
    value_fits (nil t) s v w h = subst (Shaped s) (gives_inj h) (zero-Shaped s)
    value_fits (unknown t) s v w h = subst (Shaped s) (gives_inj h) (zero-Shaped s)
    value_fits (known_string x) s v w h = as_string-Shaped x s v h
    value_fits (known_number x) s v w h = as_number-Shaped false x s v h
    value_fits (known_bool b) s v w h = as_bool-Shaped b s v h
    value_fits (known_list t l) s v w h = as_items-Shaped _ s v (values_fit l) w h
    value_fits (known_set t l) s v w h = as_items-Shaped _ s v (values_fit l) w h
    value_fits (known_map t m) s v w h =
        as_fields-Shaped _ _ s v (entries_fit m) (properties_fit m) w h
    value_fits (known_object t m) s v w h =
        as_fields-Shaped _ _ s v (entries_fit m) (properties_fit m) w h

    values_fit :
        (l : TfValues) (s : Schema) (vs : Values)
        → WellKeyed s
        → from_values to_int to_float false l s ≡ gives vs
        → AllItems (Shaped s) vs
    values_fit no_values s vs w h = subst (AllItems (Shaped s)) (gives_inj h) tt
    values_fit (value t l) s vs w h =
        let (u, p, h) = and_then_gives (from_tf to_int to_float false t s) _ vs h in
        let (us, q, e) = and_then_gives (from_values to_int to_float false l s) _ vs h in
        subst (AllItems (Shaped s)) (gives_inj e) (value_fits t s u w p, values_fit l s us w q)

    entries_fit :
        (m : TfFields) (s : Schema) (n : Fields)
        → WellKeyed s
        → from_entries to_int to_float false m s ≡ gives n
        → AllFields (Shaped s) n
    entries_fit no_entries s n w h = subst (AllFields (Shaped s)) (gives_inj h) tt
    entries_fit (entry k t m) s n w h =
        add_entry-cases (AllFields (Shaped s)) false k t _ _ n (λ x e. entries_fit m s x w e)
          (λ u x d e. (value_fits t s u w d, entries_fit m s x w e)) h

    properties_fit :
        (m : TfFields) (p : Properties) (n : Fields)
        → WellKeyedIn p
        → from_properties to_int to_float false m p ≡ gives n
        → FoundShaped p n
    properties_fit no_entries p n w h = subst (FoundShaped p) (gives_inj h) (λ j s e. tt)
    properties_fit (entry k t m) p n w h =
        add_entry-cases (FoundShaped p) false k t _ _ n (λ x e. properties_fit m p x w e)
          (λ u x d e.
            field-FoundShaped p k u x
              (with_schema-Shaped p k (from_tf to_int to_float false t) u (value_fits t) w d)
              (properties_fit m p x w e))
          h

  -- What is read from a plan, a state or a configuration without an error, with nothing preserved, has the shape
  -- of the schema, if the schema names no property twice.
  pub from_tf-Shaped :
      (t : TfValue) (s : Schema) (v : Value)
      → WellKeyed s
      → from_tf to_int to_float false t s ≡ gives v
      → Shaped s v
  from_tf-Shaped t s v w h = value_fits t s v w h
