-- ===== src/Adapter/SetShape.antt =====
-- resourcedata.go: the shape of the data behind `Set` and `Flatten`, for `tfValue`.
use terraform_provider_aiven.Prelude.{
  ℕ, ◌≡◌, refl, subst, ◌∙◌, ap, inl, inr, Bool-cases, true, false, Option, Option-cases, none, some,
  List, Str, bytes, join, str_eq,
}
use terraform_provider_aiven.Converters.Values.{Out, gives}
use terraform_provider_aiven.Adapter.Values.{
  Flags, Schema, object, Properties, no_properties, property, TfValue, Value, null, text, fields,
  Fields, type_of, schema_at,
}
use terraform_provider_aiven.Adapter.Marshalling.{expected}
use terraform_provider_aiven.Adapter.Shape.{Shaped, IsFields, HasType, to_tf-HasType}
use terraform_provider_aiven.Adapter.Normalize.{Text, normalize, as_map}
use terraform_provider_aiven.Adapter.Normalized.{WellKeyed, WellKeyedIn, gives_inj, and_then_gives}
use terraform_provider_aiven.Adapter.Written.{found-ShapedFields, normalize-Shaped}
use terraform_provider_aiven.Adapter.Data.{
  ResourceData, remove, or_empty, first_map, current_state, with_plan, with_state, with_config,
  write, with_current,
}
use terraform_provider_aiven.Adapter.Store.{
  Maps, modify, normalize_typed, set_value, remove_value, set_with, set_key, set_id, merged,
  id_values, flatten, or_panic, tf_value,
}
use terraform_provider_aiven.Adapter.DataShape.{
  Fit, ShapedFields-Fit, put-Fit, remove-Fit, copy-Fit, FitMaps, prune_blocks-Fit,
  prune_empties-Fit,
}

-- The current state of the data has the shape of the schema.
unfoldable pub FitData : ResourceData → Type 0
FitData d = Fit d.schema (or_empty (current_state d))

-- The data with another current state.
Became : ResourceData → Fields → ResourceData → Type 0
Became d m e = (or_empty (current_state e) ≡ m) × (e.schema ≡ d.schema) × (e.root ≡ d.root)

write-Became :
    (d : ResourceData) (p s c : Option Fields) (m : Fields) (e : ResourceData)
    → write d p s c m ≡ gives e
    → Became d m e
unfolding write with_plan with_state with_config current_state first_map or_empty Became
write-Became d (some p) s c m e h = subst (Became d m) (gives_inj h) (refl, refl, refl)
write-Became d none (some s) c m e h = subst (Became d m) (gives_inj h) (refl, refl, refl)
write-Became d none none (some c) m e h = subst (Became d m) (gives_inj h) (refl, refl, refl)
write-Became d none none none m e h = cc

with_current-FitData :
    (d : ResourceData) (m : Fields) (e : ResourceData)
    → with_current d m ≡ gives e
    → Fit d.schema m
    → FitData e × (e.schema ≡ d.schema) × (e.root ≡ d.root)
unfolding FitData with_current Became
with_current-FitData d m e h f =
    let (p, q, r) = write-Became d d.plan d.state d.config m e h in (rw (p, q) f, q, r)

-- `e` has the shape of the schema, which is that of `d`.
unfoldable pub Follows : ResourceData → ResourceData → Type 0
Follows d e = FitData e × (e.schema ≡ d.schema) × (e.root ≡ d.root)

pub at-WellKeyed :
    (p : Properties) (k : Str) (s : Schema) → WellKeyedIn p → schema_at k p ≡ some s → WellKeyed s
unfolding WellKeyedIn schema_at
at-WellKeyed no_properties k s w e = cc
at-WellKeyed (property j t p) k s (_, w, w₁) e = elim (Bool-cases (str_eq k j)) [
  | inl q ↦ let t_s : t ≡ s = (let e = rw q at e in cc) in subst WellKeyed t_s w
  | inr q ↦ at-WellKeyed p k s w₁ (rw q at e)
]

mapped-Fit :
    (r : Flags) (p : Properties) (u : Value) (n : Fields)
    → Shaped (object r p) u
    → as_map u ≡ gives n
    → Fit p n
unfolding Shaped IsFields as_map expected
mapped-Fit r p (fields m) n s h = subst (Fit p) (gives_inj h) (ShapedFields-Fit p m s)
mapped-Fit r p v n s h = cc

start : ResourceData → Fields → Maps
start d n = record { state = or_empty (current_state d); norm = n }

module _ (lib : Text) where
  set_value-Follows :
      (d : ResourceData) (key : Str) (s : Schema) (v : Value) (e : ResourceData)
      → WellKeyedIn d.schema
      → schema_at key d.schema ≡ some s
      → FitData d
      → set_value lib d key s v ≡ gives e
      → Follows d e
  unfolding set_value FitData Follows
  set_value-Follows d key s v e w k f h =
      let (u, p, q) = and_then_gives (normalize lib false s true v) _ e h in
      with_current-FitData d _ e q (
        put-Fit d.schema key s u (or_empty (current_state d)) k
          (normalize-Shaped lib false s v u (at-WellKeyed d.schema key s w k) p) f)

  remove_value-Follows :
      (d : ResourceData) (key : Str) (e : ResourceData)
      → FitData d
      → remove_value lib d key (current_state d) ≡ gives e
      → Follows d e
  unfolding remove_value FitData Follows or_empty
  remove_value-Follows d key e f h = elim (Option-cases (current_state d)) [
    | inl p ↦
        subst
          (λ x.
            Fit x.schema (or_empty (current_state x)) × (x.schema ≡ d.schema) × (x.root ≡ d.root))
          (gives_inj (rw p at h)) (f, refl, refl)
    | inr (m, p) ↦
        let f = rw p at f in
        with_current-FitData d (remove key m) e (rw p at h) (remove-Fit d.schema key m f)
  ]

  set_with-Follows :
      (d : ResourceData) (key : Str) (o : Option Schema) (v : Value) (e : ResourceData)
      → WellKeyedIn d.schema
      → schema_at key d.schema ≡ o
      → FitData d
      → set_with lib d key o v ≡ gives e
      → Follows d e
  unfolding set_with
  set_with-Follows d key none v e w k f h = cc
  set_with-Follows d key (some s) null e w k f h = remove_value-Follows d key e f h
  set_with-Follows d key (some s) v e w k f h = set_value-Follows d key s v e w k f h

  -- `Set` keeps the data in the shape of its schema.
  pub set_key-Follows :
      (d : ResourceData) (key : Str) (v : Value) (e : ResourceData)
      → WellKeyedIn d.schema
      → FitData d
      → set_key lib d key v ≡ gives e
      → Follows d e
  unfolding set_key
  set_key-Follows d key v e w f h = set_with-Follows d key (schema_at key d.schema) v e w refl f h

  normalize_typed-Fit :
      (d : ResourceData) (m n : Fields)
      → WellKeyedIn d.schema
      → normalize_typed lib d true true m ≡ gives n
      → Fit d.schema n
  unfolding normalize_typed WellKeyed WellKeyedIn
  normalize_typed-Fit d m n w h =
      let (u, p, q) =
        and_then_gives (normalize lib true (object d.root d.schema) true (fields m)) as_map n h in
      mapped-Fit d.root d.schema u n
        (normalize-Shaped lib true (object d.root d.schema) (fields m) u w p) q

  merged-Fit :
      (d : ResourceData) (n : Fields) → FitData d → Fit d.schema n → Fit d.schema (merged lib d n)
  unfolding merged FitData FitMaps start current_state
  merged-Fit d n f g = elim (Bool-cases d.is_data_source) [
    | inl p ↦
        let (x, y) = prune_empties-Fit d.schema d.config d.schema (start d n) (f, g) in
        rw (merged, p) (copy-Fit d.schema _ _ x y)
    | inr p ↦
        let (x, y) =
          prune_empties-Fit d.schema d.config d.schema _
            (prune_blocks-Fit d.schema d.config d.schema (start d n) (f, g)) in
        rw (merged, p) (copy-Fit d.schema _ _ x y)
  ]

  flatten-Follows :
      (atoi : Str → Option ℕ) (d : ResourceData) (modifiers : List (Fields → Out Fields))
      (m : Fields) (e : ResourceData)
      → WellKeyedIn d.schema
      → FitData d
      → flatten lib atoi d modifiers m ≡ gives e
      → Follows d e
  unfolding flatten set_id Follows
  flatten-Follows atoi d modifiers m e w f h =
      let (n, p, h) = and_then_gives (modify modifiers m) _ e h in
      let (norm, q, h) = and_then_gives (normalize_typed lib d true true n) _ e h in
      let (c, r, h) = and_then_gives (with_current d (merged lib d norm)) _ e h in
      let (ids, i, h) = and_then_gives (id_values lib atoi c d.id_fields) _ e h in
      let (x, y, z) =
        with_current-FitData d (merged lib d norm) c r
          (merged-Fit d norm f (normalize_typed-Fit d n norm w q)) in
      let (a, b, g) = set_key-Follows c (bytes "id") (text (join (bytes "/") ids)) e (rw y w) x h in
      (a, b ∙ y, g ∙ z)

  -- Data in the shape of a schema that names no property twice is converted for Terraform.
  tf_value-HasType :
      (d : ResourceData)
      → WellKeyedIn d.schema
      → FitData d
      → (t : TfValue) × (tf_value d ≡ gives t) × HasType t (type_of (object d.root d.schema))
  unfolding tf_value or_panic Shaped IsFields FitData Fit
  tf_value-HasType d w f =
      let (t, e, h) =
        to_tf-HasType (object d.root d.schema) (fields (or_empty (current_state d)))
          (found-ShapedFields d.schema (or_empty (current_state d)) w f) in
      (t, ap or_panic e, h)

  -- `Flatten` keeps the data in the shape of the schema, whatever the API answers: where it gives data, `tfValue`
  -- does not panic on it and gives a value of the type of the schema.
  pub flatten-HasType :
      (atoi : Str → Option ℕ) (d : ResourceData) (modifiers : List (Fields → Out Fields))
      (m : Fields) (e : ResourceData)
      → WellKeyedIn d.schema
      → FitData d
      → flatten lib atoi d modifiers m ≡ gives e
      → FitData e
        × (t : TfValue) × (tf_value e ≡ gives t)
        × HasType t (type_of (object d.root d.schema))
  unfolding Follows
  flatten-HasType atoi d modifiers m e w f h =
      let (x, p, q) = flatten-Follows atoi d modifiers m e w f h in
      let (t, y, z) = tf_value-HasType e (rw p w) x in
      (
        x,
        t,
        y,
        subst (λ r. HasType t (type_of (object r d.schema))) q
            (subst (λ r. HasType t (type_of (object e.root r))) p z),
      )
