-- ===== src/Adapter/Written.antt =====
-- resourcedata.go: the shape of what `normalizeAny` writes to the data of a resource.
use terraform_provider_aiven.Prelude.{
  ◌≡◌, refl, subst, inl, inr, Bool, Bool-cases, true, false, Option, Option-cases, some,
  if◌then◌else◌, Str, str_eq, str_eq_refl, str_eq_iff,
}
use terraform_provider_aiven.Converters.Values.{Out, gives, and_then}
use terraform_provider_aiven.Adapter.Values.{
  Flags, Primitive, string, int, float, bool, Schema, primitive, list, set, dict, object,
  Properties, no_properties, property, Value, items, fields, no_items, Fields, no_fields, lookup,
  schema_at, zero_value,
}
use terraform_provider_aiven.Adapter.Shape.{
  PrimitiveShaped, AllItems, AllFields, IsItems, IsFields, IfThere, Shaped, ShapedFields,
}
use terraform_provider_aiven.Adapter.Normalize.{
  dereference, unless_nil, is_string, normalize_list, as_map, normalize_fields, normalize_map, Text,
  normalize_primitive, normalize, normalize_at,
}
use terraform_provider_aiven.Adapter.Normalized.{
  WellKeyed, WellKeyedIn, gives_inj, and_then_gives, normalized-cases, no_fields-Shaped,
  normalize_primitive-Shaped, normalize_list-All, normalize_fields-All, normalize_fields-lookup,
}

-- A scalar is the same for reads and writes, but for its empty string.
unfoldable ForWrites : Schema → Bool → Type 0
ForWrites (primitive f p) b = Unit
ForWrites s b = b ≡ true

true-ForWrites : (s : Schema) → ForWrites s true
unfolding ForWrites
true-ForWrites (primitive f p) = tt
true-ForWrites (list f s) = refl
true-ForWrites (set f s) = refl
true-ForWrites (dict f s) = refl
true-ForWrites (object f p) = refl

items-ForWrites : (s : Schema) → ForWrites s (if is_string s then false else true)
unfolding ForWrites is_string
items-ForWrites (primitive f p) = tt
items-ForWrites (list f s) = refl
items-ForWrites (set f s) = refl
items-ForWrites (dict f s) = refl
items-ForWrites (object f p) = refl

pub primitive-Shaped : (f : Flags) (p : Primitive) → PrimitiveShaped p (zero_value (primitive f p))
unfolding PrimitiveShaped zero_value
primitive-Shaped f string = tt
primitive-Shaped f int = tt
primitive-Shaped f float = tt
primitive-Shaped f bool = tt

map_gives :
    (f : Str → Value → Out (Option Value)) (v u : Value)
    → normalize_map f v ≡ gives u
    → (m us : Fields) × (normalize_fields f m ≡ gives us) × (fields us ≡ u)
unfolding normalize_map
map_gives f v u h =
    let (m, p, q) = and_then_gives (as_map v) _ u h in
    let (us, r, t) = and_then_gives (normalize_fields f m) _ u q in (m, us, r, gives_inj t)

-- The fields of an object have the shape of the properties that are found under their names.
pub found-ShapedFields :
    (p : Properties) (m : Fields)
    → WellKeyedIn p
    → ((k : Str) (s : Schema) → schema_at k p ≡ some s → IfThere (Shaped s) (lookup k m))
    → ShapedFields p m
unfolding WellKeyedIn ShapedFields schema_at
found-ShapedFields no_properties m w h = tt
found-ShapedFields (property j s p) m (w, _, w₁) h = (
  h j s (rw (str_eq_refl j) refl),
  found-ShapedFields p m w₁ (λ k t e. elim (Bool-cases (str_eq k j)) [
    | inr q ↦ h k t (rw q e)
    | inl q ↦ let d = subst (λ i. schema_at i p ≡ some t) ((str_eq_iff k j).0 q) e in cc
  ]),
)

some_inj : {A : Type 0} {a b : A} → some a ≡ some b → a ≡ b
some_inj h = cc

module _ (lib : Text) (ignore_unknown : Bool) where
  -- The items of a list that is written, given what is known of an item.
  items_normalized :
      (s : Schema) (is_object b : Bool) (v u : Value)
      → ((x y : Value)
          → WellKeyed s
          → ForWrites s true
          → normalize lib ignore_unknown s true x ≡ gives y
          → Shaped s y)
      → WellKeyed s
      → b ≡ true
      → and_then (dereference v) (
          unless_nil
            (items no_items)
            (normalize_list is_object b (normalize lib ignore_unknown s b)))
        ≡ gives u
      → IsItems (AllItems (Shaped s)) u
  unfolding IsItems AllItems
  items_normalized s is_object b v u k w r h =
      let h = rw r at h in
      elim (normalized-cases (items no_items) _ v u h) [
        | inl e ↦ subst (IsItems (AllItems (Shaped s))) e tt
        | inr (x, e) ↦
            normalize_list-All (Shaped s) is_object (normalize lib ignore_unknown s true)
              (λ y z d. k y z w (true-ForWrites s) d) x u e
      ]

  map_normalized :
      (s : Schema) (c : Bool) (v u : Value)
      → ((x y : Value) → normalize lib ignore_unknown s c x ≡ gives y → Shaped s y)
      → and_then (dereference v) (
          unless_nil (fields no_fields) (
            normalize_map
              (λ k x. and_then (normalize lib ignore_unknown s c x) (λ y. gives (some y)))))
        ≡ gives u
      → IsFields (AllFields (Shaped s)) u
  unfolding IsFields AllFields
  map_normalized s c v u k h = elim (normalized-cases (fields no_fields) _ v u h) [
    | inl e ↦ subst (IsFields (AllFields (Shaped s))) e tt
    | inr (x, e) ↦
        let (m, us, p, q) = map_gives _ x u e in
        subst (IsFields (AllFields (Shaped s))) q (
          normalize_fields-All (Shaped s) _ m us
            (λ j y z d.
              let (a, g, i) = and_then_gives (normalize lib ignore_unknown s c y) _ (some z) d in
              subst (Shaped s) (some_inj (gives_inj i)) (k y a g))
            p)
  ]

  object_normalized :
      (p : Properties) (b : Bool) (v u : Value)
      → ((k : Str) (s : Schema) (x y : Value)
          → schema_at k p ≡ some s
          → normalize_at lib ignore_unknown p true k x ≡ gives (some y)
          → Shaped s y)
      → WellKeyedIn p
      → b ≡ true
      → and_then
          (dereference v)
          (unless_nil (fields no_fields) (normalize_map (normalize_at lib ignore_unknown p b)))
        ≡ gives u
      → IsFields (ShapedFields p) u
  unfolding IsFields IfThere
  object_normalized p b v u k w r h =
      let h = rw r at h in
      elim (normalized-cases (fields no_fields) _ v u h) [
        | inl e ↦ subst (IsFields (ShapedFields p)) e (no_fields-Shaped p)
        | inr (x, e) ↦
            let (m, us, d, q) = map_gives _ x u e in
            subst (IsFields (ShapedFields p)) q (
              found-ShapedFields p us w (λ j s f. elim (Option-cases (lookup j us)) [
                | inl n ↦ rw n tt
                | inr (y, n) ↦
                    let (z, g) =
                      normalize_fields-lookup (normalize_at lib ignore_unknown p true) m us j y d
                        n in
                    rw n (k j s z y f g)
              ]))
      ]

  mutual
    unfolding normalize normalize_at WellKeyed WellKeyedIn ForWrites Shaped ShapedFields schema_at

    normalized :
        (s : Schema) (b : Bool) (v u : Value)
        → WellKeyed s
        → ForWrites s b
        → normalize lib ignore_unknown s b v ≡ gives u
        → Shaped s u
    normalized (primitive f p) b v u w r h =
        elim (normalized-cases (zero_value (primitive f p)) (normalize_primitive lib b p) v u h) [
          | inl e ↦ subst (PrimitiveShaped p) e (primitive-Shaped f p)
          | inr (x, e) ↦ normalize_primitive-Shaped lib b p x u e
        ]
    normalized (list f s) b v u w r h =
        items_normalized s f.is_object b v u (normalized s true) w r h
    normalized (set f s) b v u w r h =
        items_normalized s f.is_object b v u (normalized s true) w r h
    normalized (dict f s) b v u w r h =
        map_normalized s (if is_string s then false else b) v u
          (λ x y e.
            normalized s (if is_string s then false else b) x y w (rw r (items-ForWrites s)) e)
          h
    normalized (object f p) b v u w r h =
        object_normalized p b v u (λ k s x y e d. at_normalized p k s x y w e d) w r h

    at_normalized :
        (p : Properties) (k : Str) (s : Schema) (v u : Value)
        → WellKeyedIn p
        → schema_at k p ≡ some s
        → normalize_at lib ignore_unknown p true k v ≡ gives (some u)
        → Shaped s u
    at_normalized no_properties k s v u w e h = cc
    at_normalized (property j t p) k s v u (_, w, w₁) e h = elim (Bool-cases (str_eq k j)) [
      | inr q ↦ at_normalized p k s v u w₁ (rw q at e) (rw q at h)
      | inl q ↦
          let e = rw q at e in
          let (x, y, z) =
            and_then_gives (normalize lib ignore_unknown t true v) _ (some u) (rw q at h) in
          let d : x ≡ u = some_inj (gives_inj z) in
          let t_s : t ≡ s = some_inj e in
          subst (λ c. Shaped c u) t_s
            (subst (Shaped t) d (normalized t true v x w (true-ForWrites t) y))
    ]

  -- What is written for a schema that names no property twice has the shape of the schema.
  pub normalize-Shaped :
      (s : Schema) (v u : Value)
      → WellKeyed s
      → normalize lib ignore_unknown s true v ≡ gives u
      → Shaped s u
  normalize-Shaped s v u w h = normalized s true v u w (true-ForWrites s) h
