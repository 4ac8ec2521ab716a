-- ===== src/Adapter/Normalized.antt =====
-- resourcedata.go: the shapes of what the parts of `normalizeAny` write.
use terraform_provider_aiven.Prelude.{
  ◌≡◌, refl, sym, subst, ◌⊎◌, inl, inr, Bool, Bool-cases, true, false, ◌&&◌, Option, none, some,
  Str, str_eq, str_eq_iff, is_empty,
}
use terraform_provider_aiven.Converters.Values.{Out, gives, fails, panics, and_then}
use terraform_provider_aiven.Adapter.Values.{
  Primitive, string, int, float, bool, Schema, primitive, list, set, dict, object, Properties,
  no_properties, property, Value, null, text, number, truth, items, fields, pointer, kept, Values,
  no_items, item, Fields, no_fields, field, lookup, schema_at,
}
use terraform_provider_aiven.Adapter.Marshalling.{expected}
use terraform_provider_aiven.Adapter.Shape.{
  PrimitiveShaped, AllItems, AllFields, IsItems, IfThere, ShapedFields,
}
use terraform_provider_aiven.Adapter.Normalize.{
  dereference, unless_nil, as_list, normalize_items, normalize_object, normalize_list, add_field,
  normalize_fields, Text, parsed, normalize_primitive,
}

unfoldable mutual
  -- No object names a property twice.
  pub WellKeyed : Schema → Type 0
  WellKeyed (primitive f p) = Unit
  WellKeyed (list f s) = WellKeyed s
  WellKeyed (set f s) = WellKeyed s
  WellKeyed (dict f s) = WellKeyed s
  WellKeyed (object f p) = WellKeyedIn p

  pub WellKeyedIn : Properties → Type 0
  WellKeyedIn no_properties = Unit
  WellKeyedIn (property k s p) = (schema_at k p ≡ none) × WellKeyed s × WellKeyedIn p

pub gives_inj : {A : Type 0} {a b : A} → gives a ≡ gives b → a ≡ b
gives_inj h = cc

pub and_then_gives :
    {A B : Type 0} (r : Out A) (f : A → Out B) (b : B)
    → and_then r f ≡ gives b
    → (a : A) × (r ≡ gives a) × (f a ≡ gives b)
unfolding and_then
and_then_gives (gives a) f b h = (a, refl, h)
and_then_gives (fails e) f b h = cc
and_then_gives panics f b h = cc

unless_nil-cases :
    (z : Value) (g : Value → Out Value) (v u : Value)
    → unless_nil z g v ≡ gives u
    → (z ≡ u) ⊎ (g v ≡ gives u)
unfolding unless_nil
unless_nil-cases z g null u h = inl cc
unless_nil-cases z g (kept t) u h = inl cc
unless_nil-cases z g (text s) u h = inr h
unless_nil-cases z g (number s) u h = inr h
unless_nil-cases z g (truth b) u h = inr h
unless_nil-cases z g (items l) u h = inr h
unless_nil-cases z g (fields m) u h = inr h
unless_nil-cases z g (pointer v) u h = inr h

-- What is behind a nil: the zero value, or what is made of the value.
pub normalized-cases :
    (z : Value) (g : Value → Out Value) (v u : Value)
    → and_then (dereference v) (unless_nil z g) ≡ gives u
    → (z ≡ u) ⊎ ((w : Value) × (g w ≡ gives u))
normalized-cases z g v u h =
    let (w, p, q) = and_then_gives (dereference v) (unless_nil z g) u h in
    elim (unless_nil-cases z g w u q) [ inl e ↦ inl e | inr e ↦ inr (w, e) ]

pub no_fields-Shaped : (p : Properties) → ShapedFields p no_fields
unfolding ShapedFields lookup IfThere
no_fields-Shaped no_properties = tt
no_fields-Shaped (property k s p) = (tt, no_fields-Shaped p)

parsed-All :
    {A : Type 0} (P : Value → Type 0) (o : Option A) (f : A → Value) (s : Str) (u : Value)
    → ((a : A) → P (f a))
    → parsed o f s ≡ gives u
    → P u
unfolding parsed
parsed-All P none f s u k h = cc
parsed-All P (some a) f s u k h = subst P (gives_inj h) (k a)

pub normalize_primitive-Shaped :
    (lib : Text) (b : Bool) (p : Primitive) (v u : Value)
    → normalize_primitive lib b p v ≡ gives u
    → PrimitiveShaped p u
unfolding normalize_primitive PrimitiveShaped
normalize_primitive-Shaped lib b string v u h = elim (Bool-cases (is_empty (lib.sprint v) && b)) [
  | inl p ↦ subst (PrimitiveShaped string) (gives_inj (rw p at h)) tt
  | inr p ↦ subst (PrimitiveShaped string) (gives_inj (rw p at h)) tt
]
normalize_primitive-Shaped lib b int v u h =
    parsed-All (PrimitiveShaped int) (lib.parse_int (lib.sprint v)) number (lib.sprint v) u
      (λ a. tt) h
normalize_primitive-Shaped lib b float v u h =
    parsed-All (PrimitiveShaped float) (lib.parse_float (lib.sprint v)) number (lib.sprint v) u
      (λ a. tt) h
normalize_primitive-Shaped lib b bool v u h =
    parsed-All (PrimitiveShaped bool) (lib.parse_bool (lib.sprint v)) truth (lib.sprint v) u
      (λ a. tt) h

module _ (P : Value → Type 0) where
  normalize_items-All :
      (f : Value → Out Value) (k : (v u : Value) → f v ≡ gives u → P u) (l us : Values)
      → normalize_items f l ≡ gives us
      → AllItems P us
  unfolding normalize_items AllItems
  normalize_items-All f k no_items us h = subst (AllItems P) (gives_inj h) tt
  normalize_items-All f k (item v l) us h =
      let (u, p, q) = and_then_gives (f v) _ us h in
      let (ws, r, t) = and_then_gives (normalize_items f l) _ us q in
      subst (AllItems P) (gives_inj t) (k v u p, normalize_items-All f k l ws r)

  normalize_object-All :
      (f : Value → Out Value) (k : (v u : Value) → f v ≡ gives u → P u) (l : Values) (u : Value)
      → normalize_object true f l ≡ gives u
      → IsItems (AllItems P) u
  unfolding normalize_object AllItems IsItems expected
  normalize_object-All f k no_items u h = subst (IsItems (AllItems P)) (gives_inj h) tt
  normalize_object-All f k (item v no_items) u h =
      let (w, p, q) = and_then_gives (f v) _ u h in
      subst (IsItems (AllItems P)) (gives_inj q) (k v w p, tt)
  normalize_object-All f k (item v (item w l)) u h = cc

  pub normalize_list-All :
      (b : Bool) (f : Value → Out Value) (k : (v u : Value) → f v ≡ gives u → P u) (v u : Value)
      → normalize_list b true f v ≡ gives u
      → IsItems (AllItems P) u
  unfolding normalize_list IsItems
  normalize_list-All true f k v u h =
      let (l, p, q) = and_then_gives (as_list true v) _ u h in normalize_object-All f k l u q
  normalize_list-All false f k v u h =
      let (l, p, q) = and_then_gives (as_list false v) _ u h in
      let (us, r, t) = and_then_gives (normalize_items f l) _ u q in
      subst (IsItems (AllItems P)) (gives_inj t) (normalize_items-All f k l us r)

added-All :
    (P : Value → Type 0) (k : Str) (o : Option Value) (us : Fields)
    → ((u : Value) → o ≡ some u → P u)
    → AllFields P us
    → AllFields P (elim o [ none ↦ us | some u ↦ field k u us ])
unfolding AllFields
added-All P k none us h all = all
added-All P k (some u) us h all = (h u refl, all)

pub normalize_fields-All :
    (P : Value → Type 0) (f : Str → Value → Out (Option Value)) (m us : Fields)
    → ((k : Str) (v u : Value) → f k v ≡ gives (some u) → P u)
    → normalize_fields f m ≡ gives us
    → AllFields P us
unfolding normalize_fields add_field AllFields
normalize_fields-All P f no_fields us h e = subst (AllFields P) (gives_inj e) tt
normalize_fields-All P f (field j v m) us h e =
    let (o, p, q) = and_then_gives (f j v) _ us e in
    let (ws, r, t) = and_then_gives (normalize_fields f m) _ us q in
    subst (AllFields P) (gives_inj t) (
      added-All P j o ws (λ u d. h j v u (let x : f j v ≡ gives (some u) = cc in x))
        (normalize_fields-All P f m ws h r))

added :
    (f : Str → Value → Out (Option Value)) (ws : Fields) (k : Str) (u : Value) (j : Str) (v : Value)
    (o : Option Value)
    → f j v ≡ gives o
    → (lookup k ws ≡ some u → (w : Value) × (f k w ≡ gives (some u)))
    → lookup k (elim o [ none ↦ ws | some w ↦ field j w ws ]) ≡ some u
    → (w : Value) × (f k w ≡ gives (some u))
unfolding lookup
added f ws k u j v none p rest e = rest e
added f ws k u j v (some w) p rest e = elim (Bool-cases (str_eq k j)) [
  | inl q ↦
      let e = rw q at e in
      let k_j = (str_eq_iff k j).0 q in
      (v, subst (λ i. f i v ≡ gives (some u)) (sym k_j) (let x : f j v ≡ gives (some u) = cc in x))
  | inr q ↦ rest (rw q at e)
]

-- What is behind the name of a field comes from a field of that name.
pub normalize_fields-lookup :
    (f : Str → Value → Out (Option Value)) (m us : Fields) (k : Str) (u : Value)
    → normalize_fields f m ≡ gives us
    → lookup k us ≡ some u
    → (v : Value) × (f k v ≡ gives (some u))
unfolding normalize_fields add_field lookup
normalize_fields-lookup f no_fields us k u h e =
    let e : lookup k no_fields ≡ some u = subst (λ x. lookup k x ≡ some u) (sym (gives_inj h)) e in
    cc
normalize_fields-lookup f (field j v m) us k u h e =
    let (o, p, q) = and_then_gives (f j v) _ us h in
    let (ws, r, t) = and_then_gives (normalize_fields f m) _ us q in
    added f ws k u j v o p (normalize_fields-lookup f m ws k u r)
      (subst (λ x. lookup k x ≡ some u) (sym (gives_inj t)) e)
