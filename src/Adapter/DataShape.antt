-- ===== src/Adapter/DataShape.antt =====
-- resourcedata.go: the shape of the maps of the data behind the writes of a key, a copy and what `Flatten` prunes.
use terraform_provider_aiven.Prelude.{
  ◌≡◌, refl, sym, subst, ◌∙◌, inl, inr, Bool, Bool-cases, true, false, not, ◌&&◌, ◌||◌, Option,
  Option-cases, none, some, if◌then◌else◌, Str, str_eq, str_eq_iff,
}
use terraform_provider_aiven.Adapter.Values.{
  Flags, Schema, Properties, no_properties, property, Value, Fields, no_fields, field, flags,
  lookup, schema_at,
}
use terraform_provider_aiven.Adapter.Shape.{Shaped, ShapedFields, IfThere}
use terraform_provider_aiven.Adapter.Data.{put, remove, copy, or_empty}
use terraform_provider_aiven.Adapter.Store.{
  is_unset_or_empty, has_key, Maps, without_state, without_norm, without_both, prune_block,
  prune_blocks, is_collection, prune_empty, prune_empties,
}

-- What is found under the name of a property has its shape.
unfoldable pub Fit : Properties → Fields → Type 0
Fit p m = (k : Str) (s : Schema) → schema_at k p ≡ some s → IfThere (Shaped s) (lookup k m)

pub ShapedFields-Fit : (p : Properties) (m : Fields) → ShapedFields p m → Fit p m
unfolding ShapedFields Fit schema_at
ShapedFields-Fit no_properties m h k s e = cc
ShapedFields-Fit (property j t p) m h k s e = elim (Bool-cases (str_eq k j)) [
  | inl q ↦
      let t_s : t ≡ s = (let e = rw q at e in cc) in
      subst (λ i. IfThere (Shaped s) (lookup i m)) (sym ((str_eq_iff k j).0 q))
        (subst (λ c. IfThere (Shaped c) (lookup j m)) t_s h.0)
  | inr q ↦ ShapedFields-Fit p m h.1 k s (rw q at e)
]

different : (k j : Str) → (k ≡ j → ⊥) → str_eq k j ≡ false
different k j h = elim (Bool-cases (str_eq k j)) [
  | inl q ↦ absurd (h ((str_eq_iff k j).0 q))
  | inr q ↦ q
]

lookup-put :
    (k j : Str) (v : Value) (m : Fields)
    → lookup k (put j v m) ≡ (if str_eq k j then some v else lookup k m)
unfolding lookup put
lookup-put k j v no_fields = refl
lookup-put k j v (field i w m) = elim (Bool-cases (str_eq j i)) [
  | inl p ↦
      let j_i = (str_eq_iff j i).0 p in
      elim (Bool-cases (str_eq k j)) [
        | inl q ↦ let q' = subst (λ x. str_eq k x ≡ true) j_i q in rw (p, q, q') refl
        | inr q ↦ let q' = subst (λ x. str_eq k x ≡ false) j_i q in rw (p, q, q') refl
      ]
  | inr p ↦ elim (Bool-cases (str_eq k i)) [
    | inl q ↦
        let k_i = (str_eq_iff k i).0 q in
        let r : str_eq k j ≡ false =
          different k j (λ e. let x = (str_eq_iff j i).1 (sym e ∙ k_i) in cc) in
        rw (p, q, r) refl
    | inr q ↦ rw (p, q) (lookup-put k j v m)
  ]
]

lookup-remove :
    (k j : Str) (m : Fields) → lookup k (remove j m) ≡ (if str_eq k j then none else lookup k m)
unfolding lookup remove
lookup-remove k j no_fields = elim (Bool-cases (str_eq k j)) [
  | inl q ↦ rw q refl
  | inr q ↦ rw q refl
]
lookup-remove k j (field i w m) = elim (Bool-cases (str_eq j i)) [
  | inl p ↦
      let j_i = (str_eq_iff j i).0 p in
      elim (Bool-cases (str_eq k j)) [
        | inl q ↦ rw (p, lookup-remove k j m, q) refl
        | inr q ↦
            let q' = subst (λ x. str_eq k x ≡ false) j_i q in
            rw (p, lookup-remove k j m, q, q') refl
      ]
  | inr p ↦ elim (Bool-cases (str_eq k i)) [
    | inl q ↦
        let k_i = (str_eq_iff k i).0 q in
        let r : str_eq k j ≡ false =
          different k j (λ e. let x = (str_eq_iff j i).1 (sym e ∙ k_i) in cc) in
        rw (p, q, r) refl
    | inr q ↦ rw (p, q) (lookup-remove k j m)
  ]
]

both : Option Value → Option Value → Option Value
both (some v) o = some v
both none o = o

lookup-copy : (k : Str) (m n : Fields) → lookup k (copy m n) ≡ both (lookup k n) (lookup k m)
unfolding copy lookup both
lookup-copy k m no_fields = refl
lookup-copy k m (field j v n) =
    lookup-put k j v (copy m n)
    ∙ elim (Bool-cases (str_eq k j)) [ inl q ↦ rw q refl | inr q ↦ rw q (lookup-copy k m n) ]

module _ (p : Properties) where
  pub put-Fit :
      (j : Str) (s : Schema) (v : Value) (m : Fields)
      → schema_at j p ≡ some s
      → Shaped s v
      → Fit p m
      → Fit p (put j v m)
  unfolding Fit IfThere
  put-Fit j s v m e h f k t d =
      subst (IfThere (Shaped t)) (sym (lookup-put k j v m)) (elim (Bool-cases (str_eq k j)) [
        | inr q ↦ rw q (f k t d)
        | inl q ↦
            let s_t : s ≡ t =
              let d = subst (λ i. schema_at i p ≡ some t) ((str_eq_iff k j).0 q) d in cc in
            rw q (subst (λ c. Shaped c v) s_t h)
      ])

  pub remove-Fit : (j : Str) (m : Fields) → Fit p m → Fit p (remove j m)
  unfolding Fit IfThere
  remove-Fit j m f k t d =
      subst (IfThere (Shaped t)) (sym (lookup-remove k j m))
        (elim (Bool-cases (str_eq k j)) [ inl q ↦ rw q tt | inr q ↦ rw q (f k t d) ])

  pub copy-Fit : (m n : Fields) → Fit p m → Fit p n → Fit p (copy m n)
  unfolding Fit IfThere both
  copy-Fit m n f g k t d =
      subst (IfThere (Shaped t)) (sym (lookup-copy k m n)) (elim (Option-cases (lookup k n)) [
        | inl q ↦ rw q (f k t d)
        | inr (v, q) ↦ let h = g k t d in rw q (rw q at h)
      ])

  unfoldable pub FitMaps : Maps → Type 0
  FitMaps m = Fit p m.state × Fit p m.norm

  if-Fit : (b : Bool) (m n : Maps) → FitMaps m → FitMaps n → FitMaps (if b then m else n)
  if-Fit true m n h g = h
  if-Fit false m n h g = g

  without-Fit :
      (k : Str) (m : Maps)
      → FitMaps m
      → FitMaps (without_state k m) × FitMaps (without_norm k m) × FitMaps (without_both k m)
  unfolding FitMaps without_state without_norm without_both
  without-Fit k m (x, y) =
      let a = remove-Fit k m.state x in let b = remove-Fit k m.norm y in ((a, y), (x, b), (a, b))

  prune_block-Fit :
      (c : Option Fields) (k : Str) (f : Flags) (m : Maps)
      → FitMaps m
      → FitMaps (prune_block c k f m)
  unfolding prune_block
  prune_block-Fit none k f m h =
      let (s, n, sn) = without-Fit k m h in
      if-Fit (not f.is_object || not f.computed) _ _ h (
        if-Fit f.is_attribute _ _ (if-Fit (has_key (lookup k m.norm)) _ _ h s) (
          if-Fit (is_unset_or_empty (lookup k m.norm)) _ _ sn
            (if-Fit (is_unset_or_empty (lookup k m.state)) _ _ n h)))
  prune_block-Fit (some c) k f m h =
      let (s, n, sn) = without-Fit k m h in
      if-Fit (not f.is_object || not f.computed) _ _ h (
        if-Fit f.is_attribute _ _ (if-Fit (has_key (lookup k m.norm)) _ _ h s) (
          if-Fit (is_unset_or_empty (lookup k m.norm)) _ _ sn
            (if-Fit (is_unset_or_empty (lookup k c)) _ _ sn h)))

  pub prune_blocks-Fit :
      (c : Option Fields) (q : Properties) (m : Maps) → FitMaps m → FitMaps (prune_blocks c q m)
  unfolding prune_blocks
  prune_blocks-Fit c no_properties m h = h
  prune_blocks-Fit c (property k s q) m h =
      prune_blocks-Fit c q (prune_block c k (flags s) m) (prune_block-Fit c k (flags s) m h)

  prune_empty-Fit :
      (c : Option Fields) (k : Str) (s : Schema) (m : Maps)
      → FitMaps m
      → FitMaps (prune_empty c k s m)
  unfolding prune_empty
  prune_empty-Fit c k s m h =
      let (a, n, b) = without-Fit k m h in
      if-Fit (not (is_collection s)) _ _ h (
        if-Fit ((flags s).computed && (flags s).is_attribute) _ _ h (
          if-Fit (not (is_unset_or_empty (lookup k m.norm))) _ _ h (
            if-Fit (not (has_key (lookup k m.state)) && not (has_key (lookup k (or_empty c)))) _ _ n
              h)))

  pub prune_empties-Fit :
      (c : Option Fields) (q : Properties) (m : Maps) → FitMaps m → FitMaps (prune_empties c q m)
  unfolding prune_empties
  prune_empties-Fit c no_properties m h = h
  prune_empties-Fit c (property k s q) m h =
      prune_empties-Fit c q (prune_empty c k s m) (prune_empty-Fit c k s m h)
