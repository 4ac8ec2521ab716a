-- ===== src/Converters/Renaming.antt =====
-- About the names of fields that change on the way and back.
use terraform_provider_aiven.Prelude.{
  ◌≡◌, refl, sym, ◌∙◌, inl, inr, true, false, Bool-cases, Option-cases, none, some, [], ◌∷◌, ◌==◌,
  Str, str_eq, str_eq_refl, str_eq_iff, has_slash,
}
use terraform_provider_aiven.Converters.Values.{
  Value, Fields, no_fields, field, gives, and_then, lookup, value_or_nil,
}
use terraform_provider_aiven.Converters.Rename.{
  remove, put_field, is_zero, chosen, rename_key, rename_keys, split_slashes, same_place,
  rename_alias,
}

lookup-put_field : (k : Str) (v : Value) (f : Fields) → lookup k (put_field k v f) ≡ some v
unfolding lookup put_field
lookup-put_field k v no_fields = rw (str_eq_refl k) refl
lookup-put_field k v (field j u f) = elim (Bool-cases (str_eq k j)) [
  | inl e ↦ rw (e, e) refl
  | inr e ↦ rw (e, e) (lookup-put_field k v f)
]

same_key : (x k j : Str) → str_eq x k ≡ false → str_eq k j ≡ true → str_eq x j ≡ false
same_key x k j h e = rw (← (str_eq_iff k j).0 e) h

lookup-put_field_other :
    (x k : Str) (v : Value) (f : Fields)
    → str_eq x k ≡ false
    → lookup x (put_field k v f) ≡ lookup x f
unfolding lookup put_field
lookup-put_field_other x k v no_fields h = rw h refl
lookup-put_field_other x k v (field j u f) h = elim (Bool-cases (str_eq k j)) [
  | inl e ↦ rw (e, same_key x k j h e) refl
  | inr e ↦ rw e (rw (lookup-put_field_other x k v f h) refl)
]

lookup-remove : (k : Str) (f : Fields) → lookup k (remove k f) ≡ none
unfolding lookup remove
lookup-remove k no_fields = refl
lookup-remove k (field j u f) = elim (Bool-cases (str_eq k j)) [
  | inl e ↦ rw e (lookup-remove k f)
  | inr e ↦ rw (e, e) (lookup-remove k f)
]

lookup-remove_other :
    (x k : Str) (f : Fields) → str_eq x k ≡ false → lookup x (remove k f) ≡ lookup x f
unfolding lookup remove
lookup-remove_other x k no_fields h = refl
lookup-remove_other x k (field j u f) h = elim (Bool-cases (str_eq k j)) [
  | inl e ↦ rw (e, same_key x k j h e) (lookup-remove_other x k f h)
  | inr e ↦ rw e (rw (lookup-remove_other x k f h) refl)
]

str_eq_sym : (a b : Str) → str_eq a b ≡ false → str_eq b a ≡ false
str_eq_sym a b h = elim (Bool-cases (str_eq b a)) [
  | inl e ↦ cc (h, str_eq_refl a, (str_eq_iff b a).0 e)
  | inr e ↦ e
]

-- A field that takes a name that was free: the new name has its value, the old one none.
module _ (a b : Str) (v : Value) (f : Fields) (ne : str_eq a b ≡ false)
    (free : lookup b f ≡ none) where
  renamed : rename_key a b v f ≡ put_field b v (remove a f)
  unfolding rename_key chosen value_or_nil is_zero
  renamed = rw (lookup-remove_other b a f (str_eq_sym a b ne) ∙ free) refl

  lookup_new : lookup b (rename_key a b v f) ≡ some v
  lookup_new = rw renamed (lookup-put_field b v (remove a f))

  lookup_old : lookup a (rename_key a b v f) ≡ none
  lookup_old = rw renamed (lookup-put_field_other a b v (remove a f) ne ∙ lookup-remove a f)

  lookup_other :
      (x : Str)
      → str_eq x a ≡ false
      → str_eq x b ≡ false
      → lookup x (rename_key a b v f) ≡ lookup x f
  lookup_other x p q =
      rw renamed (lookup-put_field_other x b v (remove a f) q ∙ lookup-remove_other x a f p)

split-name : (s : Str) → has_slash s ≡ false → split_slashes s ≡ s ∷ []
unfolding split_slashes
split-name [] h = refl
split-name (c ∷ s) h = elim (Bool-cases (c == 47)) [
  | inl e ↦ cc (rw e at h)
  | inr e ↦ rw (e, split-name s (rw e at h)) refl
]

rename_alias-name :
    (a b : Str) (f : Fields)
    → has_slash a ≡ false
    → has_slash b ≡ false
    → rename_alias a b f ≡ rename_keys (a ∷ []) b f
unfolding rename_alias same_place and_then
rename_alias-name a b f p q = rw (split-name a p, split-name b q) refl

renamed_there :
    (a b : Str) (v : Value) (f : Fields)
    → lookup a f ≡ some v
    → rename_keys (a ∷ []) b f ≡ gives (rename_key a b v f)
unfolding rename_keys
renamed_there a b v f h = rw (rename_keys, h) refl

not_there : (a b : Str) (f : Fields) → lookup a f ≡ none → rename_keys (a ∷ []) b f ≡ gives f
unfolding rename_keys
not_there a b f h = rw (rename_keys, h) refl

back_and_forth :
    (a b : Str) (v : Value) (f : Fields)
    → str_eq a b ≡ false
    → lookup b f ≡ none
    → lookup a f ≡ some v
    → (x : Str) → lookup x (rename_key b a v (rename_key a b v f)) ≡ lookup x f
back_and_forth a b v f ne free there x =
    let m = rename_key a b v f in
    let en = str_eq_sym a b ne in
    let gone = lookup_old a b v f ne free in
    elim (Bool-cases (str_eq x a)) [
      | inl e ↦ rw ((str_eq_iff x a).0 e) (lookup_new b a v m en gone ∙ sym there)
      | inr e ↦ elim (Bool-cases (str_eq x b)) [
        | inl d ↦ rw ((str_eq_iff x b).0 d) (lookup_old b a v m en gone ∙ sym free)
        | inr d ↦ lookup_other b a v m en gone x d e ∙ lookup_other a b v f ne free x e d
      ]
    ]

-- Renaming a field of the object itself and renaming it back, between two different names without
-- slashes of which the second is free, succeeds and changes no field.
rename_back :
    (a b : Str) (f : Fields)
    → has_slash a ≡ false
    → has_slash b ≡ false
    → str_eq a b ≡ false
    → lookup b f ≡ none
    → (g : Fields) × (and_then (rename_alias a b f) (rename_alias b a) ≡ gives g)
      × ((x : Str) → lookup x g ≡ lookup x f)
unfolding and_then
rename_back a b f p q ne free = elim (Option-cases (lookup a f)) [
  | inl none_there ↦ (
    f,
    rw (rename_alias-name a b f p q, not_there a b f none_there)
        (rename_alias-name b a f q p ∙ not_there b a f free),
    λ x. refl,
  )
  | inr (v, there) ↦
      let m = rename_key a b v f in
      (
        rename_key b a v m,
        rw (rename_alias-name a b f p q, renamed_there a b v f there)
            (rename_alias-name b a m q p ∙ renamed_there b a v m (lookup_new a b v f ne free)),
        back_and_forth a b v f ne free there,
      )
]
