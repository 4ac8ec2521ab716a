-- ===== src/Converters/Purge.antt =====
-- About the list of ip filters that is sent.
use terraform_provider_aiven.Prelude.{
  ◌≡◌, refl, sym, ap, ◌∙◌, inl, inr, Bool, true, false, Bool-cases, Option, none, some, Str, bytes,
}
use terraform_provider_aiven.Converters.Values.{
  items, no_items, Fields, Schemas, Config, Out, gives, fails, panics, and_then, lookup,
}
use terraform_provider_aiven.Converters.Expand.{Resource}
use terraform_provider_aiven.Converters.Rename.{Mapping}
use terraform_provider_aiven.Converters.UserConfig.{
  UserConfigType, is_empty_list, guard_purge, conversion_error, expand_with, expand,
}

and_then_gives {ℓ} :
    {A B : Type ℓ} (o : Out A) (f : A → Out B) (b : B)
    → and_then o f ≡ gives b
    → (a : A) × (f a ≡ gives b)
unfolding and_then
and_then_gives (gives a) f b h = (a, h)
and_then_gives (fails e) f b h = cc
and_then_gives panics f b h = cc

converted {ℓ} :
    {A : Type ℓ} (kind : UserConfigType) (name direction : Str) (o : Out A) (a : A)
    → conversion_error kind name direction o ≡ gives a
    → o ≡ gives a
unfolding conversion_error
converted kind name direction (gives b) a h = h
converted kind name direction (fails e) a h = cc
converted kind name direction panics a h = cc

same_map : {a b : Fields} → gives (some a) ≡ gives (some b) → a ≡ b
same_map h = cc

passed :
    (allowed : Bool) (dto m : Fields)
    → guard_purge allowed dto ≡ gives (some m)
    → lookup (bytes "ip_filter") m ≡ some (items no_items)
    → allowed ≡ true
unfolding guard_purge is_empty_list
passed true dto m h e = refl
passed false dto m h e = elim (Bool-cases (is_empty_list (lookup (bytes "ip_filter") dto))) [
  | inl t ↦ cc (rw t at h)
  | inr t ↦
      let q : dto ≡ m = same_map (rw t at h) in
      cc (sym t ∙ ap (λ f. is_empty_list (lookup (bytes "ip_filter") f)) q ∙ ap is_empty_list e)
]

module _ (get_user_config : UserConfigType → Str → Option Schemas)
    (get_field_mapping : UserConfigType → Str → Mapping) (res : Resource)
    (raw_config : Str → Config) (purge_allowed : Bool) where
  with_schema :
      (kind : UserConfigType) (name : Str) (schema : Option Schemas) (m : Fields)
      → expand_with get_user_config get_field_mapping res raw_config purge_allowed kind name schema
        ≡ gives (some m)
      → lookup (bytes "ip_filter") m ≡ some (items no_items)
      → purge_allowed ≡ true
  unfolding expand_with
  with_schema kind name none m h e = cc
  with_schema kind name (some r) m h e =
      let (c, p) = and_then_gives _ _ (some m) h in
      let (dto, q) = and_then_gives _ _ (some m) p in
      let (sent, s) = and_then_gives _ _ (some m) q in passed purge_allowed sent m s e

  -- A conversion for the API that succeeds gives an empty list of ip filters only if the environment
  -- allows to remove them all.
  pub expand-purge_allowed :
      (kind : UserConfigType) (name : Str) (m : Fields)
      → expand get_user_config get_field_mapping res raw_config purge_allowed kind name
        ≡ gives (some m)
      → lookup (bytes "ip_filter") m ≡ some (items no_items)
      → purge_allowed ≡ true
  unfolding expand
  expand-purge_allowed kind name m h e =
      with_schema kind name (get_user_config kind name) m
        (converted kind name (bytes " to API format") _ (some m) h) e
