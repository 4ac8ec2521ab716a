-- ===== src/Adapter/Resource/Kept.antt =====
-- resource.go: what `Create` leaves in Terraform's state when the refresh behind it fails.
use terraform_provider_aiven.Prelude.{
  ◌≡◌, refl, sym, subst, inl, inr, Bool, Bool-cases, true, false, not, ◌&&◌, Option, Option-cases,
  none, some, List, [], ◌∷◌, Str, bytes, if◌then◌else◌, is_empty, join,
}
use terraform_provider_aiven.Adapter.Values.{Value, text}
use terraform_provider_aiven.Adapter.Resource.{
  Called, Found, Condition, Handle, ResourceAdapter, unchanged, saved, Response, opened, opening,
  refused, answered,
}
use terraform_provider_aiven.Adapter.Resource.Refresh.{Polled, refresh_state}
use terraform_provider_aiven.Adapter.Resource.Create.{
  nonempty, text_part, id_part, with_part, id_of_fields, id_parts, ensured, set_parts,
  ensure_post_create_id, checkpoint, ensure_if, created, refresh_created, after_create,
  create_resource,
}

text_part-some : (v : Value) (s : Str) → text_part v ≡ some s → is_empty s ≡ false
unfolding text_part nonempty
text_part-some (text []) s h = cc
text_part-some (text (c ∷ t)) s h =
    let e : some (c ∷ t) ≡ some s = h in
    subst (λ u. is_empty u ≡ false) (let f : (c ∷ t) ≡ s = cc in f) refl
text_part-some v s h = cc

id_part-some : (f : Found) (s : Str) → id_part f ≡ some s → is_empty s ≡ false
unfolding id_part
id_part-some f s h = elim (Bool-cases f.there) [
  | inl p ↦ text_part-some f.value s (rw p at h)
  | inr p ↦ let h = rw p at h in cc
]

with_part-some :
    (o : Option Str) (r : Option (List Str)) (parts : List Str)
    → with_part o r ≡ some parts
    → (x : Str) × (ps : List Str) × (o ≡ some x) × (x ∷ ps ≡ parts)
unfolding with_part
with_part-some (some x) (some ps) parts h = (x, ps, refl, cc)
with_part-some (some x) none parts h = cc
with_part-some none r parts h = cc

join-nonempty :
    (x : Str) (ps : List Str) → is_empty x ≡ false → is_empty (join (bytes "/") (x ∷ ps)) ≡ false
unfolding join
join-nonempty [] ps h = cc
join-nonempty (c ∷ x) ps h = refl

-- The first part of an id is not empty, and so the id is not.
id_parts-joined :
    {S : Type 0} (h : Handle S) (s : S) (k : Str) (l parts : List Str)
    → id_parts h s (k ∷ l) ≡ some parts
    → is_empty (join (bytes "/") parts) ≡ false
unfolding id_parts
id_parts-joined h s k l parts e =
    let (x, ps, p, q) = with_part-some (id_part (h.get_ok s k)) (id_parts h s l) parts e in
    subst (λ u. is_empty (join (bytes "/") u) ≡ false) q (join-nonempty x ps (id_part-some _ x p))

and_false : (b : Bool) → (b && not true) ≡ false
and_false true = refl
and_false false = refl

-- `set_id` sets the id to its parts between slashes.
module _ {S : Type 0} (h : Handle S)
    (sets : (s t : S) (l : List Str) → h.set_id s l ≡ some t → h.id t ≡ join (bytes "/") l) where
  set_parts-id :
      (s : S) (k : Str) (l : List Str) (r : Option (List Str))
      → id_parts h s (k ∷ l) ≡ r
      → (ensured s (set_parts h s r)).complete ≡ true
      → is_empty (h.id (ensured s (set_parts h s r)).after) ≡ false
  unfolding ensured set_parts
  set_parts-id s k l none e c = cc
  set_parts-id s k l (some parts) e c = elim (Option-cases (h.set_id s parts)) [
    | inl p ↦ let c = rw p at c in cc
    | inr (t, p) ↦ rw (p, sets s t parts p) (id_parts-joined h s k l parts e)
  ]

  id_of_fields-id :
      (fields : List Str) (s : S)
      → (id_of_fields h fields s).complete ≡ true
      → is_empty (h.id (id_of_fields h fields s).after) ≡ false
  unfolding id_of_fields
  id_of_fields-id [] s c = cc
  id_of_fields-id (k ∷ l) s c = set_parts-id s k l (id_parts h s (k ∷ l)) refl c

  ensure_post_create_id-id :
      (fields : List Str) (s : S)
      → (ensure_post_create_id h fields s).complete ≡ true
      → is_empty (h.id (ensure_post_create_id h fields s).after) ≡ false
  unfolding ensure_post_create_id
  ensure_post_create_id-id l s c = elim (Bool-cases (is_empty (h.id s))) [
    | inl p ↦ let c = rw p at c in rw p (id_of_fields-id l s c)
    | inr p ↦ rw p p
  ]

-- An answer that leaves a state, whose id is not empty where there is an error.
pub data Kept {S : Type 0} (h : Handle S) (r : Response S) : Type 0 where
  kept_fine : (t : S) → r.written ≡ saved (h.tf_value t) → r.problems ≡ [] → Kept h r
  kept_failed : (t : S) → r.written ≡ saved (h.tf_value t) → is_empty (h.id t) ≡ false → Kept h r

module _ {S : Type 0} (a : ResourceAdapter S (Polled S)) where
  created-Kept :
      (succeeded : Bool) (t : S) (l : List Str) (r : Called S)
      → is_empty (a.handle.id t) ≡ false
      → Kept a.handle (created a succeeded true (saved (a.handle.tf_value t)) l r)
  unfolding created ensure_if checkpoint refused answered
  created-Kept b t l r h = elim (Option-cases r.failure) [
    | inl p ↦ kept_fine r.after (rw p refl) (rw p refl)
    | inr (e, p) ↦ kept_failed t (rw (p, and_false b) refl) h
  ]

module _ {S : Type 0} (a : ResourceAdapter S (Polled S))
    (sets : (s t : S) (l : List Str)
      → a.handle.set_id s l ≡ some t
      → a.handle.id t ≡ join (bytes "/") l) where
  refresh_created-Kept :
      (c : Condition) (r : Called S)
      → (ensure_post_create_id a.handle a.options.id_fields r.after).complete ≡ true
      → Kept a.handle (refresh_created a (some c) true r)
  unfolding refresh_created ensure_if checkpoint
  refresh_created-Kept c r p =
      let n = ensure_post_create_id a.handle a.options.id_fields r.after in
      subst
        (λ b. Kept a.handle (
          created a true b (if b then saved (a.handle.tf_value n.after) else unchanged) r.warnings
            (refresh_state a c n.after)))
        (sym p)
        (created-Kept a true n.after r.warnings (refresh_state a c n.after)
          (ensure_post_create_id-id a.handle sets a.options.id_fields r.after p))

  -- A resource that was created and whose id is known then is in Terraform's state, whatever the refresh does:
  -- where there is an error, with an id that is not empty.
  pub create_resource-Kept :
      (s : S) (c : Condition)
      → (a.options.create s).failure ≡ none
      → a.options.refresh ≡ some c
      → (ensure_post_create_id a.handle a.options.id_fields (a.options.create s).after).complete
        ≡ true
      → Kept a.handle (create_resource a (opened s))
  unfolding create_resource opening after_create
  create_resource-Kept s c p q k =
      subst (λ e. Kept a.handle (after_create a e (a.options.create s))) (sym p)
        (subst (λ o. Kept a.handle (refresh_created a o true (a.options.create s))) (sym q)
          (refresh_created-Kept c (a.options.create s) k))
