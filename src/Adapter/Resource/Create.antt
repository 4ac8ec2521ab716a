-- ===== src/Adapter/Resource/Create.antt =====
-- resource.go: `Create`, `ensurePostCreateID` and `Update`. A panic of `tfValue` is not modelled here.
use terraform_provider_aiven.Prelude.{
  Bool, true, false, ◌&&◌, not, Option, none, some, List, [], ◌∷◌, ◌++◌, if◌then◌else◌, Str, bytes,
  is_empty,
}
use terraform_provider_aiven.Adapter.Values.{Value, text}
use terraform_provider_aiven.Adapter.Failure.{Failure}
use terraform_provider_aiven.Adapter.Resource.{
  Called, Found, Condition, Handle, ResourceAdapter, Written, unchanged, saved, Response, Opened,
  opening, refused, answered,
}
use terraform_provider_aiven.Adapter.Resource.Refresh.{Polled, refresh_state}

unfoldable pub nonempty : Str → Option Str
nonempty [] = none
nonempty (c ∷ s) = some (c ∷ s)

-- A part of an id: a text that is not empty.
unfoldable pub text_part : Value → Option Str
unfolding nonempty
text_part (text s) = nonempty s
text_part v = none

unfoldable pub id_part : Found → Option Str
unfolding text_part
id_part found = if found.there then text_part found.value else none

unfoldable pub with_part : Option Str → Option (List Str) → Option (List Str)
with_part none l = none
with_part (some s) none = none
with_part (some s) (some l) = some (s ∷ l)

unfoldable pub id_parts : {S : Type 0} → Handle S → S → List Str → Option (List Str)
unfolding id_part with_part
id_parts h s [] = some []
id_parts h s (k ∷ l) = with_part (id_part (h.get_ok s k)) (id_parts h s l)

-- Whether there is a complete id, and the state behind the call.
pub record Ensured (S : Type 0) : Type 0 where
  pub complete : Bool
  pub after : S

unfoldable pub ensured : {S : Type 0} → S → Option S → Ensured S
ensured s none = record { complete = false; after = s }
ensured s (some t) = record { complete = true; after = t }

unfoldable pub set_parts : {S : Type 0} → Handle S → S → Option (List Str) → Option S
set_parts h s none = none
set_parts h s (some parts) = h.set_id s parts

unfoldable pub id_of_fields : {S : Type 0} → Handle S → List Str → S → Ensured S
unfolding ensured set_parts id_parts
id_of_fields h [] s = record { complete = false; after = s }
id_of_fields h (k ∷ l) s = ensured s (set_parts h s (id_parts h s (k ∷ l)))

-- `ensurePostCreateID`
unfoldable pub ensure_post_create_id : {S : Type 0} → Handle S → List Str → S → Ensured S
unfolding id_of_fields
ensure_post_create_id h fields s =
    if not (is_empty (h.id s))
    then record { complete = true; after = s }
    else id_of_fields h fields s

-- The state is saved if the id is complete, and is else what it was.
unfoldable pub checkpoint : {S : Type 0} → Handle S → Written → Ensured S → Written
checkpoint h w e = if e.complete then saved (h.tf_value e.after) else w

module _ {S : Type 0} (a : ResourceAdapter S (Polled S)) where
  unfoldable pub ensure_if : Bool → S → Ensured S
  unfolding ensure_post_create_id
  ensure_if b s =
      if b
      then ensure_post_create_id a.handle a.options.id_fields s
      else record { complete = false; after = s }

  -- What follows the refresh, given whether the call succeeded and the checkpoint before the refresh.
  unfoldable pub created : Bool → Bool → Written → List Str → Called S → Response S
  unfolding checkpoint refused answered
  created succeeded checkpointed w l r = elim r.failure [
    | none ↦ answered (saved (a.handle.tf_value r.after)) (l ++ r.warnings) r.after
    | some e ↦
        let n = ensure_if (succeeded && not checkpointed) r.after in
        refused (bytes "failed to refresh state") e (checkpoint a.handle w n) (l ++ r.warnings)
          n.after
  ]

  -- What follows the call, given the condition of the refresh and whether the call succeeded.
  unfoldable pub refresh_created : Option Condition → Bool → Called S → Response S
  unfolding created refresh_state checkpoint ensure_if answered
  refresh_created none succeeded r = answered (saved (a.handle.tf_value r.after)) r.warnings r.after
  refresh_created (some c) succeeded r =
      let n = ensure_if succeeded r.after in
      created succeeded n.complete (checkpoint a.handle unchanged n) r.warnings
        (refresh_state a c n.after)

  unfoldable pub after_create : Option Failure → Called S → Response S
  unfolding refresh_created refused
  after_create none r = refresh_created a.options.refresh true r
  after_create (some e) r =
      if a.options.ignore_already_exists && a.client.is_already_exists e
      then refresh_created a.options.refresh false r
      else refused (bytes "failed to create resource") e unchanged r.warnings r.after

  -- `Create`
  unfoldable pub create_resource : Opened S → Response S
  unfolding after_create opening
  create_resource = opening (λ s. after_create (a.options.create s).failure (a.options.create s))

  unfoldable pub refresh_updated : Called S → Response S
  unfolding refresh_state refused answered
  refresh_updated r = elim a.options.refresh [
    | none ↦ answered (saved (a.handle.tf_value r.after)) r.warnings r.after
    | some c ↦
        let p = refresh_state a c r.after in
        elim p.failure [
          | some e ↦
              refused (bytes "failed to refresh state") e unchanged (r.warnings ++ p.warnings)
                p.after
          | none ↦ answered (saved (a.handle.tf_value p.after)) (r.warnings ++ p.warnings) p.after
        ]
  ]

  -- `Update`
  unfoldable pub update_resource : Opened S → Response S
  unfolding refresh_updated opening refused
  update_resource = opening (λ s. elim a.options.update [
    | none ↦ refresh_updated (record { failure = none; warnings = []; after = s })
    | some update ↦
        let r = update s in
        elim r.failure [
          | none ↦ refresh_updated r
          | some e ↦ refused (bytes "failed to update resource") e unchanged r.warnings r.after
        ]
  ])
