-- ===== src/Adapter/Resource/Plan.antt =====
-- resource.go: `ImportState`, `ValidateConfig` and `ModifyPlan`. The text of the error for a resource in beta is
-- left out.
use terraform_provider_aiven.Prelude.{
  Bool, not, ◌&&◌, Option, none, some, List, [], ◌∷◌, ◌++◌, if◌then◌else◌, length, Str, bytes,
}
use terraform_provider_aiven.Common.{Result, ok, err}
use terraform_provider_aiven.ResourceId.{build_resource_id, split_resource_id}
use terraform_provider_aiven.Adapter.Values.{TfValue}
use terraform_provider_aiven.Adapter.Failure.{message}
use terraform_provider_aiven.Adapter.Resource.{
  Called, Handle, unchanged, Response, Opened, opened, opening, refused, answered,
}
use terraform_provider_aiven.Adapter.Resource.Read.{Protection, Destroy, modify_destroy_plan}

-- The attributes to set, each with its value.
unfoldable pub pair : List Str → List Str → List (Str × Str)
pair (k ∷ ks) (v ∷ vs) = (k, v) ∷ pair ks vs
pair ks vs = []

unfoldable pub set_parts_of : List Str → Str → Result (List Str) → Option (List (Str × Str)) × Str
unfolding pair
set_parts_of l id (ok values) = (some (pair l values), [])
set_parts_of l id (err e) = (
  none,
  bytes "Expected import identifier with format: " ++ build_resource_id l ++ bytes ". Got: " ++ id,
)

-- `ImportState`: what it sets, or none and the text of the error.
unfoldable pub import_state : List Str → Str → Option (List (Str × Str)) × Str
unfolding set_parts_of
import_state l id = set_parts_of l id (split_resource_id id (length l))

module _ {S : Type 0} where
  -- `ValidateConfig`, given whether the resource is in beta, whether that is enabled, and whether there is a client.
  unfoldable pub validate_config :
      Bool → Bool → Bool → Option (S → Called S) → S → Opened S → Response S
  unfolding opening refused answered
  validate_config beta is_beta has_client validate s o =
      if beta && not is_beta
      then refused (bytes "Beta Resource Not Enabled") (message []) unchanged [] s
      else elim validate [
        | none ↦ answered unchanged [] s
        | some f ↦
            if not has_client
            then answered unchanged [] s
            else opening
                (λ t.
                  let r = f t in
                  elim r.failure [
                    | none ↦ answered unchanged r.warnings r.after
                    | some e ↦
                        refused (bytes "failed to validate config") e unchanged r.warnings r.after
                  ])
                o
      ]

-- What `ModifyPlan` answers: a plan to destroy, a plan that stays, or one that is written with the attributes that
-- force a replacement.
pub data Planned (S : Type 0) : Type 0 where
  destroys : Destroy → Planned S
  stays : Planned S
  refuses : Response S → Planned S
  plans : TfValue → List Str → Planned S

unfoldable pub modified :
    {S : Type 0} → Handle S → (S → List Str) → (S → Called S) → Opened S → Planned S
unfolding refused opening
modified h keys f (opened s) =
    let r = f s in
    elim r.failure [
      | none ↦ plans (h.tf_value r.after) (keys r.after)
      | some e ↦ refuses (refused (bytes "failed to modify plan") e unchanged r.warnings r.after)
    ]
modified h keys f o = refuses (opening (λ s. answered unchanged [] s) o)

unfoldable pub modify_plan :
    {S : Type 0}
    → Handle S
    → (S → List Str)
    → (is_null termination_protection : Bool) → Protection
    → Option (S → Called S)
    → Opened S
    → Planned S
unfolding modified modify_destroy_plan
modify_plan h keys is_null termination_protection p f o =
    if is_null
    then destroys (modify_destroy_plan termination_protection p)
    else elim f [ none ↦ stays | some g ↦ modified h keys g o ]
