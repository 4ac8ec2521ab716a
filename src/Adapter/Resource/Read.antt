-- ===== src/Adapter/Resource/Read.antt =====
-- resource.go and datasource.go: `Read` of a resource and of a data source, `FindOne`, and the checks of a plan.
use terraform_provider_aiven.Prelude.{
  ℕ, zero, suc, ◌++◌, Bool, ◌&&◌, Option, none, some, List, [], ◌∷◌, if◌then◌else◌, bytes, itoa,
}
use terraform_provider_aiven.Adapter.Failure.{
  Failure, Client, sentinel, not_found, multiple, wrapped, is_not_found,
}
use terraform_provider_aiven.Adapter.Resource.{
  Called, Handle, unchanged, removed, saved, Response, Opened, opening, refused, answered,
}

module _ {S : Type 0} (h : Handle S) (read : S → Called S) where
  -- `Read` of a resource.
  unfoldable pub read_resource : Client → Bool → Opened S → Response S
  unfolding opening refused answered
  read_resource client remove_missing = opening (λ s.
      let r = read s in
      elim r.failure [
        | none ↦ answered (saved (h.tf_value r.after)) r.warnings r.after
        | some e ↦
            if remove_missing && is_not_found client e
            then answered removed r.warnings r.after
            else refused (bytes "failed to read resource") e unchanged r.warnings r.after
      ])

  -- `Read` of a data source.
  unfoldable pub read_datasource : Opened S → Response S
  unfolding opening refused answered
  read_datasource = opening (λ s.
      let r = read s in
      elim r.failure [
        | none ↦ answered (saved (h.tf_value r.after)) r.warnings r.after
        | some e ↦ refused (bytes "failed to read datasource") e unchanged r.warnings r.after
      ])

-- `termination_protection` of the state: an error of its read, or its value.
pub data Protection : Type 0 where
  unreadable : Protection
  protected : Bool → Protection

-- What `ModifyPlan` does with a plan to destroy: the plan passes, the resource is protected, or its state is
-- not read.
pub data Destroy : Type 0 where
  passes is_protected not_read : Destroy

unfoldable pub modify_destroy_plan : Bool → Protection → Destroy
modify_destroy_plan termination_protection p =
    if termination_protection
    then elim p [
      | unreadable ↦ not_read
      | protected enabled ↦ if enabled then is_protected else passes
    ]
    else passes

-- `if count == 0 { index = i }`
unfoldable pub first_index {ℓ} : {A : Type ℓ} → ℕ → A → Option A → Option A
first_index zero x first = some x
first_index (suc n) x first = first

-- The loop of `FindOne` from an index: the first element whose index is wanted, and the number of these.
unfoldable pub find_from {ℓ} : {A : Type ℓ} → (ℕ → Bool) → ℕ → Option A → ℕ → List A → Option A × ℕ
unfolding first_index
find_from p i first n [] = (first, n)
find_from p i first n (x ∷ l) =
    if p i
    then find_from p (suc i) (first_index n x first) (suc n) l
    else find_from p (suc i) first n l

-- The answer for a count; the element is there where it is one.
unfoldable pub answer_of {ℓ} : {A : Type ℓ} → Option A × ℕ → Option A × Option Failure
answer_of (first, zero) = (none, some (sentinel not_found))
answer_of (first, suc zero) = (first, none)
answer_of (first, suc (suc n)) =
    (none, some (wrapped (bytes ": " ++ itoa (suc (suc n))) (sentinel multiple)))

-- `FindOne`; no element stands for the zero value that is returned with an error.
unfoldable pub find_one {ℓ} : {A : Type ℓ} → (ℕ → Bool) → List A → Option A × Option Failure
unfolding answer_of find_from
find_one p l = answer_of (find_from p 0 none 0 l)
