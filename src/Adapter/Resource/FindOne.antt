-- ===== src/Adapter/Resource/FindOne.antt =====
-- resource.go: `FindOne` against the list of the elements that it looks for.
use terraform_provider_aiven.Prelude.{
  ℕ, suc, ◌+◌, ◌≡◌, refl, ap, ◌∙◌, Bool, Bool-cases, inl, inr, Option, none, some, List, [], ◌∷◌,
  ◌++◌, if◌then◌else◌, length, itoa, bytes, arith,
}
use terraform_provider_aiven.Adapter.Failure.{Failure, sentinel, not_found, multiple, wrapped}
use terraform_provider_aiven.Adapter.Resource.Read.{find_from, first_index, answer_of, find_one}

-- The elements at the indexes wanted, from an index on.
unfoldable pub wanted {ℓ} : {A : Type ℓ} → (ℕ → Bool) → ℕ → List A → List A
wanted p i [] = []
wanted p i (x ∷ l) = if p i then x ∷ wanted p (suc i) l else wanted p (suc i) l

-- Of none, of one and of several elements.
unfoldable pub only {ℓ} : {A : Type ℓ} → List A → Option A × Option Failure
only [] = (none, some (sentinel not_found))
only (x ∷ []) = (some x, none)
only (x ∷ y ∷ l) =
    (none, some (wrapped (bytes ": " ++ itoa (length (x ∷ y ∷ l))) (sentinel multiple)))

find_from-counted {ℓ} :
    {A : Type ℓ} (p : ℕ → Bool) (i : ℕ) (first : Option A) (n : ℕ) (l : List A)
    → find_from p i first (suc n) l ≡ (first, length (wanted p i l) + suc n)
unfolding find_from first_index wanted
find_from-counted p i first n [] = ap (λ k. (first, k)) (omega arith)
find_from-counted p i first n (x ∷ l) = elim (Bool-cases (p i)) [
  | inl e ↦ rw e (find_from-counted p (suc i) first (suc n) l ∙ ap (λ k. (first, k)) (omega arith))
  | inr e ↦ rw e (find_from-counted p (suc i) first n l)
]

-- The first element wanted, and their number.
unfoldable first_of {ℓ} : {A : Type ℓ} → List A → Option A × ℕ
first_of [] = (none, 0)
first_of (x ∷ l) = (some x, length l + 1)

find_from-first {ℓ} :
    {A : Type ℓ} (p : ℕ → Bool) (i : ℕ) (l : List A)
    → find_from p i none 0 l ≡ first_of (wanted p i l)
unfolding find_from first_index wanted first_of
find_from-first p i [] = refl
find_from-first p i (x ∷ l) = elim (Bool-cases (p i)) [
  | inl e ↦ rw e (find_from-counted p (suc i) (some x) 0 l)
  | inr e ↦ rw e (find_from-first p (suc i) l)
]

answer_of-first {ℓ} : {A : Type ℓ} (l : List A) → answer_of (first_of l) ≡ only l
unfolding answer_of first_of only
answer_of-first [] = refl
answer_of-first (x ∷ []) = refl
answer_of-first {A = A} (x ∷ y ∷ l) =
    let e : suc (length l) + 1 ≡ suc (suc (length l)) = omega arith in
    ap (λ n. answer_of {A = A} (some x, n)) e

-- `FindOne` returns the one element at an index that the predicate wants, `ErrNotFound` where there is none, and
-- an error that wraps `ErrMultiple`, with their number, where there are several.
pub find_one_lem {ℓ} : {A : Type ℓ} (p : ℕ → Bool) (l : List A) → find_one p l ≡ only (wanted p 0 l)
unfolding find_one
find_one_lem p l = rw (find_from-first p 0 l) (answer_of-first (wanted p 0 l))
