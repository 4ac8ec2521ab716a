-- ===== src/Schemautil/Databases/Pages.antt =====
-- About the loop of `ListServiceDatabases` over the pages (internal/schemautil/database.go).
use mathlib.Core.List.{append_assoc}
use terraform_provider_aiven.Prelude.{
  ℕ, zero, suc, ◌<◌, ◌≤◌, ◌≡◌, ◌≢◌, refl, sym, ap, ◌∙◌, inl, inr, arith, true, false, Bool-cases,
  Option, none, some, Option-cases, List, [], ◌∷◌, ◌++◌, if◌then◌else◌, Str, str_eq, str_eq_iff,
  str_eq_refl, str_mem, length,
}
use terraform_provider_aiven.Common.{Error, Result, ok, err}
use terraform_provider_aiven.Schemautil.Databases.{
  Page, ListPage, next_cursor, go_on, page_answer, list_from, list_service_databases,
}

-- The cursors of `cs` that were not seen yet.
unseen : List Str → List Str → ℕ
unseen seen [] = 0
unseen seen (c ∷ cs) = if str_mem c seen then unseen seen cs else suc (unseen seen cs)

unseen_mono : (c : Str) (seen cs : List Str) → unseen (c ∷ seen) cs ≤ unseen seen cs
unfolding unseen
unseen_mono c seen [] = omega arith
unseen_mono c seen (d ∷ cs) = elim (Bool-cases (str_mem d seen)) [
  | inl e ↦ elim (Bool-cases (str_eq d c)) [
    | inl f ↦ rw (e, f) (unseen_mono c seen cs)
    | inr f ↦ rw (e, f) (unseen_mono c seen cs)
  ]
  | inr e ↦ elim (Bool-cases (str_eq d c)) [
    | inl f ↦ rw (e, f) (omega (arith, unseen_mono c seen cs))
    | inr f ↦ rw (e, f) (omega (arith, unseen_mono c seen cs))
  ]
]

unseen_nil : (cs : List Str) → unseen [] cs ≡ length cs
unfolding unseen
unseen_nil [] = refl
unseen_nil (c ∷ cs) = ap suc (unseen_nil cs)

-- A new cursor leaves fewer unseen ones.
unseen_less :
    (c : Str) (seen cs : List Str)
    → str_mem c cs ≡ true
    → str_mem c seen ≡ false
    → unseen (c ∷ seen) cs < unseen seen cs
unfolding unseen
unseen_less c seen [] h n = cc
unseen_less c seen (d ∷ cs) h n = elim (Bool-cases (str_eq c d)) [
  | inl q ↦
      rw (← (str_eq_iff c d).0 q) (rw (str_eq_refl c, n) (omega (arith, unseen_mono c seen cs)))
  | inr q ↦
      let less = unseen_less c seen cs (ground (arith, h, q)) n in
      elim (Bool-cases (str_mem d seen)) [
        | inl e ↦ elim (Bool-cases (str_eq d c)) [ inl f ↦ rw (e, f) less | inr f ↦ rw (e, f) less ]
        | inr e ↦ elim (Bool-cases (str_eq d c)) [
          | inl f ↦ rw (e, f) (omega (arith, less))
          | inr f ↦ rw (e, f) (omega (arith, less))
        ]
      ]
]

-- The API gives cursors of one finite list only, whatever its state.
unfoldable pub CursorsIn {ℓ} : {W : Type ℓ} → ListPage W → List Str → Type ℓ
CursorsIn {W = W} list_page cs =
    (after : Option Str) (w w' : W) (page : Page) (c : Str)
    → list_page after w ≡ (ok page, w')
    → next_cursor page.next ≡ some c
    → str_mem c cs ≡ true

module _ {ℓ} {W : Type ℓ} (list_page : ListPage W) (cs : List Str)
    (fin : CursorsIn list_page cs) where
  answer_ends :
      (again : Option Str → List Str → List Str → W → Option (Result (List Str) × W)) (n : ℕ)
      (after : Option Str) (seen databases : List Str) (w : W)
      → unseen seen cs < suc n
      → ((c : Str) (seen' databases' : List Str) (w' : W)
          → unseen seen' cs < n
          → again (some c) seen' databases' w' ≢ none)
      → (r : Result Page) (w' : W) → list_page after w ≡ (r, w')
      → page_answer again seen databases (r, w') ≢ none
  unfolding page_answer go_on CursorsIn
  answer_ends again n after seen databases w h ih (err e) w' q = λ k. cc k
  answer_ends again n after seen databases w h ih (ok page) w' q =
      elim (Option-cases (next_cursor page.next)) [
        | inl e ↦ rw e (λ k. cc k)
        | inr (c, e) ↦ elim (Bool-cases (str_mem c seen)) [
          | inl s ↦ rw (e, s) (λ k. cc k)
          | inr s ↦
              rw (e, s)
                (ih c (c ∷ seen) (databases ++ page.databases) w'
                  (omega (arith, h, unseen_less c seen cs (fin after w w' page c q e) s)))
        ]
      ]

  list_ends :
      (fuel : ℕ) (after : Option Str) (seen databases : List Str) (w : W)
      → unseen seen cs < fuel
      → list_from list_page fuel after seen databases w ≢ none
  unfolding list_from
  list_ends zero after seen databases w h = absurd (omega (arith, h))
  list_ends (suc fuel) after seen databases w h =
      answer_ends (list_from list_page fuel) fuel after seen databases w h
        (λ c seen' databases' w' l. list_ends fuel (some c) seen' databases' w' l)
        (list_page after w).0 (list_page after w).1 refl

-- If the cursors of the API come from a finite list, the loop ends, even where the API repeats a
-- cursor or runs in a circle: one turn more than there are cursors is enough.
pub list_service_databases_ends {ℓ} :
    {W : Type ℓ} (list_page : ListPage W) (cs : List Str) (w : W)
    → CursorsIn list_page cs
    → list_service_databases list_page (suc (length cs)) w ≢ none
unfolding list_service_databases
list_service_databases_ends list_page cs w fin =
    list_ends list_page cs fin (suc (length cs)) none [] [] w (omega (arith, unseen_nil cs))

-- The databases of all pages from a cursor on, up to the first page that has no next one.
pub data Listed {ℓ} {W : Type ℓ} (list_page : ListPage W)
    : Option Str → W → List Str → W → Type ℓ where
  last_page :
      (after : Option Str) (w w' : W) (page : Page)
      → list_page after w ≡ (ok page, w')
      → next_cursor page.next ≡ none
      → Listed list_page after w page.databases w'
  more :
      (after : Option Str) (w w' w'' : W) (page : Page) (c : Str) (rest : List Str)
      → list_page after w ≡ (ok page, w')
      → next_cursor page.next ≡ some c
      → Listed list_page (some c) w' rest w''
      → Listed list_page after w (page.databases ++ rest) w''

-- A result of the loop: what was collected before, and the list from the cursor on.
Completes {ℓ} : {W : Type ℓ} → ListPage W → Option Str → W → List Str → List Str → W → Type ℓ
Completes list_page after w databases found w' =
    (rest : List Str) × (found ≡ databases ++ rest) × Listed list_page after w rest w'

repeated_lem {ℓ} :
    {W : Type ℓ} {e : Error} {b : List Str} {w w' : W}
    → ◌≡◌ {A = Option (Result (List Str) × W)} (some (err e, w)) (some (ok b, w'))
    → ⊥
repeated_lem h = cc

found_eq {ℓ} :
    {W : Type ℓ} {a b : List Str} {w w' : W}
    → ◌≡◌ {A = Option (Result (List Str) × W)} (some (ok a, w)) (some (ok b, w'))
    → (a ≡ b) × (w ≡ w')
found_eq h = (cc, cc)

module _ {ℓ} {W : Type ℓ} (list_page : ListPage W)
    (again : Option Str → List Str → List Str → W → Option (Result (List Str) × W)) where
  next_complete :
      (after : Option Str) (seen databases : List Str) (w w' w'' : W) (found : List Str)
      (page : Page)
      → ((c : Str) (seen' databases' : List Str) (w' : W)
          → again (some c) seen' databases' w' ≡ some (ok found, w'')
          → Completes list_page (some c) w' databases' found w'')
      → list_page after w ≡ (ok page, w')
      → (o : Option Str) → next_cursor page.next ≡ o
      → go_on again seen (databases ++ page.databases) o w' ≡ some (ok found, w'')
      → Completes list_page after w databases found w''
  unfolding go_on Completes
  next_complete after seen databases w w' w'' found page ih q none e h =
      let (a, b) = found_eq h in rw (← b) (page.databases, sym a, last_page after w w' page q e)
  next_complete after seen databases w w' w'' found page ih q (some c) e h =
      elim (Bool-cases (str_mem c seen)) [
        | inl s ↦ absurd (repeated_lem (rw s at h))
        | inr s ↦
            let (rest, f, l) = ih c (c ∷ seen) (databases ++ page.databases) w' (rw s at h) in
            (
              page.databases ++ rest,
              f ∙ append_assoc databases page.databases rest,
              more after w w' w'' page c rest q e l,
            )
      ]

  answer_complete :
      (after : Option Str) (seen databases : List Str) (w w'' : W) (found : List Str)
      → ((c : Str) (seen' databases' : List Str) (w' : W)
          → again (some c) seen' databases' w' ≡ some (ok found, w'')
          → Completes list_page (some c) w' databases' found w'')
      → (r : Result Page) (w' : W) → list_page after w ≡ (r, w')
      → page_answer again seen databases (r, w') ≡ some (ok found, w'')
      → Completes list_page after w databases found w''
  unfolding page_answer
  answer_complete after seen databases w w'' found ih (err e) w' q h = cc
  answer_complete after seen databases w w'' found ih (ok page) w' q h =
      next_complete after seen databases w w' w'' found page ih q (next_cursor page.next) refl h

module _ {ℓ} {W : Type ℓ} (list_page : ListPage W) where
  list_complete :
      (fuel : ℕ) (after : Option Str) (seen databases : List Str) (w w' : W) (found : List Str)
      → list_from list_page fuel after seen databases w ≡ some (ok found, w')
      → Completes list_page after w databases found w'
  unfolding list_from
  list_complete zero after seen databases w w' found h = cc
  list_complete (suc fuel) after seen databases w w' found h =
      answer_complete list_page (list_from list_page fuel) after seen databases w w' found
        (λ c seen' databases' w1 k. list_complete fuel (some c) seen' databases' w1 w' found k)
        (list_page after w).0 (list_page after w).1 refl h

-- A list that the loop gives is not a part: it is the databases of every page, from the first to the
-- one without a next page.
pub list_service_databases_complete {ℓ} :
    {W : Type ℓ} (list_page : ListPage W) (fuel : ℕ) (w w' : W) (found : List Str)
    → list_service_databases list_page fuel w ≡ some (ok found, w')
    → Listed list_page none w found w'
unfolding list_service_databases Completes
list_service_databases_complete list_page fuel w w' found h =
    let (rest, e, l) = list_complete list_page fuel none [] [] w w' found h in rw e l
