-- ===== src/Schemautil/Wait/Once.antt =====
-- wait.go, from line 358: calls until an object is not found, and answers that are kept by key. A
-- call that never returns is `none`. Calls of one key wait for each other, so they are a sequence.
use terraform_provider_aiven.Prelude.{
  ◌≡◌, refl, sym, ap, ◌∙◌, Option, none, some, if◌then◌else◌, Str, str_eq, str_eq_refl,
}
use terraform_provider_aiven.Common.{Error, Result, ClientErrors, omit_not_found}

-- What the calls of `retryGo.Do` retry: the error of the function, unless it says not found.
unfoldable pub until_not_found {ℓ} :
    {W : Type ℓ} → ClientErrors → (W → Option Error × W) → W → Option Error × W
until_not_found lib f w = let (e, w') = f w in (omit_not_found lib e, w')

abbrev pub Results {ℓ} : Type ℓ → Type ℓ
Results T = Str → Option (Result T)

unfoldable pub store_result {ℓ} : {T : Type ℓ} → Str → Result T → Results T → Results T
store_result k r m k' = if str_eq k k' then some r else m k'

unfoldable pub forget {ℓ} : {T : Type ℓ} → Str → Results T → Results T
forget k m k' = if str_eq k k' then none else m k'

-- The answer of a call whose result was not there, and the maps after it.
unfoldable pub keep_answer {ℓ κ} :
    {T : Type ℓ} {W : Type κ}
    → Str
    → Results T
    → Option (Result T × W)
    → Option (Result T × Results T × W)
keep_answer k m none = none
keep_answer k m (some (r, w)) = some (r, store_result k r m, w)

unfoldable pub do_from {ℓ κ} :
    {T : Type ℓ} {W : Type κ}
    → (W → Option (Result T × W))
    → Str
    → Results T
    → W
    → Option (Result T)
    → Option (Result T × Results T × W)
do_from f k m w (some r) = some (r, m, w)
do_from f k m w none = keep_answer k m (f w)

unfoldable pub do_once {ℓ κ} :
    {T : Type ℓ} {W : Type κ}
    → (W → Option (Result T × W))
    → Str
    → Results T
    → W
    → Option (Result T × Results T × W)
do_once f k m w = do_from f k m w (m k)

store_same {ℓ} :
    {T : Type ℓ} (k : Str) (r : Result T) (m : Results T) → store_result k r m k ≡ some r
unfolding store_result
store_same k r m = rw (str_eq_refl k) refl

parts {ℓ κ ι} :
    {A : Type ℓ} {B : Type κ} {C : Type ι} {a a' : A} {b b' : B} {c c' : C}
    → ◌≡◌ {A = Option (A × B × C)} (some (a, b, c)) (some (a', b', c'))
    → (a ≡ a') × (b ≡ b')
parts h = (cc, cc)

kept {ℓ κ} :
    {T : Type ℓ} {W : Type κ} (k : Str) (m m' : Results T) (o : Option (Result T × W))
    (r : Result T) (w' : W)
    → keep_answer k m o ≡ some (r, m', w')
    → m' k ≡ some r
unfolding keep_answer
kept k m m' none r w' h = cc
kept k m m' (some (r0, w0)) r w' h =
    let (p, q) = parts h in ap (λ f. f k) (sym q) ∙ (store_same k r0 m ∙ ap some p)

stored {ℓ κ} :
    {T : Type ℓ} {W : Type κ} (f : W → Option (Result T × W)) (k : Str) (m m' : Results T)
    (w w' : W) (r : Result T) (o : Option (Result T))
    → m k ≡ o
    → do_from f k m w o ≡ some (r, m', w')
    → m' k ≡ some r
unfolding do_from
stored f k m m' w w' r (some r0) e h =
    let (p, q) = parts h in ap (λ f. f k) (sym q) ∙ (e ∙ ap some p)
stored f k m m' w w' r none e h = kept k m m' (f w) r w' h

-- The answer of a call is kept.
pub do_once-kept {ℓ κ} :
    {T : Type ℓ} {W : Type κ} (f : W → Option (Result T × W)) (k : Str) (m m' : Results T)
    (w w' : W) (r : Result T)
    → do_once f k m w ≡ some (r, m', w')
    → m' k ≡ some r
unfolding do_once
do_once-kept f k m m' w w' r h = stored f k m m' w w' r (m k) refl h

-- A kept answer is given, and nothing changes.
pub do_once_of_kept {ℓ κ} :
    {T : Type ℓ} {W : Type κ} (f : W → Option (Result T × W)) (k : Str) (m : Results T) (w : W)
    (r : Result T)
    → m k ≡ some r
    → do_once f k m w ≡ some (r, m, w)
unfolding do_once do_from
do_once_of_kept f k m w r h = ap (do_from f k m w) h

-- Once a call of a key has answered, errors included, every further call of the key gives the same
-- answer and does not run its function: the world stays as it is.
do_once_again {ℓ κ} :
    {T : Type ℓ} {W : Type κ} (f g : W → Option (Result T × W)) (k : Str) (m m' : Results T)
    (w w' : W) (r : Result T)
    → do_once f k m w ≡ some (r, m', w')
    → do_once g k m' w' ≡ some (r, m', w')
do_once_again f g k m m' w w' r h = do_once_of_kept g k m' w' r (do_once-kept f k m m' w w' r h)
