-- ===== src/ResourceId/Split.antt =====
-- About `SplitResourceID` and its versions (internal/schemautil/schemautil.go).
use mathlib.Core.List.{append-nil}
use terraform_provider_aiven.Prelude.{
  has_slash, ℕ, zero, suc, ◌+◌, ◌≡◌, ◌≢◌, ◌⊎◌, refl, sym, ◌∙◌, ap, Bool, true, false, none, some,
  List, [], ◌∷◌, ◌++◌, map, arith, inl, inr, ◌==◌, ==_iff, leb, length, length-map, Bool-cases, All,
  Str, bytes, join, if◌then◌else◌,
}
use terraform_provider_aiven.Common.{Result, ok, err}
use terraform_provider_aiven.ResourceId.{
  path_escape, build_resource_id, cut, split_n, unescape_part, split_resource_id, two_parts,
  three_parts, four_parts, five_parts, split_resource_id2, split_resource_id3, split_resource_id4,
  split_resource_id5,
}
use terraform_provider_aiven.ResourceId.Escape.{
  IsBytes, path_escape_no_slash, path_unescape-path_escape,
}

cut-append : (p s : Str) → has_slash p ≡ false → cut (p ++ b'/' ∷ s) ≡ some (p, s)
unfolding cut
cut-append [] s h = refl
cut-append (c ∷ p) s h = ground (arith, cut-append p s (ground arith))

-- Splitting a joined list of parts without slashes into as many parts gives the parts.
split_n-join :
    (p : Str) (ps : List Str)
    → All (λ q. has_slash q ≡ false) (p ∷ ps)
    → split_n (length (p ∷ ps)) (join (bytes "/") (p ∷ ps)) ≡ p ∷ ps
unfolding split_n join
split_n-join p [] h = rw append-nil refl
split_n-join p (q ∷ ps) h =
    rw (cut-append p (join (bytes "/") (q ∷ ps)) h.0, split_n)
      (ap (λ l. p ∷ l) (split_n-join q ps h.1))

escaped_no_slash :
    (ps : List Str) → All IsBytes ps → All (λ q. has_slash q ≡ false) (map path_escape ps)
escaped_no_slash [] h = tt
escaped_no_slash (p ∷ ps) h = (path_escape_no_slash p h.0, escaped_no_slash ps h.1)

unescape_part-path_escape : (p : Str) → IsBytes p → unescape_part (path_escape p) ≡ p
unfolding unescape_part
unescape_part-path_escape p h = rw (path_unescape-path_escape p h, unescape_part) refl

unescaped : (ps : List Str) → All IsBytes ps → map unescape_part (map path_escape ps) ≡ ps
unescaped [] h = refl
unescaped (p ∷ ps) h = cc (unescape_part-path_escape p h.0, unescaped ps h.1)

-- `SplitResourceID` undoes `BuildResourceID`: whatever bytes the parts hold, slashes and percent signs
-- included, splitting the id of one or more parts into as many parts gives the parts.
pub split-build :
    (p : Str) (ps : List Str)
    → All IsBytes (p ∷ ps)
    → split_resource_id (build_resource_id (p ∷ ps)) (length (p ∷ ps)) ≡ ok (p ∷ ps)
unfolding split_resource_id build_resource_id
split-build p ps h =
    let n = length (p ∷ ps) in
    let escaped = join (bytes "/") (map path_escape (p ∷ ps)) in
    let split =
      ap (λ m. split_n (suc m) escaped) (sym (length-map path_escape ps))
      ∙ split_n-join (path_escape p) (map path_escape ps) (escaped_no_slash (p ∷ ps) h) in
    let parts = ap (map unescape_part) split ∙ unescaped (p ∷ ps) h in
    rw parts (rw ((==_iff n n).1 refl) refl)

-- The number of slashes.
abbrev pub slashes : Str → ℕ
slashes [] = 0
slashes (c ∷ s) = (if c == b'/' then 1 else 0) + slashes s

abbrev pub is_ok {ℓ} : {A : Type ℓ} → Result A → Bool
is_ok (ok a) = true
is_ok (err e) = false

cut-cases :
    (s : Str)
    → ((cut s ≡ none) × (slashes s ≡ 0))
      ⊎ ((a : Str) × (b : Str) × (cut s ≡ some (a, b)) × (slashes s ≡ slashes b + 1))
unfolding cut
cut-cases [] = inl (refl, refl)
cut-cases (c ∷ s) = elim (Bool-cases (c == b'/')) [
  | inl e ↦ inr ([], s, rw e refl, rw e (omega arith))
  | inr e ↦ elim (cut-cases s) [
    | inl (p, q) ↦ inl (rw (e, p) refl, rw e (omega (arith, q)))
    | inr (a, b, p, q) ↦ inr (c ∷ a, b, rw (e, p) refl, rw e (omega (arith, q)))
  ]
]

-- An id splits into n + 1 parts exactly if it has at least n slashes.
length-split_n : (n : ℕ) (s : Str) → (length (split_n (suc n) s) == suc n) ≡ leb n (slashes s)
unfolding split_n
length-split_n zero s = ground arith
length-split_n (suc n) s = elim (cut-cases s) [
  | inl (p, q) ↦ rw (p, q, split_n) (ground arith)
  | inr (a, b, p, q) ↦ rw (p, q, split_n) (ground (arith, length-split_n n b))
]

-- `SplitResourceID` into one or more parts succeeds exactly if the id has enough slashes, and then
-- has that many parts.
pub split_succeeds_iff :
    (id : Str) (n : ℕ)
    → (is_ok (split_resource_id id (suc n)) ≡ leb n (slashes id))
      × ((parts : List Str) → split_resource_id id (suc n) ≡ ok parts → length parts ≡ suc n)
unfolding split_resource_id
split_succeeds_iff id n =
    let len = length-map unescape_part (split_n (suc n) id) in
    let eq = length-split_n n id in (ground (arith, len, eq), λ parts h. ground (arith, len, eq))

abbrev HasLength : Result (List Str) → ℕ → Type 0
HasLength r n = (l : List Str) → r ≡ ok l → length l ≡ n

two_parts_total : (r : Result (List Str)) → HasLength r 2 → two_parts r ≢ none
unfolding two_parts
two_parts_total (err e) h = λ q. cc
two_parts_total (ok []) h = absurd (omega (arith, h [] refl))
two_parts_total (ok (a ∷ [])) h = absurd (omega (arith, h (a ∷ []) refl))
two_parts_total (ok (a ∷ b ∷ l)) h = λ q. cc

three_parts_total : (r : Result (List Str)) → HasLength r 3 → three_parts r ≢ none
unfolding three_parts
three_parts_total (err e) h = λ q. cc
three_parts_total (ok []) h = absurd (omega (arith, h [] refl))
three_parts_total (ok (a ∷ [])) h = absurd (omega (arith, h (a ∷ []) refl))
three_parts_total (ok (a ∷ b ∷ [])) h = absurd (omega (arith, h (a ∷ b ∷ []) refl))
three_parts_total (ok (a ∷ b ∷ c ∷ l)) h = λ q. cc

four_parts_total : (r : Result (List Str)) → HasLength r 4 → four_parts r ≢ none
unfolding four_parts
four_parts_total (err e) h = λ q. cc
four_parts_total (ok []) h = absurd (omega (arith, h [] refl))
four_parts_total (ok (a ∷ [])) h = absurd (omega (arith, h (a ∷ []) refl))
four_parts_total (ok (a ∷ b ∷ [])) h = absurd (omega (arith, h (a ∷ b ∷ []) refl))
four_parts_total (ok (a ∷ b ∷ c ∷ [])) h = absurd (omega (arith, h (a ∷ b ∷ c ∷ []) refl))
four_parts_total (ok (a ∷ b ∷ c ∷ d ∷ l)) h = λ q. cc

five_parts_total : (r : Result (List Str)) → HasLength r 5 → five_parts r ≢ none
unfolding five_parts
five_parts_total (err e) h = λ q. cc
five_parts_total (ok []) h = absurd (omega (arith, h [] refl))
five_parts_total (ok (a ∷ [])) h = absurd (omega (arith, h (a ∷ []) refl))
five_parts_total (ok (a ∷ b ∷ [])) h = absurd (omega (arith, h (a ∷ b ∷ []) refl))
five_parts_total (ok (a ∷ b ∷ c ∷ [])) h = absurd (omega (arith, h (a ∷ b ∷ c ∷ []) refl))
five_parts_total (ok (a ∷ b ∷ c ∷ d ∷ [])) h = absurd (omega (arith, h (a ∷ b ∷ c ∷ d ∷ []) refl))
five_parts_total (ok (a ∷ b ∷ c ∷ d ∷ e ∷ l)) h = λ q. cc

-- The versions for two to five parts never index out of range.
fixed_versions_total :
    (id : Str)
    → (split_resource_id2 id ≢ none)
      × (split_resource_id3 id ≢ none)
      × (split_resource_id4 id ≢ none)
      × (split_resource_id5 id ≢ none)
unfolding split_resource_id2 split_resource_id3 split_resource_id4 split_resource_id5
fixed_versions_total id = (
  two_parts_total (split_resource_id id 2) (split_succeeds_iff id 1).1,
  three_parts_total (split_resource_id id 3) (split_succeeds_iff id 2).1,
  four_parts_total (split_resource_id id 4) (split_succeeds_iff id 3).1,
  five_parts_total (split_resource_id id 5) (split_succeeds_iff id 4).1,
)

-- The version for four parts undoes the id of four parts.
pub split_four-build :
    (a b c d : Str)
    → IsBytes a
    → IsBytes b
    → IsBytes c
    → IsBytes d
    → split_resource_id4 (build_resource_id (a ∷ b ∷ c ∷ d ∷ [])) ≡ some (ok (a, b, c, d))
unfolding split_resource_id4
split_four-build a b c d ha hb hc hd =
    ap four_parts (split-build a (b ∷ c ∷ d ∷ []) (ha, (hb, (hc, (hd, tt)))))
