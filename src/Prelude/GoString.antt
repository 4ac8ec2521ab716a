-- ===== src/Prelude/GoString.antt =====
-- Go strings as lists of bytes, with the operations of the packages `strings` and `path/filepath`
-- that the provider calls.
use Prim.Native.Char.{code}
use Prim.Native.String.{String}
use Prim.Native.Nat.{ℕ, zero, suc, ◌+◌, ◌/◌, ◌%◌}
use mathlib.Core.Path.{◌≡◌, refl}
use mathlib.Core.Logic.{◌↔◌}
use mathlib.Core.Bool.{Bool, true, false, ◌&&◌, ◌||◌}
use mathlib.Core.List.{List, [], ◌∷◌, ◌++◌, append_assoc}
use native.Mathlib.Omega.{arith}
use terraform_provider_aiven.Prelude.Tests.{ltb, if◌then◌else◌, ◌==◌, ==_iff, and_split}
use terraform_provider_aiven.Prelude.Lists.{any}

abbrev pub Str : Type 0
Str = List ℕ

-- The bytes of an ASCII literal.
abbrev pub bytes : String → Str
bytes String.[] = []
bytes (String.◌∷◌ c s) = code c ∷ bytes s

-- `s == t`
unfoldable pub str_eq : Str → Str → Bool
str_eq [] [] = true
str_eq [] (d ∷ t) = false
str_eq (c ∷ s) [] = false
str_eq (c ∷ s) (d ∷ t) = c == d && str_eq s t

pub str_eq_refl : (s : Str) → str_eq s s ≡ true
unfolding str_eq
str_eq_refl [] = refl
str_eq_refl (c ∷ s) = ground (arith, str_eq_refl s)

str_eq_sound : (s t : Str) → str_eq s t ≡ true → s ≡ t
unfolding str_eq
str_eq_sound [] [] h = refl
str_eq_sound [] (d ∷ t) h = cc
str_eq_sound (c ∷ s) [] h = cc
str_eq_sound (c ∷ s) (d ∷ t) h =
    let (p, q) = and_split (c == d) (str_eq s t) h in cc ((==_iff c d).0 p, str_eq_sound s t q)

pub str_eq_iff : (s t : Str) → (str_eq s t ≡ true) ↔ (s ≡ t)
str_eq_iff s t = (str_eq_sound s t, λ e. rw e (str_eq_refl t))

-- `s == ""`
abbrev pub is_empty : Str → Bool
is_empty [] = true
is_empty (c ∷ s) = false

-- `strings.HasPrefix(s, p)`
unfoldable pub has_prefix : Str → Str → Bool
has_prefix s [] = true
has_prefix [] (d ∷ p) = false
has_prefix (c ∷ s) (d ∷ p) = c == d && has_prefix s p

pub has_prefix-append : (p s : Str) → has_prefix (p ++ s) p ≡ true
unfolding has_prefix
has_prefix-append [] [] = refl
has_prefix-append [] (c ∷ s) = refl
has_prefix-append (c ∷ p) s = ground (arith, has_prefix-append p s)

-- `strings.HasSuffix(s, p)`
unfoldable pub has_suffix : Str → Str → Bool
unfolding str_eq
has_suffix [] p = str_eq [] p
has_suffix (c ∷ s) p = str_eq (c ∷ s) p || has_suffix s p

-- `strings.Contains(s, p)`
unfoldable pub contains : Str → Str → Bool
unfolding has_prefix
contains [] p = has_prefix [] p
contains (c ∷ s) p = has_prefix (c ∷ s) p || contains s p

-- `slices.Contains(l, s)`
abbrev pub str_mem : Str → List Str → Bool
str_mem s l = any (str_eq s) l

-- The separator in front of each part.
abbrev pub join_tail : Str → List Str → Str
join_tail sep [] = []
join_tail sep (p ∷ ps) = sep ++ (p ++ join_tail sep ps)

-- `strings.Join(parts, sep)`
unfoldable pub join : Str → List Str → Str
join sep [] = []
join sep (p ∷ ps) = p ++ join_tail sep ps

-- Joining a joined head with more parts joins them all.
pub join-join :
    (sep p q r : Str) → join sep (join sep (p ∷ q ∷ []) ∷ r ∷ []) ≡ join sep (p ∷ q ∷ r ∷ [])
unfolding join
join-join sep p q r = simp append_assoc

abbrev digits_onto : ℕ → ℕ → Str → Str
digits_onto zero n rest = rest
digits_onto (suc fuel) n rest =
    let longer = digits_onto fuel (n / 10) ((48 + n % 10) ∷ rest) in
    if ltb n 10 then (48 + n) ∷ rest else longer

-- `strconv.Itoa(n)` of a number that is not negative. A number has no more digits than its value.
unfoldable pub itoa : ℕ → Str
itoa n = digits_onto (suc n) n []

itoa_example : itoa 2026 ≡ bytes "2026"
unfolding itoa
itoa_example = refl

pub has_prefix_sound : (s p : Str) → has_prefix s p ≡ true → (r : Str) × (s ≡ p ++ r)
unfolding has_prefix
has_prefix_sound s [] h = (s, refl)
has_prefix_sound [] (d ∷ p) h = cc
has_prefix_sound (c ∷ s) (d ∷ p) h =
    let (a, b) = and_split (c == d) (has_prefix s p) h in
    let (r, e) = has_prefix_sound s p b in (r, cc ((==_iff c d).0 a, e))

-- Some byte of the text is a slash.
abbrev pub has_slash : Str → Bool
has_slash s = any (λ c. c == 47) s
