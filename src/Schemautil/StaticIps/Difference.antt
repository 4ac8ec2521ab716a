-- ===== src/Schemautil/StaticIps/Difference.antt =====
-- About `diffStaticIps` (internal/schemautil/static_ips.go).
use terraform_provider_aiven.Prelude.{
  ◌≡◌, refl, ap, ◌∙◌, inl, inr, arith, Bool, not, ◌&&◌, ◌||◌, Bool-cases, List, [], ◌∷◌, ◌++◌, any,
  keep, Str, str_eq, str_eq_iff,
}
use terraform_provider_aiven.Schemautil.StaticIps.{missing_from, diff_static_ips}

-- `x` is one of `xs`.
unfoldable pub has : Str → List Str → Bool
has x xs = any (λ y. str_eq y x) xs

has-append : (x : Str) (xs ys : List Str) → has x (xs ++ ys) ≡ (has x xs || has x ys)
unfolding has
has-append x [] ys = refl
has-append x (y ∷ xs) ys = ground (arith, has-append x xs ys)

has-keep : (p : Str → Bool) (x : Str) (xs : List Str) → has x (keep p xs) ≡ (has x xs && p x)
unfolding has
has-keep p x [] = refl
has-keep p x (y ∷ xs) = elim (Bool-cases (str_eq y x)) [
  | inl e ↦ let q : y ≡ x = (str_eq_iff y x).0 e in ground (arith, has-keep p x xs, ap p q)
  | inr e ↦ ground (arith, has-keep p x xs)
]

pub has-missing_from :
    (ys xs : List Str) (x : Str) → has x (missing_from ys xs) ≡ (has x xs && not (has x ys))
unfolding missing_from has
has-missing_from ys xs x = has-keep (λ z. not (any (λ y. str_eq y z) ys)) x xs

both_ways : (h w : Bool) → ((h && not (h && not w)) || (w && not h)) ≡ w
both_ways h w = ground arith

-- What the service has after the removed addresses are dissociated and the added ones assigned.
pub apply_difference : List Str × List Str → List Str → List Str
apply_difference (add, del) have = missing_from del have ++ add

-- Dissociating what the difference removes from what a service has, and assigning what it adds,
-- leaves the service with exactly the addresses that it is to have; what is added was not there, and
-- what is removed was there and is not wanted.
pub diff_static_ips_lem :
    (want have : List Str) (x : Str)
    → (has x (apply_difference (diff_static_ips want have) have) ≡ has x want)
      × (has x (diff_static_ips want have).0 ≡ (has x want && not (has x have)))
      × (has x (diff_static_ips want have).1 ≡ (has x have && not (has x want)))
unfolding diff_static_ips apply_difference
diff_static_ips_lem want have x =
    let a = has-missing_from have want x in
    let d = has-missing_from want have x in
    (
      has-append x (missing_from (missing_from want have) have) (missing_from have want)
          ∙ rw (has-missing_from (missing_from want have) have x, a, d)
              (both_ways (has x have) (has x want)),
      a,
      d,
    )
