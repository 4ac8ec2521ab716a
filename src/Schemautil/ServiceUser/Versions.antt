-- ===== src/Schemautil/ServiceUser/Versions.antt =====
-- About the versions of write-only passwords over the life of a resource.
use terraform_provider_aiven.Prelude.{
  ℕ, ◌≤◌, ◌<◌, ◌≡◌, arith, not, none, List, [], ◌∷◌, ◌==◌, All, Str,
}
use terraform_provider_aiven.Schemautil.ServiceUser.{check_version}

-- Each change of the version, to the next one of the list, passes the check.
unfoldable pub Accepted : Str → ℕ → List ℕ → Type 0
Accepted field v [] = Unit
Accepted field v (n ∷ ns) = (check_version field (not (v == n)) v n ≡ none) × Accepted field n ns

abbrev pub last_version : ℕ → List ℕ → ℕ
last_version v [] = v
last_version v (n ∷ ns) = last_version n ns

check_version-le :
    (field : Str) (old new : ℕ)
    → 0 < old
    → 0 < new
    → check_version field (not (old == new)) old new ≡ none
    → old ≤ new
unfolding check_version
check_version-le field old new p q h = ground arith

-- As long as a version is set, it never falls, over any number of changes that pass the check.
pub versions_rise :
    (field : Str) (v : ℕ) (ns : List ℕ)
    → 0 < v
    → All (λ n. 0 < n) ns
    → Accepted field v ns
    → v ≤ last_version v ns
unfolding Accepted
versions_rise field v [] p h a = omega arith
versions_rise field v (n ∷ ns) p h a =
    omega (arith, check_version-le field v n p h.0 a.0, versions_rise field n ns h.0 h.1 a.1)
