-- ===== src/Schemautil/PlanChecks/Rules.antt =====
-- About the rules on tags and static ips (internal/schemautil/custom_diff.go).
use terraform_provider_aiven.Prelude.{
  ◌≡◌, ◌↔◌, ◌⊎◌, inl, inr, refl, arith, true, false, Bool-cases, none, List, [], ◌∷◌, All, Str,
  str_eq, str_eq_iff, str_eq_refl, str_mem, is_empty,
}
use terraform_provider_aiven.Schemautil.StaticIps.{StaticIp}
use terraform_provider_aiven.Schemautil.PlanChecks.{unique_from, check_unique_tag, find_elsewhere}

-- No key stands twice.
pub Distinct : List Str → Type 0
Distinct [] = Unit
Distinct (k ∷ ks) = (str_mem k ks ≡ false) × Distinct ks

str_eq_sym : (s t : Str) → str_eq s t ≡ str_eq t s
str_eq_sym s t = elim (Bool-cases (str_eq s t)) [
  | inl e ↦ rw ((str_eq_iff s t).0 e) refl
  | inr e ↦ elim (Bool-cases (str_eq t s)) [
    | inl f ↦ rw ((str_eq_iff t s).0 f) refl
    | inr f ↦ rw (e, f) refl
  ]
]

-- No key was seen.
abbrev New : List Str → List Str → Type 0
New seen ks = All (λ k. str_mem k seen ≡ false) ks

New-cons :
    (k : Str) (seen ks : List Str) → New (k ∷ seen) ks ↔ ((str_mem k ks ≡ false) × New seen ks)
New-cons k seen [] = (λ h. (refl, tt), λ h. tt)
New-cons k seen (x ∷ ks) =
    let (f, g) = New-cons k seen ks in
    let s = str_eq_sym k x in
    (
      (λ h. let (a, b) = f h.1 in (ground (arith, s, a, h.0), (ground (arith, h.0), b))),
      (λ h. (ground (arith, s, h.0, h.1.0), g (ground (arith, h.0), h.1.1))),
    )

unique_from_lem : (seen ks : List Str) → (unique_from seen ks ≡ none) ↔ (New seen ks × Distinct ks)
unfolding unique_from Distinct
unique_from_lem seen [] = (λ h. (tt, tt), λ h. refl)
unique_from_lem seen (k ∷ ks) =
    let (f, g) = unique_from_lem (k ∷ seen) ks in
    let (a, b) = New-cons k seen ks in
    elim (Bool-cases (str_mem k seen)) [
      | inl e ↦ rw e (λ h. cc, λ h. cc (h.0.0))
      | inr e ↦ rw e (
        (λ h. let (n, d) = f h in let (x, y) = a n in ((refl, y), (x, d))),
        (λ h. g (b (h.1.0, h.0.1), h.1.1)),
      )
    ]

-- The tags pass exactly if no key stands twice among them.
check_unique_tag_lem : (ks : List Str) → (check_unique_tag ks ≡ none) ↔ Distinct ks
unfolding check_unique_tag
check_unique_tag_lem ks =
    let (f, g) = unique_from_lem [] ks in (λ h. (f h).1, λ h. g (none_seen ks, h))
  where
    none_seen : (ks : List Str) → New [] ks
    none_seen [] = tt
    none_seen (k ∷ ks) = (refl, none_seen ks)

-- The address is not planned, or no service has it, or this one.
pub IsFree : Str → List Str → StaticIp → Type 0
IsFree service planned ip =
    (str_mem ip.address_id planned ≡ false)
    ⊎ ((is_empty ip.service_name ≡ true) ⊎ (ip.service_name ≡ service))

not_free : (s t : Str) → str_eq s t ≡ false → (true ≡ false) ⊎ ((false ≡ true) ⊎ (s ≡ t)) → ⊥
not_free s t q (inl h) = cc
not_free s t q (inr (inl h)) = cc
not_free s t q (inr (inr h)) = cc (q, str_eq_refl t, h)

-- The search finds nothing exactly if each static ip of the project that is planned belongs to no
-- service or to this one.
pub find_elsewhere_lem :
    (service : Str) (planned : List Str) (ips : List StaticIp)
    → (find_elsewhere service planned ips ≡ none) ↔ All (IsFree service planned) ips
unfolding find_elsewhere IsFree
find_elsewhere_lem service planned [] = (λ h. tt, λ h. refl)
find_elsewhere_lem service planned (ip ∷ ips) =
    let (f, g) = find_elsewhere_lem service planned ips in
    elim (Bool-cases (str_mem ip.address_id planned)) [
      | inr m ↦ elim (Bool-cases (is_empty ip.service_name)) [
        | inl e ↦ rw (e, m) (λ h. (inl refl, f h), λ h. g h.1)
        | inr e ↦ elim (Bool-cases (str_eq ip.service_name service)) [
          | inl q ↦ rw (e, q, m) (λ h. (inl refl, f h), λ h. g h.1)
          | inr q ↦ rw (e, q, m) (λ h. (inl refl, f h), λ h. g h.1)
        ]
      ]
      | inl m ↦ elim (Bool-cases (is_empty ip.service_name)) [
        | inl e ↦ rw (e, m) (λ h. (inr (inl refl), f h), λ h. g h.1)
        | inr e ↦ elim (Bool-cases (str_eq ip.service_name service)) [
          | inl q ↦
              rw (e, q, m)
                (λ h. (inr (inr ((str_eq_iff ip.service_name service).0 q)), f h), λ h. g h.1)
          | inr q ↦ rw (e, q, m) (λ h. cc, λ h. absurd (not_free ip.service_name service q h.0))
        ]
      ]
    ]
