-- ===== src/UserConfigDiff/Defaults.antt =====
-- About `IsDefaultIPFilterList` (internal/sdkprovider/userconfig/diff/diff.go).
use terraform_provider_aiven.Prelude.{
  suc, ◌≡◌, ◌⊎◌, ◌↔◌, inl, inr, refl, sym, ap, ◌∙◌, arith, Bool, true, false, ◌||◌, Option, none,
  some, List, [], ◌∷◌, Bool-cases, Option-cases, and_split, Str, str_eq, str_eq_iff, str_eq_refl,
  bytes, ◌≢◌, length,
}
use terraform_provider_aiven.UserConfigDiff.{
  Value, Fields, text, object, other, nil, no_fields, field, cons_normal, normalize_ip_filter,
  normalize_network, normalize_list, str_leb, insert, sort, list_eq, any_v4, any_v6,
  is_default_ip_filter_list,
}

list_eq_sound : (k l : List Str) → list_eq k l ≡ true → k ≡ l
unfolding list_eq
list_eq_sound [] [] h = refl
list_eq_sound [] (t ∷ l) h = cc
list_eq_sound (s ∷ k) [] h = cc
list_eq_sound (s ∷ k) (t ∷ l) h =
    let (p, q) = and_split (str_eq s t) (list_eq k l) h in
    cc ((str_eq_iff s t).0 p, list_eq_sound k l q)

length-insert : (s : Str) (l : List Str) → length (insert s l) ≡ suc (length l)
unfolding insert
length-insert s [] = refl
length-insert s (t ∷ l) = elim (Bool-cases (str_leb s t)) [
  | inl e ↦ rw e refl
  | inr e ↦ rw e (ap suc (length-insert s l))
]

length-sort : (l : List Str) → length (sort l) ≡ length l
unfolding sort
length-sort [] = refl
length-sort (s ∷ l) = length-insert s (sort l) ∙ ap suc (length-sort l)

-- The default filters in either order.
pub data IsDefault : List Str → Type 0 where
  v4 : IsDefault (any_v4 ∷ [])
  v4_v6 : IsDefault (any_v4 ∷ any_v6 ∷ [])
  v6_v4 : IsDefault (any_v6 ∷ any_v4 ∷ [])

sort_two : (a b : Str) → (sort (a ∷ b ∷ []) ≡ a ∷ b ∷ []) ⊎ (sort (a ∷ b ∷ []) ≡ b ∷ a ∷ [])
unfolding sort insert
sort_two a b = elim (Bool-cases (str_leb a b)) [ inl e ↦ inl (rw e refl) | inr e ↦ inr (rw e refl) ]

sort_one : (a : Str) → sort (a ∷ []) ≡ a ∷ []
unfolding sort insert
sort_one a = refl

head : {a b : Str} → (a ∷ []) ≡ (b ∷ []) → a ≡ b
head h = cc

heads : (a b c d : Str) → (a ∷ b ∷ []) ≡ (c ∷ d ∷ []) → (a ≡ c) × (b ≡ d)
heads a b c d h = (cc, cc)

one-IsDefault : (l : List Str) → sort l ≡ any_v4 ∷ [] → IsDefault l
one-IsDefault [] h = absurd (omega (arith, length-sort [], ap length h))
one-IsDefault (a ∷ []) h = let e : a ≡ any_v4 = head (sym (sort_one a) ∙ h) in rw e v4
one-IsDefault (a ∷ b ∷ l) h = absurd (omega (arith, length-sort (a ∷ b ∷ l), ap length h))

two-IsDefault : (l : List Str) → sort l ≡ any_v4 ∷ any_v6 ∷ [] → IsDefault l
two-IsDefault [] h = absurd (omega (arith, length-sort [], ap length h))
two-IsDefault (a ∷ []) h = absurd (omega (arith, length-sort (a ∷ []), ap length h))
two-IsDefault (a ∷ b ∷ []) h = elim (sort_two a b) [
  | inl e ↦ let (p, q) = heads a b any_v4 any_v6 (sym e ∙ h) in rw (p, q) v4_v6
  | inr e ↦ let (p, q) = heads b a any_v4 any_v6 (sym e ∙ h) in rw (p, q) v6_v4
]
two-IsDefault (a ∷ b ∷ c ∷ l) h = absurd (omega (arith, length-sort (a ∷ b ∷ c ∷ l), ap length h))

is_default : List Str → Bool
is_default norm =
    list_eq (sort norm) (any_v4 ∷ []) || (list_eq (sort norm) (any_v4 ∷ any_v6 ∷ []) || false)

is_default_sound : (norm : List Str) → is_default norm ≡ true → IsDefault norm
unfolding is_default
is_default_sound norm h = elim (Bool-cases (list_eq (sort norm) (any_v4 ∷ []))) [
  | inl e ↦ one-IsDefault norm (list_eq_sound (sort norm) _ e)
  | inr e ↦ elim (Bool-cases (list_eq (sort norm) (any_v4 ∷ any_v6 ∷ []))) [
    | inl e' ↦ two-IsDefault norm (list_eq_sound (sort norm) _ e')
    | inr e' ↦ cc
  ]
]

is_default_complete : (norm : List Str) → IsDefault norm → is_default norm ≡ true
unfolding is_default sort insert str_leb list_eq str_eq
is_default_complete _ v4 = refl
is_default_complete _ v4_v6 = refl
is_default_complete _ v6_v4 = refl

of_norm : Option (List Str) → Bool
of_norm none = false
of_norm (some norm) = is_default norm

of_norm_eq : (l : List Value) → is_default_ip_filter_list l ≡ of_norm (normalize_list l)
unfolding of_norm is_default is_default_ip_filter_list
of_norm_eq l = elim (Option-cases (normalize_list l)) [
  | inl e ↦ rw (is_default_ip_filter_list, e) refl
  | inr (norm, e) ↦ rw (is_default_ip_filter_list, e) refl
]

of_norm_sound :
    (o : Option (List Str))
    → of_norm o ≡ true
    → (norm : List Str) × (o ≡ some norm) × IsDefault norm
unfolding of_norm
of_norm_sound none h = cc
of_norm_sound (some norm) h = (norm, refl, is_default_sound norm h)

-- The first field of this name holds this value.
pub data Holds (name : Str) : Fields → Value → Type 0 where
  here : (v : Value) (m : Fields) → Holds name (field name v m) v
  later :
      (key : Str) (u v : Value) (m : Fields)
      → key ≢ name
      → Holds name m v
      → Holds name (field key u m) v

-- A string is a filter for itself, and a map is the filter that its network is.
pub data Filters : Value → Str → Type 0 where
  of_text : (s : Str) → Filters (text s) s
  of_network :
      (m : Fields) (v : Value) (s : Str)
      → Holds (bytes "network") m v
      → Filters v s
      → Filters (object m) s

pub data FilterAll : List Value → List Str → Type 0 where
  no_filters : FilterAll [] []
  filter_more :
      (v : Value) (s : Str) (l : List Value) (norm : List Str)
      → Filters v s
      → FilterAll l norm
      → FilterAll (v ∷ l) (s ∷ norm)

mutual
  unfolding normalize_ip_filter normalize_network

  normalize-Filters : (v : Value) (s : Str) → normalize_ip_filter v ≡ some s → Filters v s
  normalize-Filters (text t) s h = let e : t ≡ s = cc in rw e (of_text s)
  normalize-Filters (object m) s h = let (v, p, q) = network-Filters m s h in of_network m v s p q
  normalize-Filters other s h = absurd cc
  normalize-Filters nil s h = absurd cc

  network-Filters :
      (m : Fields) (s : Str)
      → normalize_network m ≡ some s
      → (v : Value) × Holds (bytes "network") m v × Filters v s
  network-Filters no_fields s h = absurd cc
  network-Filters (field key v m) s h = elim (Bool-cases (str_eq key (bytes "network"))) [
    | inl e ↦
        let k = (str_eq_iff key (bytes "network")).0 e in
        (v, rw k (here v m), normalize-Filters v s (rw e at h))
    | inr e ↦
        let (u, p, q) = network-Filters m s (rw e at h) in
        (u, later key v u m (λ k. let x = (str_eq_iff key (bytes "network")).1 k in cc) p, q)
  ]

Holds-network :
    (m : Fields) (v : Value)
    → Holds (bytes "network") m v
    → normalize_network m ≡ normalize_ip_filter v
unfolding normalize_network
Holds-network _ _ (here v m) = rw str_eq_refl refl
Holds-network _ _ (later key u v m n p) = elim (Bool-cases (str_eq key (bytes "network"))) [
  | inl e ↦ absurd (n ((str_eq_iff key (bytes "network")).0 e))
  | inr e ↦ rw e (Holds-network m v p)
]

Filters-normalize : (v : Value) (s : Str) → Filters v s → normalize_ip_filter v ≡ some s
unfolding normalize_ip_filter
Filters-normalize _ _ (of_text s) = refl
Filters-normalize _ _ (of_network m v s p q) = Holds-network m v p ∙ Filters-normalize v s q

cons_normal-some :
    (a : Option Str) (b : Option (List Str)) (norm : List Str)
    → cons_normal a b ≡ some norm
    → (s : Str) × (l : List Str) × (a ≡ some s) × (b ≡ some l) × (norm ≡ s ∷ l)
cons_normal-some (some s) (some l) norm h = (s, l, refl, refl, cc)
cons_normal-some (some s) none norm h = absurd cc
cons_normal-some none b norm h = absurd cc

normalize_list-FilterAll :
    (l : List Value) (norm : List Str) → normalize_list l ≡ some norm → FilterAll l norm
unfolding normalize_list
normalize_list-FilterAll [] norm h = let e : norm ≡ [] = cc in rw e no_filters
normalize_list-FilterAll (v ∷ l) norm h =
    let (s, k, p, q, e) = cons_normal-some (normalize_ip_filter v) (normalize_list l) norm h in
    rw e (filter_more v s l k (normalize-Filters v s p) (normalize_list-FilterAll l k q))

FilterAll-normalize_list :
    (l : List Value) (norm : List Str) → FilterAll l norm → normalize_list l ≡ some norm
unfolding normalize_list
FilterAll-normalize_list _ _ no_filters = refl
FilterAll-normalize_list _ _ (filter_more v s l norm p q) =
    rw (Filters-normalize v s p, FilterAll-normalize_list l norm q) refl

-- The filters count as the default exactly if each of them is a string, or a map whose network is such
-- a filter in turn, and these are 0.0.0.0/0 alone or with ::/0, in either order.
pub is_default_ip_filter_list_lem :
    (l : List Value)
    → (is_default_ip_filter_list l ≡ true) ↔ ((norm : List Str) × FilterAll l norm × IsDefault norm)
unfolding of_norm
is_default_ip_filter_list_lem l = (
  (λ h.
      let (norm, e, d) = of_norm_sound (normalize_list l) (sym (of_norm_eq l) ∙ h) in
      (norm, normalize_list-FilterAll l norm e, d)),
  λ h.
      of_norm_eq l
      ∙ (ap of_norm (FilterAll-normalize_list l h.0 h.1) ∙ is_default_complete h.0 h.2),
)
