-- ===== src/Schemautil/StaticIps/Ready.antt =====
-- About the tests on static ips of wait.go.
use terraform_provider_aiven.Prelude.{
  ◌≡◌, ◌≢◌, ◌↔◌, ◌⊎◌, inl, inr, refl, sym, ◌∙◌, ap, arith, Bool, true, false, Bool-cases, List, [],
  ◌∷◌, All, Str, str_eq, str_eq_iff, if◌then◌else◌, and_split, ◌&&◌, any, ◌||◌,
}
use terraform_provider_aiven.Common.{Result, ok, err}
use terraform_provider_aiven.Schemautil.StaticIps.{
  StaticIp, StaticIpList, ResourceData, available, assigned, store, lookup, collect_ips, all_ready,
  static_ips_ready, static_ips_ready_on, still_assigned, disassociated_after_deletion_on,
  static_ips_disassociated_after_service_deletion, service_static_ips, ips_of_answer,
}

-- The address is not one of this state.
abbrev pub IsUnassigned : Str → StaticIp → Type 0
IsUnassigned eip sip = (sip.address_id ≡ eip) → sip.state ≢ assigned

-- The list was answered and has none of the addresses as assigned.
unfoldable pub NoneAssigned : List Str → Result (List StaticIp) → Type 0
NoneAssigned expected (err e) = ⊥
NoneAssigned expected (ok list) = All (λ eip. All (IsUnassigned eip) list) expected

free_iff :
    (eip : Str) (sip : StaticIp)
    → ((str_eq sip.address_id eip && str_eq sip.state assigned) ≡ false) ↔ IsUnassigned eip sip
free_iff eip sip = (
  (λ h a s.
      let p = (str_eq_iff sip.address_id eip).1 a in
      let q = (str_eq_iff sip.state assigned).1 s in ground arith),
  λ f. elim (Bool-cases (str_eq sip.address_id eip)) [
    | inr e ↦ rw e refl
    | inl e ↦ elim (Bool-cases (str_eq sip.state assigned)) [
      | inr q ↦ rw (e, q) refl
      | inl q ↦
          absurd (f ((str_eq_iff sip.address_id eip).0 e) ((str_eq_iff sip.state assigned).0 q))
    ]
  ],
)

any_free {ℓ κ} :
    {A : Type ℓ} (p : A → Bool) (Q : A → Type κ)
    → ((x : A) → (p x ≡ false) ↔ Q x)
    → (xs : List A) → (any p xs ≡ false) ↔ All Q xs
any_free p Q f [] = (λ h. tt, λ h. refl)
any_free p Q f (x ∷ xs) =
    let (g, k) = any_free p Q f xs in
    (
      (λ h. elim (Bool-cases (p x)) [
        | inl e ↦ absurd (ground arith)
        | inr e ↦ ((f x).0 e, g (ground arith))
      ]),
      λ h. let a = (f x).1 h.0 in let b = k h.1 in ground arith,
    )

none_assigned_iff :
    (expected : List Str) (list : List StaticIp)
    → (still_assigned expected list ≡ false) ↔ All (λ eip. All (IsUnassigned eip) list) expected
unfolding still_assigned
none_assigned_iff expected list =
    any_free _ _
      (λ eip.
        any_free (λ sip. str_eq sip.address_id eip && str_eq sip.state assigned) (IsUnassigned eip)
          (free_iff eip) list)
      expected

disassociated_iff :
    (project : Str) (expected : List Str) (r : Result (List StaticIp))
    → (disassociated_after_deletion_on project expected r ≡ ok true) ↔ NoneAssigned expected r
unfolding disassociated_after_deletion_on NoneAssigned
disassociated_iff project expected (err e) = (λ h. cc, λ h. absurd h)
disassociated_iff project expected (ok list) =
    let (f, g) = none_assigned_iff expected list in
    elim (Bool-cases (still_assigned expected list)) [
      | inl e ↦ (
        λ h. absurd (let q : ok false ≡ ok true = rw e at h in cc),
        λ h. let q = g h in absurd cc,
      )
      | inr e ↦ (λ h. f e, λ h. rw e refl)
    ]

ok_injective : {a b : Bool} → ok a ≡ ok b → a ≡ b
ok_injective h = cc

-- After a deletion the expected static ips are free exactly if there are none, or the list of the project
-- shows none of them as assigned.
pub freed_iff {ℓ} :
    {W : Type ℓ} (static_ip_list : StaticIpList W) (d : ResourceData) (w : W)
    → ((static_ips_disassociated_after_service_deletion static_ip_list d w).0 ≡ ok true)
      ↔ ((d.static_ips ≡ []) ⊎ NoneAssigned d.static_ips (static_ip_list d.project w).0)
unfolding static_ips_disassociated_after_service_deletion
freed_iff list d w = freed d.project d.service_name d.static_ips
  where
    freed :
        (p s : Str) (ips : List Str)
        → let d' : ResourceData = record { project = p; service_name = s; static_ips = ips } in
          ((static_ips_disassociated_after_service_deletion list d' w).0 ≡ ok true)
          ↔ ((ips ≡ []) ⊎ NoneAssigned ips (list p w).0)
    freed p s [] = (λ h. inl refl, λ h. refl)
    freed p s (ip ∷ ips) =
        let (f, g) = disassociated_iff p (ip ∷ ips) (list p w).0 in
        (λ h. inr (f h), elim [ inl e ↦ absurd cc | inr h ↦ g h ])

module _ (service ip : Str) where
  -- The last address of the list that is this one and belongs to the service has this state.
  pub data StateOf : List StaticIp → Str → Type 0 where
    last :
        (sip : StaticIp) (l : List StaticIp)
        → sip.service_name ≡ service
        → sip.address_id ≡ ip
        → All (λ x. x.service_name ≡ service → x.address_id ≢ ip) l
        → StateOf (sip ∷ l) sip.state
    later : (sip : StaticIp) (l : List StaticIp) (s : Str) → StateOf l s → StateOf (sip ∷ l) s

  lookup-store :
      (k v : Str) (m : List (Str × Str))
      → lookup ip (store k v m) ≡ (if str_eq k ip then v else lookup ip m)
  unfolding store lookup
  lookup-store k v [] = refl
  lookup-store k v ((j, x) ∷ m) =
      ground (arith, lookup-store k v m, str_eq_iff j k, str_eq_iff k ip, str_eq_iff j ip)

  pass :
      (sip : StaticIp) (m : List (Str × Str))
      → (sip.service_name ≡ service → sip.address_id ≢ ip)
      → lookup ip (if str_eq sip.service_name service then store sip.address_id sip.state m else m)
        ≡ lookup ip m
  pass sip m n = elim (Bool-cases (str_eq sip.service_name service)) [
    | inr e ↦ rw e refl
    | inl e ↦ elim (Bool-cases (str_eq sip.address_id ip)) [
      | inl q ↦
          absurd
            (n ((str_eq_iff sip.service_name service).0 e) ((str_eq_iff sip.address_id ip).0 q))
      | inr q ↦ rw (e, lookup-store sip.address_id sip.state m, q) refl
    ]
  ]

  lookup_none :
      (l : List StaticIp) (m : List (Str × Str))
      → All (λ x. x.service_name ≡ service → x.address_id ≢ ip) l
      → lookup ip (collect_ips service l m) ≡ lookup ip m
  unfolding collect_ips
  lookup_none [] m h = refl
  lookup_none (sip ∷ l) m h = lookup_none l _ h.1 ∙ pass sip m h.0

  lookup_state :
      (l : List StaticIp) (s : Str) (m : List (Str × Str))
      → StateOf l s
      → lookup ip (collect_ips service l m) ≡ s
  unfolding collect_ips
  lookup_state _ _ m (last sip l a b n) =
      lookup_none l _ n
      ∙ rw
          (
            (str_eq_iff sip.service_name service).1 a,
            lookup-store sip.address_id sip.state m,
            (str_eq_iff sip.address_id ip).1 b,
          )
          refl
  lookup_state _ _ m (later sip l s h) = lookup_state l s _ h

  is_known :
      (l : List StaticIp)
      → All (λ x. x.service_name ≡ service → x.address_id ≢ ip) l ⊎ ((s : Str) × StateOf l s)
  is_known [] = inl tt
  is_known (sip ∷ l) = elim (is_known l) [
    | inr (s, h) ↦ inr (s, later sip l s h)
    | inl n ↦ elim (Bool-cases (str_eq sip.service_name service)) [
      | inr e ↦ inl ((λ a b. let q = (str_eq_iff sip.service_name service).1 a in cc), n)
      | inl e ↦ elim (Bool-cases (str_eq sip.address_id ip)) [
        | inr q ↦ inl ((λ a b. let r = (str_eq_iff sip.address_id ip).1 b in cc), n)
        | inl q ↦ inr (
          sip.state,
          last sip l ((str_eq_iff sip.service_name service).0 e)
              ((str_eq_iff sip.address_id ip).0 q) n,
        )
      ]
    ]
  ]

  -- The address belongs to the service and is available or assigned.
  unfoldable pub IsReady : List StaticIp → Type 0
  IsReady l = (s : Str) × StateOf l s × ((s ≡ available) ⊎ (s ≡ assigned))

  is_free_or_used :
      (s : Str)
      → ((str_eq s available || str_eq s assigned) ≡ true) ↔ ((s ≡ available) ⊎ (s ≡ assigned))
  is_free_or_used s = (
    (λ h. elim (Bool-cases (str_eq s available)) [
      | inl e ↦ inl ((str_eq_iff s available).0 e)
      | inr e ↦ inr ((str_eq_iff s assigned).0 (ground arith))
    ]),
    elim [
      | inl e ↦ let q = (str_eq_iff s available).1 e in ground arith
      | inr e ↦ let q = (str_eq_iff s assigned).1 e in ground arith
    ],
  )

  unknown :
      (l : List StaticIp) (s : Str)
      → All (λ x. x.service_name ≡ service → x.address_id ≢ ip) l
      → lookup ip (collect_ips service l []) ≡ s
      → s ≡ []
  unfolding lookup
  unknown l s n h = sym h ∙ lookup_none l [] n

  never_empty : (s : Str) → s ≡ [] → ((s ≡ available) ⊎ (s ≡ assigned)) → ⊥
  never_empty s e (inl h) = absurd cc
  never_empty s e (inr h) = absurd cc

  IsReady-iff :
      (l : List StaticIp)
      → let s = lookup ip (collect_ips service l []) in
        ((str_eq s available || str_eq s assigned) ≡ true) ↔ IsReady l
  unfolding IsReady
  IsReady-iff l = elim (is_known l) [
    | inl n ↦ (
      (λ h. absurd (
          never_empty _ (unknown l _ n refl)
            ((is_free_or_used (lookup ip (collect_ips service l []))).0 h))),
      λ h. absurd (never_empty h.0 (unknown l h.0 n (lookup_state l h.0 [] h.1)) h.2),
    )
    | inr (s, k) ↦
        let (f, g) = is_free_or_used (lookup ip (collect_ips service l [])) in
        let e = lookup_state l s [] k in
        (
          (λ h. (lookup ip (collect_ips service l []), rw e k, f h)),
          λ h. g (rw (lookup_state l h.0 [] h.1) h.2),
        )
  ]

-- The list was answered, and all of the addresses are ready in it.
unfoldable pub AllReady : Str → List Str → Result (List StaticIp) → Type 0
unfolding IsReady
AllReady service ips (err e) = ⊥
AllReady service ips (ok list) = All (λ ip. IsReady service ip list) ips

all_ready_iff :
    (service : Str) (l : List StaticIp) (ips : List Str)
    → (all_ready (collect_ips service l []) ips ≡ true) ↔ All (λ ip. IsReady service ip l) ips
unfolding all_ready
all_ready_iff service l [] = (λ h. tt, λ h. refl)
all_ready_iff service l (ip ∷ ips) =
    let (f, g) = IsReady-iff service ip l in
    let (f', g') = all_ready_iff service l ips in
    (
      (λ h. let (a, b) = and_split _ (all_ready (collect_ips service l []) ips) h in (f a, f' b)),
      λ h. let a = g h.0 in let b = g' h.1 in rw (a, b) refl,
    )

-- The static ips of a service are ready exactly if it is to have none, or each of them is listed for it
-- as available or assigned.
pub static_ips_ready_iff {ℓ} :
    {W : Type ℓ} (static_ip_list : StaticIpList W) (d : ResourceData) (w : W)
    → ((static_ips_ready static_ip_list d w).0 ≡ ok true)
      ↔ ((d.static_ips ≡ []) ⊎ AllReady d.service_name d.static_ips (static_ip_list d.project w).0)
unfolding static_ips_ready static_ips_ready_on service_static_ips ips_of_answer AllReady
static_ips_ready_iff list d w =
    ready d.project d.service_name d.static_ips (list d.project w).0 refl
  where
    ready :
        (p s : Str) (ips : List Str) (r : Result (List StaticIp))
        → (list p w).0 ≡ r
        → let d' : ResourceData = record { project = p; service_name = s; static_ips = ips } in
          ((static_ips_ready list d' w).0 ≡ ok true) ↔ ((ips ≡ []) ⊎ AllReady s ips r)
    ready p s [] r e = (λ h. inl refl, λ h. refl)
    ready p s (ip ∷ ips) (err x) e = rw e (λ h. cc, elim [ inl q ↦ absurd cc | inr q ↦ absurd q ])
    ready p s (ip ∷ ips) (ok l) e =
        let (f, g) = all_ready_iff s l (ip ∷ ips) in
        rw e
          (λ h. inr (f (ok_injective h)), elim [ inl q ↦ absurd cc | inr q ↦ ap (λ b. ok b) (g q) ])
