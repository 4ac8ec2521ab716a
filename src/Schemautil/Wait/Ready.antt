-- ===== src/Schemautil/Wait/Ready.antt =====
-- About `backupsReady` and `grafanaReady` of wait.go.
use terraform_provider_aiven.Prelude.{
  ◌<◌, ◌≡◌, ◌≢◌, ◌↔◌, ◌⊎◌, inl, inr, refl, sym, ap, arith, Bool, true, false, Bool-cases, Option,
  none, some, List, [], ◌∷◌, ◌++◌, All, Str, bytes, itoa, is_empty, str_eq, str_eq_iff, and_split,
  ◌&&◌, any, ◌||◌,
}
use terraform_provider_aiven.UserConfigDiff.{is_default_ip_filter_list}
use terraform_provider_aiven.Schemautil.Wait.{
  Component, Integration, IpFilter, absent, not_list, list, Service, is_replica_of, backups_ready,
  public_grafana, is_filtered, grafana_ready,
}

-- The integration replicates into the service of this name; one without a target into that of no name.
unfoldable pub Replicates : Str → Integration → Type 0
Replicates name i =
    ((i.integration_type ≡ bytes "read_replica") ⊎ (i.integration_type ≡ bytes "disaster_recovery"))
    × ((i.dest_service ≡ some name) ⊎ ((i.dest_service ≡ none) × (name ≡ [])))

pub data HasReplica (name : Str) : List Integration → Type 0 where
  first : (i : Integration) (l : List Integration) → Replicates name i → HasReplica name (i ∷ l)
  further : (i : Integration) (l : List Integration) → HasReplica name l → HasReplica name (i ∷ l)

-- The service needs no backup, or it has one.
pub data Backed (s : Service) : Type 0 where
  unneeded : s.service_type ≢ bytes "pg" → s.service_type ≢ bytes "dragonfly" → Backed s
  not_persistent : s.persistence_off ≡ true → Backed s
  replicates : HasReplica s.name s.integrations → Backed s
  stored : 0 < s.backups → Backed s

or_eq_iff : (s a b : Str) → ((str_eq s a || str_eq s b) ≡ true) ↔ ((s ≡ a) ⊎ (s ≡ b))
or_eq_iff s a b = (
  (λ h. elim (Bool-cases (str_eq s a)) [
    | inl e ↦ inl ((str_eq_iff s a).0 e)
    | inr e ↦ inr ((str_eq_iff s b).0 (ground arith))
  ]),
  elim [
    | inl e ↦ let q = (str_eq_iff s a).1 e in ground arith
    | inr e ↦ let q = (str_eq_iff s b).1 e in ground arith
  ],
)

target_iff :
    (o : Option Str) (name : Str)
    → (str_eq (elim o [ none ↦ [] | some s ↦ s ]) name ≡ true)
      ↔ ((o ≡ some name) ⊎ ((o ≡ none) × (name ≡ [])))
target_iff none name = (
  (λ h. inr (refl, sym ((str_eq_iff [] name).0 h))),
  elim [ inl e ↦ absurd cc | inr (e, q) ↦ (str_eq_iff [] name).1 (sym q) ],
)
target_iff (some s) name = (
  (λ h. inl (ap (λ x. some x) ((str_eq_iff s name).0 h))),
  elim [ inl e ↦ let q : s ≡ name = cc in (str_eq_iff s name).1 q | inr (e, q) ↦ absurd cc ],
)

replica_iff : (name : Str) (i : Integration) → (is_replica_of name i ≡ true) ↔ Replicates name i
unfolding is_replica_of Replicates
replica_iff name i =
    let (f, g) = or_eq_iff i.integration_type (bytes "read_replica") (bytes "disaster_recovery") in
    let (f', g') = target_iff i.dest_service name in
    (
      (λ h. let (a, b) = and_split _ _ h in (f a, f' b)),
      λ h. let a = g h.0 in let b = g' h.1 in rw (a, b) refl,
    )

HasReplica-iff :
    (name : Str) (l : List Integration) → (any (is_replica_of name) l ≡ true) ↔ HasReplica name l
HasReplica-iff name [] = (λ h. cc, elim [ ])
HasReplica-iff name (i ∷ l) =
    let (f, g) = replica_iff name i in
    let (f', g') = HasReplica-iff name l in
    (
      (λ h. elim (Bool-cases (is_replica_of name i)) [
        | inl e ↦ first i l (f e)
        | inr e ↦ further i l (f' (ground arith))
      ]),
      elim [
        | first _ _ r ↦ let q = g r in ground arith
        | further _ _ r ↦ let q = g' r in ground arith
      ],
    )

pub backups_ready_iff : (s : Service) → (backups_ready s ≡ true) ↔ Backed s
unfolding backups_ready
backups_ready_iff s =
    let (f, g) = or_eq_iff s.service_type (bytes "pg") (bytes "dragonfly") in
    let (f', g') = HasReplica-iff s.name s.integrations in
    elim (Bool-cases
      (str_eq s.service_type (bytes "pg") || str_eq s.service_type (bytes "dragonfly"))) [
        | inr e ↦ (
          (λ h.
              unneeded (λ q. let x = g (inl q) in absurd (ground arith))
                (λ q. let x = g (inr q) in absurd (ground arith))),
          λ b. rw e refl,
        )
        | inl e ↦ rw e (
          (λ h. elim (Bool-cases s.persistence_off) [
            | inl q ↦ not_persistent q
            | inr q ↦ elim (Bool-cases (any (is_replica_of s.name) s.integrations)) [
              | inl r ↦ replicates (f' r)
              | inr r ↦ stored (ground arith)
            ]
          ]),
          elim [
            | unneeded n m ↦ elim (f e) [ inl q ↦ absurd (n q) | inr q ↦ absurd (m q) ]
            | not_persistent q ↦ ground arith
            | replicates r ↦ let q = g' r in ground arith
            | stored q ↦ ground arith
          ],
        )
      ]

-- The component has a public address of its service.
abbrev pub IsPublic : Component → Type 0
IsPublic c = (c.route ≡ bytes "public") × (c.usage ≡ bytes "primary")

-- The last public component of the list.
pub data LastPublic : List Component → Component → Type 0 where
  last_one :
      (c : Component) (l : List Component)
      → IsPublic c
      → All (λ x. IsPublic x → ⊥) l
      → LastPublic (c ∷ l) c
  later_one :
      (c : Component) (l : List Component) (d : Component) → LastPublic l d → LastPublic (c ∷ l) d

-- The ip filter is absent or the default.
unfoldable pub IsOpen : IpFilter → Type 0
IsOpen absent = Unit
IsOpen not_list = ⊥
IsOpen (list l) = is_default_ip_filter_list l ≡ true

abbrev pub address : Component → Str
address c = c.host ++ (bytes ":" ++ itoa c.port)

IsPublic-iff :
    (c : Component)
    → ((str_eq c.route (bytes "public") && str_eq c.usage (bytes "primary")) ≡ true) ↔ IsPublic c
IsPublic-iff c =
    let p = str_eq_iff c.route (bytes "public") in
    let q = str_eq_iff c.usage (bytes "primary") in
    (
      (λ h. let (a, b) = and_split _ _ h in (p.0 a, q.0 b)),
      λ h. let a = p.1 h.0 in let b = q.1 h.1 in rw (a, b) refl,
    )

no_public :
    (l : List Component) (found : Str)
    → All (λ x. IsPublic x → ⊥) l
    → public_grafana found l ≡ found
unfolding public_grafana
no_public [] found h = refl
no_public (c ∷ l) found h =
    elim (Bool-cases (str_eq c.route (bytes "public") && str_eq c.usage (bytes "primary"))) [
      | inl e ↦ absurd (h.0 ((IsPublic-iff c).0 e))
      | inr e ↦ rw e (no_public l found h.1)
    ]

last_public :
    (l : List Component) (c : Component) (found : Str)
    → LastPublic l c
    → public_grafana found l ≡ address c
unfolding public_grafana
last_public _ _ found (last_one c l p n) = rw ((IsPublic-iff c).1 p) (no_public l (address c) n)
last_public _ _ found (later_one c l d h) = last_public l d _ h

IsPublic-cases :
    (l : List Component) → All (λ x. IsPublic x → ⊥) l ⊎ ((c : Component) × LastPublic l c)
IsPublic-cases [] = inl tt
IsPublic-cases (c ∷ l) = elim (IsPublic-cases l) [
  | inr (d, h) ↦ inr (d, later_one c l d h)
  | inl n ↦
      elim (Bool-cases (str_eq c.route (bytes "public") && str_eq c.usage (bytes "primary"))) [
        | inl e ↦ inr (c, last_one c l ((IsPublic-iff c).0 e) n)
        | inr e ↦ inl ((λ p. let q = (IsPublic-iff c).1 p in absurd (ground arith)), n)
      ]
]

address_nonempty : (h t : Str) → is_empty (h ++ (bytes ":" ++ t)) ≡ false
address_nonempty [] t = refl
address_nonempty (b ∷ h) t = refl

IsOpen-iff : (f : IpFilter) → (is_filtered f ≡ false) ↔ IsOpen f
unfolding is_filtered IsOpen
IsOpen-iff absent = (λ h. tt, λ h. refl)
IsOpen-iff not_list = (λ h. absurd cc, λ h. absurd h)
IsOpen-iff (list l) = (λ h. ground arith, λ h. ground arith)

module _ {ℓ} {W : Type ℓ} (dial : Str → W → Bool × W) where
  -- The service is no Grafana to dial, or the dial to its last public address succeeds; the world is the
  -- one after that.
  pub data Answers (s : Service) (w : W) : W → Type ℓ where
    no_grafana : s.service_type ≢ bytes "grafana" → Answers s w w
    filtered : (IsOpen s.ip_filter → ⊥) → Answers s w w
    no_address : All (λ x. IsPublic x → ⊥) s.components → Answers s w w
    reached :
        (c : Component) (w' : W)
        → s.service_type ≡ bytes "grafana"
        → IsOpen s.ip_filter
        → LastPublic s.components c
        → dial (address c) w ≡ (true, w')
        → Answers s w w'

  pub Answers-ready :
      (s : Service) (w w' : W) → Answers s w w' → grafana_ready dial s w ≡ (true, w')
  unfolding grafana_ready
  Answers-ready s w _ (no_grafana n) = elim (Bool-cases (str_eq s.service_type (bytes "grafana"))) [
    | inl e ↦ absurd (n ((str_eq_iff s.service_type (bytes "grafana")).0 e))
    | inr e ↦ rw e refl
  ]
  Answers-ready s w _ (filtered n) = elim (Bool-cases (str_eq s.service_type (bytes "grafana"))) [
    | inr e ↦ rw e refl
    | inl e ↦ elim (Bool-cases (is_filtered s.ip_filter)) [
      | inl q ↦ rw (e, q) refl
      | inr q ↦ absurd (n ((IsOpen-iff s.ip_filter).0 q))
    ]
  ]
  Answers-ready s w _ (no_address n) = elim (Bool-cases (str_eq s.service_type (bytes "grafana"))) [
    | inr e ↦ rw e refl
    | inl e ↦ elim (Bool-cases (is_filtered s.ip_filter)) [
      | inl q ↦ rw (e, q) refl
      | inr q ↦ rw (e, q, no_public s.components [] n) refl
    ]
  ]
  Answers-ready s w _ (reached c w' t o p e) =
      rw
        (
          (str_eq_iff s.service_type (bytes "grafana")).1 t,
          (IsOpen-iff s.ip_filter).1 o,
          last_public s.components c [] p,
          address_nonempty c.host (itoa c.port),
        )
        e

  pub ready-Answers :
      (s : Service) (w : W)
      → (grafana_ready dial s w).0 ≡ true
      → Answers s w (grafana_ready dial s w).1
  unfolding grafana_ready
  ready-Answers s w h = elim (Bool-cases (str_eq s.service_type (bytes "grafana"))) [
    | inr e ↦
        rw e
          (no_grafana (λ q. let x = (str_eq_iff s.service_type (bytes "grafana")).1 q in absurd cc))
    | inl e ↦ elim (Bool-cases (is_filtered s.ip_filter)) [
      | inl q ↦ rw (e, q) (filtered (λ o. let x = (IsOpen-iff s.ip_filter).1 o in absurd cc))
      | inr q ↦ elim (IsPublic-cases s.components) [
        | inl n ↦ rw (e, q, no_public s.components [] n) (no_address n)
        | inr (c, p) ↦
            let t = (str_eq_iff s.service_type (bytes "grafana")).0 e in
            let o = (IsOpen-iff s.ip_filter).0 q in
            let a = last_public s.components c [] p in
            let b = address_nonempty c.host (itoa c.port) in
            let g = dialled (address c) w (rw (e, q, a, b) at h) in
            rw (e, q, a, b) (reached c _ t o p g)
      ]
    ]
  ]
    where
      dialled : (a : Str) (v : W) → (dial a v).0 ≡ true → dial a v ≡ (true, (dial a v).1)
      dialled a v e = λ i. (e i, (dial a v).1)
