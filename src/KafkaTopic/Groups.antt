-- ===== src/KafkaTopic/Groups.antt =====
-- The grouping of the withdrawn requests by service, and the loop over the groups (`fetch`).
use mathlib.Core.List.{
  Mem, Perm, mem-cons, not-mem-nil, append_assoc, append-nil, map-append, perm_append_comm,
}
use mathlib.Core.List.Perm
use mathlib.Core.Logic.Or
use terraform_provider_aiven.Prelude.{
  ℕ, ◌≡◌, refl, sym, ap, ◌∙◌, subst, true, some, List, [], ◌∷◌, ◌++◌, map, inl, inr, Str, All,
  Bool-cases, str_eq, str_eq_iff,
}
use terraform_provider_aiven.Common.{ClientErrors}
use terraform_provider_aiven.KafkaTopic.Repository.{Request, TopicsClient, new_key, request_key}
use terraform_provider_aiven.KafkaTopic.Keys.{new_key-new_key}
use terraform_provider_aiven.KafkaTopic.Fetch.{
  Queue, get, Sending, sends, FetchLibrary, fetch_chunks, fetch_groups, by_service, add_to_group,
}
use terraform_provider_aiven.KafkaTopic.Delivery.{channels, topics, rsps, is_found, channel_of}

abbrev pub requests : Queue → List Request
requests [] = []
requests ((k, r) ∷ q) = r ∷ requests q

abbrev pub members : List (Str × List Request) → List Request
members [] = []
members ((k, rs) ∷ gs) = rs ++ members gs

-- A request of a group: it is of the group's service, and the queue holds it under its key.
abbrev pub InGroup : Queue → Str → Request → Type 0
InGroup queue k r =
    (new_key (r.project ∷ r.service ∷ []) ≡ k) × (get (request_key r) queue ≡ some r)

abbrev pub IsGroup : Queue → Str × List Request → Type 0
IsGroup queue (k, []) = ⊥
IsGroup queue (k, r ∷ rs) = All (InGroup queue k) (r ∷ rs)

module _ (queue : Queue) where
  All-snoc :
      (k : Str) (rs : List Request) (r : Request)
      → All (InGroup queue k) rs
      → InGroup queue k r
      → All (InGroup queue k) (rs ++ r ∷ [])
  All-snoc k [] r h g = (g, tt)
  All-snoc k (x ∷ rs) r h g = (h.0, All-snoc k rs r h.1 g)

  add_to_group-IsGroup :
      (k : Str) (r : Request) (gs : List (Str × List Request))
      → InGroup queue k r
      → All (IsGroup queue) gs
      → All (IsGroup queue) (add_to_group k r gs)
  unfolding add_to_group
  add_to_group-IsGroup k r [] g h = ((g, tt), tt)
  add_to_group-IsGroup k r ((j, []) ∷ gs) g h = absurd h.0
  add_to_group-IsGroup k r ((j, x ∷ rs) ∷ gs) g h = elim (Bool-cases (str_eq j k)) [
    | inl e ↦ rw e (All-snoc j (x ∷ rs) r h.0 (g.0 ∙ sym ((str_eq_iff j k).0 e), g.1), h.1)
    | inr e ↦ rw e (h.0, add_to_group-IsGroup k r gs g h.1)
  ]

  pub by_service-IsGroup :
      (q : Queue) (gs : List (Str × List Request))
      → All (λ r. get (request_key r) queue ≡ some r) (requests q)
      → All (IsGroup queue) gs
      → All (IsGroup queue) (by_service q gs)
  unfolding by_service
  by_service-IsGroup [] gs h g = g
  by_service-IsGroup ((k, r) ∷ q) gs h g =
      by_service-IsGroup q (add_to_group (new_key (r.project ∷ r.service ∷ [])) r gs) h.1
        (add_to_group-IsGroup (new_key (r.project ∷ r.service ∷ [])) r gs (refl, h.0) g)

  -- The topics of a group are found under the names of its first request's service.
  module _ (p s k : Str) (same : new_key (p ∷ s ∷ []) ≡ k) where
    at_key : (r : Request) → InGroup queue k r → get (new_key (p ∷ s ∷ r.topic ∷ [])) queue ≡ some r
    unfolding request_key
    at_key r (e, g) =
        ap (λ j. get j queue)
          (sym (new_key-new_key p s r.topic)
            ∙ ap (λ j. new_key (j ∷ r.topic ∷ [])) (same ∙ sym e)
            ∙ new_key-new_key r.project r.service r.topic)
        ∙ g

    pub group_channels :
        (rs : List Request)
        → All (InGroup queue k) rs
        → map (λ n. channel_of (get (new_key (p ∷ s ∷ n ∷ [])) queue)) (topics rs) ≡ rsps rs
    group_channels [] h = refl
    group_channels (r ∷ rs) h = cc (at_key r h.0, group_channels rs h.1)

    pub group_found :
        (rs : List Request)
        → All (InGroup queue k) rs
        → (n : Str) → Mem n (topics rs)
        → is_found (get (new_key (p ∷ s ∷ n ∷ [])) queue) ≡ true
    group_found [] h n m = absurd (not-mem-nil m)
    group_found (r ∷ rs) h n m =
        Or.elim (hlevel) (mem-cons.0 m) (λ e. rw (e, at_key r h.0)) (group_found rs h.1 n)

add_to_group-Perm :
    (k : Str) (r : Request) (gs : List (Str × List Request))
    → Perm (members (add_to_group k r gs)) (members gs ++ r ∷ [])
unfolding add_to_group
add_to_group-Perm k r [] = Perm.refl _
add_to_group-Perm k r ((j, rs) ∷ gs) = elim (Bool-cases (str_eq j k)) [
  | inl e ↦ rw e (
      rw (append_assoc, append_assoc)
        (Perm.append_left rs (perm_append_comm (r ∷ []) (members gs))))
  | inr e ↦ rw e (rw append_assoc (Perm.append_left rs (add_to_group-Perm k r gs)))
]

pub by_service-Perm :
    (q : Queue) (gs : List (Str × List Request))
    → Perm (members (by_service q gs)) (members gs ++ requests q)
unfolding by_service
by_service-Perm [] gs = rw append-nil (Perm.refl _)
by_service-Perm ((k, r) ∷ q) gs =
    Perm.trans (by_service-Perm q (add_to_group (new_key (r.project ∷ r.service ∷ [])) r gs)) (
      rw (← append_assoc (members gs) (r ∷ []) (requests q)) (
        Perm.append_right (requests q)
          (add_to_group-Perm (new_key (r.project ∷ r.service ∷ [])) r gs)))

perm_step :
    (s x y : List ℕ) {mid out : List ℕ}
    → Perm mid (s ++ x)
    → Perm out (mid ++ y)
    → Perm out (s ++ (x ++ y))
perm_step s x y h g = Perm.trans g (rw (← append_assoc s x y) (Perm.append_right y h))

module _ {W : Type 0} (client : TopicsClient W) (lib : ClientErrors) (fl : FetchLibrary W) where
  module _ (size : ℕ) (queue : Queue) where
    -- The chunk loop of the group answers each of its requests once.
    abbrev pub Answers : Str × List Request → Type 0
    Answers (k, []) = Unit
    Answers (k, r ∷ rs) =
        (sent : List Sending) (w : W)
        → (sent' : List Sending) × ((fetch_chunks client lib fl r.project r.service queue (r ∷ rs)
              (fl.chunk (topics (r ∷ rs)) size) (sends sent) w).0
            ≡ sends sent')
          × Perm (channels sent') (channels sent ++ rsps (r ∷ rs))

    pub fetch_groups-Perm :
        (gs : List (Str × List Request)) (sent : List Sending) (w : W)
        → All (IsGroup queue) gs
        → All Answers gs
        → (sent' : List Sending) × ((fetch_groups client lib fl size queue gs (sends sent) w).0
            ≡ sends sent')
          × Perm (channels sent') (channels sent ++ rsps (members gs))
    unfolding fetch_groups
    fetch_groups-Perm [] sent w g a = (sent, refl, rw append-nil (Perm.refl _))
    fetch_groups-Perm ((k, []) ∷ gs) sent w g a = absurd g.0
    fetch_groups-Perm ((k, r ∷ rs) ∷ gs) sent w g a =
        let (mid, q, perm) = a.0 sent w in
        let w' =
          (fetch_chunks client lib fl r.project r.service queue (r ∷ rs)
            (fl.chunk (topics (r ∷ rs)) size) (sends sent) w).1 in
        let (sent', q', perm') = fetch_groups-Perm gs mid w' g.1 a.1 in
        (
          sent',
          ap (λ out. (fetch_groups client lib fl size queue gs out w').0) q ∙ q',
          subst (λ z. Perm (channels sent') (channels sent ++ z))
              (sym (map-append (λ x. x.rsp) (r ∷ rs) (members gs)))
              (perm_step (channels sent) (rsps (r ∷ rs)) (rsps (members gs)) perm perm'),
        )
