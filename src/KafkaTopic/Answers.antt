-- ===== src/KafkaTopic/Answers.antt =====
-- About a tick of the worker (`worker` of repository.go, `fetch` of read.go).
use mathlib.Core.List.{Mem, Perm}
use mathlib.Core.List.Perm
use terraform_provider_aiven.Prelude.{
  ℕ, ◌+◌, ◌≤◌, ◌≡◌, ◌≢◌, ◌*◌, bytes, refl, ap, ◌∙◌, subst, Option, none, some, List, [], ◌∷◌, ◌++◌,
  map, arith, Str, All, length, length-append, length-map,
}
use terraform_provider_aiven.Common.{Error, wrap, err, ClientErrors}
use terraform_provider_aiven.KafkaTopic.Repository.{
  Request, Repository, System, TopicsClient, new_key,
}
use terraform_provider_aiven.KafkaTopic.Fetch.{
  Queue, Sending, sends, send, send_errors, send_chunk, FetchLibrary, attempt, fetch_chunks, fetch,
  by_service, add_to_group, withdraw, serve_batch, worker_tick, get,
}
use terraform_provider_aiven.KafkaTopic.Delivery.{
  channels, topics, rsps, IsFaithful, RetriesSucceed, channel_of, chunks-Perm, one_chunk-Perm,
}
use terraform_provider_aiven.KafkaTopic.Groups.{
  requests, members, IsGroup, by_service-IsGroup, by_service-Perm, group_channels, group_found,
  Answers, fetch_groups-Perm,
}
use terraform_provider_aiven.KafkaTopic.Withdraw.{Keyed, Keyed-get, withdraw-Keyed, withdraw_lem}

length-add_to_group :
    (k : Str) (r : Request) (gs : List (Str × List Request))
    → length (members (add_to_group k r gs)) ≡ length (members gs) + 1
unfolding add_to_group
length-add_to_group k r [] = omega arith
length-add_to_group k r ((j, rs) ∷ gs) = ground (
  arith,
  length-append rs (members gs),
  length-append rs (r ∷ []),
  length-append (rs ++ r ∷ []) (members gs),
  length-append rs (members (add_to_group k r gs)),
  length-add_to_group k r gs,
)

length-by_service :
    (q : Queue) (gs : List (Str × List Request))
    → length (members (by_service q gs)) ≡ length (members gs) + length q
unfolding by_service
length-by_service [] gs = omega arith
length-by_service ((k, r) ∷ q) gs =
    let k' = new_key (r.project ∷ r.service ∷ []) in
    omega (arith, length-by_service q (add_to_group k' r gs), length-add_to_group k' r gs)

length-send_errors :
    (rs : List Request) (e : Error) (sent : List Sending)
    → length (send_errors rs e sent) ≡ length sent + length rs
unfolding send_errors send
length-send_errors [] e sent = omega arith
length-send_errors (r ∷ rs) e sent = omega (
  arith,
  length-send_errors rs e (send r (err e) sent),
  length-append sent (record { rsp = r.rsp; answer = err e } ∷ []),
)

abbrev Fits : ℕ → Str × List Request → Type 0
Fits n (k, rs) = length rs ≤ n

All-Fits : (n : ℕ) (gs : List (Str × List Request)) → length (members gs) ≤ n → All (Fits n) gs
All-Fits n [] h = tt
All-Fits n ((k, rs) ∷ gs) h = (
  omega (arith, length-append rs (members gs)),
  All-Fits n gs (omega (arith, length-append rs (members gs))),
)

module _ {W : Type 0} (client : TopicsClient W) (lib : ClientErrors) (fl : FetchLibrary W) where
  module _ (faithful : IsFaithful client) (size : ℕ) (queue : Queue) where
    groups_answered :
        RetriesSucceed client lib fl
        → (gs : List (Str × List Request)) → All (IsGroup queue) gs
        → All (Answers client lib fl size queue) gs
    groups_answered succeed [] g = tt
    groups_answered succeed ((k, []) ∷ gs) g = absurd g.0
    groups_answered succeed ((k, r ∷ rs) ∷ gs) g = (
      λ sent w.
          let cs = fl.chunk (topics (r ∷ rs)) size in
          let whole = fl.concat_chunk (topics (r ∷ rs)) size in
          let same = g.0.0.0 in
          let (sent', q, perm) =
            chunks-Perm client lib fl faithful succeed r.project r.service queue (r ∷ rs) cs sent w
              (λ n m.
                group_found queue r.project r.service k same (r ∷ rs) g.0 n
                  (subst (λ l. Mem n l) whole m)) in
          let same_rsps =
            ap (map (λ n. channel_of (get (new_key (r.project ∷ r.service ∷ n ∷ [])) queue))) whole
            ∙ group_channels queue r.project r.service k same (r ∷ rs) g.0 in
          (sent', q, subst (λ l. Perm (channels sent') (channels sent ++ l)) same_rsps perm),
      groups_answered succeed gs g.1,
    )

    -- A group that fits into one chunk is answered also where the retries fail.
    groups_answered_in_one :
        ((r : Request) (rs : List Request)
          → length (r ∷ rs) ≤ size
          → fl.chunk (topics (r ∷ rs)) size ≡ topics (r ∷ rs) ∷ [])
        → (gs : List (Str × List Request)) → All (Fits size) gs
        → All (IsGroup queue) gs
        → All (Answers client lib fl size queue) gs
    groups_answered_in_one one [] f g = tt
    groups_answered_in_one one ((k, []) ∷ gs) f g = absurd g.0
    groups_answered_in_one one ((k, r ∷ rs) ∷ gs) f g = (
      λ sent w.
          let same = g.0.0.0 in
          let (sent', q, perm) =
            one_chunk-Perm client lib fl r.project r.service queue (r ∷ rs) (topics (r ∷ rs)) sent w
              faithful (group_found queue r.project r.service k same (r ∷ rs) g.0)
              (group_channels queue r.project r.service k same (r ∷ rs) g.0) in
          (
            sent',
            ap
                  (λ cs.
                    (fetch_chunks client lib fl r.project r.service queue (r ∷ rs) cs (sends sent)
                      w).0)
                  (one r rs f.0)
                ∙ q,
            perm,
          ),
      groups_answered_in_one one gs f.1 g.1,
    )

    by_service_groups : Keyed queue → All (IsGroup queue) (by_service queue [])
    by_service_groups keyed = by_service-IsGroup queue queue [] (Keyed-get queue keyed) tt

    -- Where every retry succeeds, `fetch` does not panic and answers each request of the queue once.
    pub fetch_answers :
        RetriesSucceed client lib fl
        → Keyed queue
        → (w : W)
        → (sent : List Sending) × ((fetch client lib fl size queue w).0 ≡ sends sent)
          × Perm (channels sent) (rsps (requests queue))
    unfolding fetch
    fetch_answers succeed keyed w =
        let groups = by_service_groups keyed in
        let (sent, q, perm) =
          fetch_groups-Perm client lib fl size queue (by_service queue []) [] w groups
            (groups_answered succeed (by_service queue []) groups) in
        (sent, q, Perm.trans perm (Perm.map (λ r. r.rsp) (by_service-Perm queue [])))

    -- With a client whose answers list exactly the topics that it was asked for, and a queue whose keys are
    -- those of its requests, each once: where the queue is no longer than a chunk, a fetch does not panic
    -- and puts exactly one answer into the channel of each request, whatever the retries end with.
    pub fetch_answers_in_one :
        ((l : List Str) (n : ℕ) → l ≢ [] → length l ≤ n → fl.chunk l n ≡ l ∷ [])
        → Keyed queue
        → length queue ≤ size
        → (w : W)
        → (sent : List Sending) × ((fetch client lib fl size queue w).0 ≡ sends sent)
          × Perm (channels sent) (rsps (requests queue))
    unfolding fetch
    fetch_answers_in_one one keyed short w =
        let groups = by_service_groups keyed in
        let fits =
          All-Fits size (by_service queue []) (omega (arith, length-by_service queue [])) in
        let (sent, q, perm) =
          fetch_groups-Perm client lib fl size queue (by_service queue []) [] w groups (
            groups_answered_in_one
              (λ r rs h.
                one (topics (r ∷ rs)) size (λ e. cc)
                  (omega (arith, length-map (λ x. x.topic) (r ∷ rs))))
              (by_service queue []) fits groups) in
        (sent, q, Perm.trans perm (Perm.map (λ r. r.rsp) (by_service-Perm queue [])))

  -- A group of which all chunks fail is sent its error once for every chunk: a channel that holds
  -- one response gets as many as there are chunks.
  failed_chunks_repeat :
      (p s : Str) (queue : Queue) (reqs : List Request) (e : Error)
      → ((c : List Str) (w : W) → (fl.retry_do (attempt client lib p s c) w).0 ≡ err e)
      → (cs : List (List Str)) (sent : List Sending) (w : W)
      → (sent' : List Sending) × ((fetch_chunks client lib fl p s queue reqs cs (sends sent) w).0
          ≡ sends sent')
        × (length sent' ≡ length sent + length cs * length reqs)
  unfolding fetch_chunks
  failed_chunks_repeat p s queue reqs e fails [] sent w = (sent, refl, omega arith)
  failed_chunks_repeat p s queue reqs e fails (c ∷ cs) sent w =
      let w' = (fl.retry_do (attempt client lib p s c) w).1 in
      let mid = send_errors reqs (wrap (bytes "topic read error: ") e) sent in
      let (sent', q, n) = failed_chunks_repeat p s queue reqs e fails cs mid w' in
      (
        sent',
        ap
              (λ r.
                (fetch_chunks client lib fl p s queue reqs cs (send_chunk p s queue reqs r sent)
                  w').0)
              (fails c w)
            ∙ q,
        n ∙ grind (arith, length-send_errors reqs (wrap (bytes "topic read error: ") e) sent),
      )

abbrev pub withdrawn : Option Queue → List Request
withdrawn none = []
withdrawn (some q) = requests q

module _ {W : Type 0} (client : TopicsClient W) (lib : ClientErrors) (fl : FetchLibrary W) where
  serve_batch_answers :
      IsFaithful client
      → RetriesSucceed client lib fl
      → (batch : Option Queue) (rep : Repository) (w : W) → ((q : Queue) → batch ≡ some q → Keyed q)
      → (sent : List Sending) × ((serve_batch client lib fl batch rep w).0 ≡ sends sent)
        × Perm (channels sent) (rsps (withdrawn batch))
        × ((serve_batch client lib fl batch rep w).1.rep ≡ rep)
  unfolding serve_batch
  serve_batch_answers faithful succeed none rep w keyed = ([], refl, Perm.refl _, refl)
  serve_batch_answers faithful succeed (some queue) rep w keyed =
      let (sent, q, perm) =
        fetch_answers client lib fl faithful rep.v2_list_batch_size queue succeed (keyed queue refl)
          w in
      (sent, q, perm, refl)

  -- If all retries succeed, one tick of the worker does not panic, puts exactly one response into
  -- the channel of each request that it withdraws, and leaves the queue empty.
  pub worker_tick_answers :
      (st : System W)
      → IsFaithful client
      → RetriesSucceed client lib fl
      → (sent : List Sending) × ((worker_tick client lib fl st).0 ≡ sends sent)
        × Perm (channels sent) (rsps (withdrawn (withdraw st.rep).0))
        × ((worker_tick client lib fl st).1.rep.queue ≡ [])
  unfolding worker_tick
  worker_tick_answers st faithful succeed =
      let (batch, rep') = withdraw st.rep in
      let (sent, q, perm, same) =
        serve_batch_answers faithful succeed batch rep' st.world (withdraw-Keyed st.rep) in
      (sent, q, perm, ap (λ r. r.queue) same ∙ (withdraw_lem st.rep []).0)
