-- ===== src/KafkaTopic/Fetch.antt =====
-- internal/plugin/kafkatopicrepository: `withdraw` and `worker` of repository.go, `fetch` of read.go.
-- Go iterates over a map in any order: a map that is iterated is an association list in the order
-- of the iteration, and this list is any list. The order of the groups of `fetch`
-- is that of their first requests, so every order of them comes from an order of the queue.
use terraform_provider_aiven.Prelude.{
  ℕ, ◌≡◌, Option, none, some, List, [], ◌∷◌, ◌++◌, map, ◌==◌, length, concat, if◌then◌else◌, Str,
  bytes, str_eq, itoa,
}
use terraform_provider_aiven.Common.{Error, plain, wrap, Result, ok, err, ClientErrors}
use terraform_provider_aiven.KafkaTopic.Repository.{
  Topic, Request, Repository, System, TopicsClient, new_key, request_key,
}

abbrev pub Queue : Type 0
Queue = List (Str × Request)

-- `q[k] = r`: a request that holds the key already is replaced.
unfoldable pub put : Str → Request → Queue → Queue
put k r [] = (k, r) ∷ []
put k r ((j, x) ∷ q) = if str_eq j k then (j, r) ∷ q else (j, x) ∷ put k r q

-- `q[k]`, nil for a missing key.
unfoldable pub get : Str → Queue → Option Request
get k [] = none
get k ((j, x) ∷ q) = if str_eq j k then some x else get k q

unfoldable pub put_all : List Request → Queue → Queue
unfolding put
put_all [] q = q
put_all (r ∷ rs) q = put_all rs (put (request_key r) r q)

unfoldable pub withdraw_from : List Request → Repository → Option Queue × Repository
withdraw_from [] rep = (none, rep)
withdraw_from (r ∷ rs) rep = (some (put_all (r ∷ rs) []), record rep { queue = [] })

unfoldable pub withdraw : Repository → Option Queue × Repository
unfolding withdraw_from
withdraw rep = withdraw_from rep.queue rep

-- One `response` put into the channel of a request.
pub record Sending : Type 0 where
  pub rsp : ℕ
  pub answer : Result Topic

-- What `fetch` sends, in order, until it ends or panics: a topic that is not in the queue makes it
-- dereference nil.
pub data Outcome : Type 0 where
  sends : List Sending → Outcome
  panicked : List Sending → Outcome

unfoldable pub send : Request → Result Topic → List Sending → List Sending
send r answer sent = sent ++ record { rsp = r.rsp; answer = answer } ∷ []

-- `byService[key] = append(byService[key], r)`
unfoldable pub add_to_group : Str → Request → List (Str × List Request) → List (Str × List Request)
add_to_group k r [] = (k, r ∷ []) ∷ []
add_to_group k r ((j, rs) ∷ gs) =
    if str_eq j k then (j, rs ++ r ∷ []) ∷ gs else (j, rs) ∷ add_to_group k r gs

unfoldable pub by_service : Queue → List (Str × List Request) → List (Str × List Request)
unfolding add_to_group
by_service [] gs = gs
by_service ((k, r) ∷ q) gs = by_service q (add_to_group (new_key (r.project ∷ r.service ∷ [])) r gs)

-- What the retried function reports: its topics, an error to retry, or one that ends the retries.
pub data Attempt : Type 0 where
  done : List Topic → Attempt
  again : Error → Attempt
  unrecoverable : Error → Attempt

-- `retry.Do` of retry-go and `lo.Chunk`, with what their documentation says: a retry that succeeds
-- ends with an attempt that succeeded, and the chunks of a list are, in order, its elements.
pub record FetchLibrary (W : Type 0) : Type 0 where
  pub retry_do : (W → Attempt × W) → W → Result (List Topic) × W
  pub retry_ok :
      (f : W → Attempt × W) (w w' : W) (list : List Topic)
      → retry_do f w ≡ (ok list, w')
      → (w₀ : W) × (f w₀ ≡ (done list, w'))
  pub chunk : List Str → ℕ → List (List Str)
  pub concat_chunk : (l : List Str) (n : ℕ) → concat (chunk l n) ≡ l

unfoldable pub judge : ClientErrors → List Str → Result (List Topic) → Attempt
judge lib chunk (err e) =
    if lib.avngen_is_not_found e
    then again (wrap (bytes "topic list is inconsistent: ") e)
    else unrecoverable e
judge lib chunk (ok list) =
    if length list == length chunk
    then done list
    else again (
        plain (
          bytes "got "
          ++ (itoa (length list)
              ++ (bytes " topics, expected " ++ (itoa (length chunk) ++ bytes ". Retrying")))))

unfoldable pub send_errors : List Request → Error → List Sending → List Sending
unfolding send
send_errors [] e sent = sent
send_errors (r ∷ rs) e sent = send_errors rs e (send r (err e) sent)

unfoldable pub send_topics : Str → Str → Queue → List Topic → List Sending → Outcome
unfolding send get
send_topics project service queue [] sent = sends sent
send_topics project service queue (t ∷ ts) sent =
    elim (get (new_key (project ∷ service ∷ t.topic_name ∷ [])) queue) [
      | none ↦ panicked sent
      | some r ↦ send_topics project service queue ts (send r (ok t) sent)
    ]

-- One round of the loop over the chunks.
unfoldable pub send_chunk :
    Str → Str → Queue → List Request → Result (List Topic) → List Sending → Outcome
unfolding send_errors send_topics
send_chunk project service queue reqs (err e) sent =
    sends (send_errors reqs (wrap (bytes "topic read error: ") e) sent)
send_chunk project service queue reqs (ok list) sent = send_topics project service queue list sent

module _ {W : Type 0} (client : TopicsClient W) (lib : ClientErrors) where
  unfoldable pub attempt : Str → Str → List Str → W → Attempt × W
  unfolding judge
  attempt project service chunk w =
      let (answer, w') = client.topic_list_v2 project service chunk w in
      (judge lib chunk answer, w')

module _ {W : Type 0} (client : TopicsClient W) (lib : ClientErrors) (fl : FetchLibrary W) where
  unfoldable pub fetch_chunks :
      Str → Str → Queue → List Request → List (List Str) → Outcome → W → Outcome × W
  unfolding send_chunk attempt
  fetch_chunks project service queue reqs chunks (panicked sent) w = (panicked sent, w)
  fetch_chunks project service queue reqs [] (sends sent) w = (sends sent, w)
  fetch_chunks project service queue reqs (c ∷ cs) (sends sent) w =
      let (answer, w') = fl.retry_do (attempt client lib project service c) w in
      fetch_chunks project service queue reqs cs (send_chunk project service queue reqs answer sent)
        w'

  unfoldable pub fetch_groups : ℕ → Queue → List (Str × List Request) → Outcome → W → Outcome × W
  unfolding fetch_chunks
  fetch_groups size queue gs (panicked sent) w = (panicked sent, w)
  fetch_groups size queue [] (sends sent) w = (sends sent, w)
  fetch_groups size queue ((k, []) ∷ gs) (sends sent) w = (panicked sent, w)
  fetch_groups size queue ((k, r ∷ rs) ∷ gs) (sends sent) w =
      let chunks = fl.chunk (map (λ x. x.topic) (r ∷ rs)) size in
      let (out, w') = fetch_chunks r.project r.service queue (r ∷ rs) chunks (sends sent) w in
      fetch_groups size queue gs out w'

  unfoldable pub fetch : ℕ → Queue → W → Outcome × W
  unfolding fetch_groups by_service
  fetch size queue w = fetch_groups size queue (by_service queue []) (sends []) w

  -- What the worker does with the queue that it withdrew: nothing with an empty one.
  unfoldable pub serve_batch : Option Queue → Repository → W → Outcome × System W
  unfolding fetch
  serve_batch none rep w = (sends [], record { rep = rep; world = w })
  serve_batch (some queue) rep w =
      let (out, w') = fetch rep.v2_list_batch_size queue w in
      (out, record { rep = rep; world = w' })

  -- One tick of `worker`.
  unfoldable pub worker_tick : System W → Outcome × System W
  unfolding serve_batch withdraw
  worker_tick s = let (batch, rep') = withdraw s.rep in serve_batch batch rep' s.world
