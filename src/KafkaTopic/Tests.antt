-- ===== src/KafkaTopic/Tests.antt =====
-- Runs of the repository against a concrete client.
use mathlib.Core.List.{append-nil, Perm}
use mathlib.Core.List.Perm
use terraform_provider_aiven.Prelude.{
  ℕ, ◌+◌, ◌≤◌, ◌≡◌, ◌≢◌, refl, ap, true, false, none, some, List, [], ◌∷◌, map, arith, ◌==◌, ==_iff,
  leb, length, length-map, concat, if◌then◌else◌, Bool-cases, inl, inr, Str, bytes, str_eq, join,
  has_prefix,
}
use terraform_provider_aiven.Common.{avngen, aiven, plain, Result, ok, err, ClientErrors}
use terraform_provider_aiven.KafkaTopic.Repository.{
  Topic, Request, Repository, System, TopicsClient, new_repository, new_key, request_key, exists,
  create, delete, err_not_found, err_already_exists, mark_seen, is_err_not_found,
}
use terraform_provider_aiven.KafkaTopic.Fetch.{
  Attempt, done, again, unrecoverable, FetchLibrary, attempt, judge, put_all, Queue, Sending, sends,
  fetch, withdraw, worker_tick, get,
}
use terraform_provider_aiven.KafkaTopic.Delivery.{channels, rsps, IsFaithful, RetriesSucceed}
use terraform_provider_aiven.KafkaTopic.Withdraw.{Keyed, last_with, get_from, withdraw_lem}
use terraform_provider_aiven.KafkaTopic.Answers.{
  fetch_answers, fetch_answers_in_one, withdrawn, worker_tick_answers,
}
use terraform_provider_aiven.KafkaTopic.Cache.{topic_key, service_key, exists-iff-listed}
use terraform_provider_aiven.KafkaTopic.Acquire.{Reported, create-delete}
use terraform_provider_aiven.KafkaTopic.Trace.{
  Op, exists_op, create_call, delete_call, unmark_op, enqueue_op, withdraw_op, forget_topic_op,
  forget_service_op, run, create_conflict, exists_of_listed_once,
}

-- The two clients' tests on errors, on errors that are not wrapped.
abbrev pub client_errors : ClientErrors
client_errors = record {
  aiven_is_not_found = elim [ aiven s m ↦ s == 404 | _ ↦ false ];
  avngen_is_not_found = elim [ avngen s m ↦ s == 404 | _ ↦ false ];
  avngen_is_already_exists = elim [ avngen s m ↦ s == 409 | _ ↦ false ];
  not_found_avngen = λ s m. refl;
  already_exists_avngen = λ s m. refl;
  not_found_aiven = λ s m. refl;
  not_found_avngen_of_aiven = λ s m. refl;
  not_found_aiven_of_avngen = λ s m. refl;
}

abbrev to_topic : Str → Topic
to_topic n = record { topic_name = n; body = [] }

-- An API that counts its calls, lists one topic, and knows every topic that it is asked for.
abbrev client : TopicsClient ℕ
client = record {
  topic_list = λ p s w. (ok (bytes "a" ∷ []), w + 1);
  topic_list_v2 = λ p s c w. (ok (map to_topic c), w + 1);
  topic_create = λ p s t w. (none, w + 1);
  topic_update = λ p s t w. (none, w + 1);
  topic_delete = λ p s t w. (none, w + 1);
}

names-to_topic : (c : List Str) → map (λ t. t.topic_name) (map to_topic c) ≡ c
names-to_topic [] = refl
names-to_topic (n ∷ c) = ap (λ l. n ∷ l) (names-to_topic c)

client-IsFaithful : IsFaithful client
client-IsFaithful = record { listed = λ p s c w l e n. listed c l e }
  where
    listed :
        (c : List Str) (l : List Topic)
        → ok (map to_topic c) ≡ ok l
        → Perm (map (λ t. t.topic_name) l) c
    listed c l e = let q : map to_topic c ≡ l = cc in rw (← q, names-to_topic) (Perm.refl c)

abbrev singles : List Str → List (List Str)
singles [] = []
singles (x ∷ xs) = (x ∷ []) ∷ singles xs

concat-singles : (l : List Str) → concat (singles l) ≡ l
concat-singles [] = refl
concat-singles (x ∷ xs) = ap (λ l. x ∷ l) (concat-singles xs)

-- One chunk for a list that fits, chunks of one element for a longer list.
abbrev chunk : List Str → ℕ → List (List Str)
chunk [] n = []
chunk (x ∷ xs) n = if leb (length (x ∷ xs)) n then (x ∷ xs) ∷ [] else singles (x ∷ xs)

concat-chunk : (l : List Str) (n : ℕ) → concat (chunk l n) ≡ l
concat-chunk [] n = refl
concat-chunk (x ∷ xs) n = elim (Bool-cases (leb (length (x ∷ xs)) n)) [
  | inl e ↦ rw e (append-nil (x ∷ xs))
  | inr e ↦ rw e (concat-singles (x ∷ xs))
]

chunk_one : (l : List Str) (n : ℕ) → l ≢ [] → length l ≤ n → chunk l n ≡ l ∷ []
chunk_one [] n h g = absurd (h refl)
chunk_one (x ∷ xs) n h g = ground arith

-- One attempt and no retry.
abbrev of_attempt : Attempt → Result (List Topic)
of_attempt (done l) = ok l
of_attempt (again e) = err e
of_attempt (unrecoverable e) = err e

abbrev once : (ℕ → Attempt × ℕ) → ℕ → Result (List Topic) × ℕ
once f w = let (a, w') = f w in (of_attempt a, w')

of_attempt_ok : (a : Attempt) (l : List Topic) → of_attempt a ≡ ok l → a ≡ done l
of_attempt_ok (done k) l h = cc
of_attempt_ok (again e) l h = cc
of_attempt_ok (unrecoverable e) l h = cc

once_ok :
    (f : ℕ → Attempt × ℕ) (w w' : ℕ) (l : List Topic)
    → once f w ≡ (ok l, w')
    → (w₀ : ℕ) × (f w₀ ≡ (done l, w'))
once_ok f w w' l h =
    let a = of_attempt_ok (f w).0 l (ap (λ x. x.0) h) in
    let b : (f w).1 ≡ w' = ap (λ x. x.1) h in (w, λ i. (a i, b i))

abbrev fetch_library : FetchLibrary ℕ
fetch_library = record {
  retry_do = once;
  retry_ok = once_ok;
  chunk = chunk;
  concat_chunk = concat-chunk;
}

client-RetriesSucceed : RetriesSucceed client client_errors fetch_library
unfolding attempt judge
client-RetriesSucceed p s c w = (
  map to_topic c,
  ground (arith, length-map to_topic c, ==_iff (length (map to_topic c)) (length c)),
)

abbrev start : System ℕ
start = record { rep = new_repository; world = 0 }

abbrev project : Str
project = bytes "p"

abbrev service : Str
service = bytes "s"

abbrev topic_a : Str
topic_a = bytes "a"

abbrev topic_b : Str
topic_b = bytes "b"

listed_topic : (exists client project service topic_a false start).0 ≡ none
unfolding exists new_repository new_key join mark_seen str_eq
listed_topic = refl

exists-iff-listed_example :
    ((exists client project service topic_b false start).0 ≡ some err_not_found)
    × ((exists client project service topic_b false start).1.world ≡ 1)
    × ((exists client project service topic_b false start).1.rep.seen_services
          (service_key project service)
        ≡ true)
unfolding new_repository str_eq
exists-iff-listed_example =
    exists-iff-listed client project service topic_b start (topic_a ∷ []) refl refl refl

abbrev listed : System ℕ
listed = (exists client project service topic_b false start).1

-- What other calls and the worker do between two calls: a read, a deletion, and the first call's own call
-- of the API.
abbrev between : List Op
between =
    create_call project service topic_b
    ∷ exists_op project service topic_a
    ∷ enqueue_op (record { project = project; service = service; topic = topic_a; rsp = 1 })
    ∷ withdraw_op
    ∷ delete_call project service topic_a
    ∷ unmark_op project service topic_a
    ∷ forget_topic_op project service (bytes "c")
    ∷ forget_service_op project (bytes "other")
    ∷ []

exists_of_listed_once_example :
    let st' =
      run client client_errors fetch_library between
        (exists client project service topic_b false start).1 in
    ((exists client project service (bytes "c") true st').1.world ≡ st'.world)
    × ((exists client project service (bytes "c") true st').0 ≡ (
        if st'.rep.seen_topics (topic_key project service (bytes "c"))
        then none
        else some err_not_found))
unfolding new_repository new_key join str_eq
exists_of_listed_once_example =
    exists_of_listed_once client client_errors fetch_library project service topic_b (bytes "c")
      false true between start (topic_a ∷ []) refl refl
      (tt, (tt, (tt, (tt, (tt, (tt, (tt, (refl, tt))))))))

reserved : (exists client project service topic_b true start).0 ≡ some err_not_found
unfolding exists new_repository new_key join mark_seen str_eq
reserved = refl

create_conflict_example :
    let st' =
      run client client_errors fetch_library between
        (exists client project service topic_b true start).1 in
    create client client_errors project service topic_b st' ≡ (some err_already_exists, st')
unfolding new_key join str_eq has_prefix is_err_not_found
create_conflict_example =
    create_conflict client client_errors fetch_library project service topic_b between start
      err_not_found (λ x e. cc) reserved refl
      (tt, (tt, (tt, (tt, (tt, (refl, (refl, (refl, tt))))))))

create-delete_example :
    let st' = (delete client client_errors project service topic_a listed).1 in
    Reported client_errors
      (client.topic_create project service topic_a st'.world).0
      (create client client_errors project service topic_a st').0
    × ((create client client_errors project service topic_a st').1.world
        ≡ (client.topic_create project service topic_a st'.world).1)
unfolding delete
create-delete_example =
    create-delete client client_errors project service topic_a listed exists-iff-listed_example.2
      refl

abbrev request : ℕ → Str → Request
request rsp t = record { project = project; service = service; topic = t; rsp = rsp }

-- Three reads, two of them of one topic.
abbrev crowded : Repository
crowded = record new_repository {
  queue = request 1 topic_a ∷ request 2 topic_b ∷ request 3 topic_a ∷ [];
}

-- The first of two reads of one topic is in nobody's map: its channel is never written to.
withdraw_drops : map (λ r. r.rsp) (withdrawn (withdraw crowded).0) ≡ 3 ∷ 2 ∷ []
unfolding withdraw put_all request_key new_key join str_eq
withdraw_drops = refl

withdraw_lem_example :
    ((withdraw crowded).1.queue ≡ [])
    × (get_from (withdraw crowded).0 (topic_key project service topic_a)
        ≡ last_with (topic_key project service topic_a) crowded.queue)
withdraw_lem_example = withdraw_lem crowded (topic_key project service topic_a)

abbrev queue : Queue
queue =
    (request_key (request 1 topic_a), request 1 topic_a)
    ∷ (request_key (request 2 topic_b), request 2 topic_b)
    ∷ []

queue-Keyed : Keyed queue
unfolding request_key new_key join get str_eq
queue-Keyed = (refl, refl, (refl, refl, tt))

fetch_answers_example :
    (sent : List Sending) × ((fetch client client_errors fetch_library 1 queue 0).0 ≡ sends sent)
    × Perm (channels sent) (1 ∷ 2 ∷ [])
fetch_answers_example =
    fetch_answers client client_errors fetch_library client-IsFaithful 1 queue client-RetriesSucceed
      queue-Keyed 0

fetch_answers_in_one_example :
    (sent : List Sending) × ((fetch client client_errors fetch_library 100 queue 0).0 ≡ sends sent)
    × Perm (channels sent) (1 ∷ 2 ∷ [])
fetch_answers_in_one_example =
    fetch_answers_in_one client client_errors fetch_library client-IsFaithful 100 queue chunk_one
      queue-Keyed (omega arith) 0

worker_tick_answers_example :
    (sent : List Sending) × ((worker_tick client client_errors fetch_library
        (record { rep = crowded; world = 0 })).0
      ≡ sends sent)
    × Perm (channels sent) (rsps (withdrawn (withdraw crowded).0))
    × ((worker_tick client client_errors fetch_library
          (record { rep = crowded; world = 0 })).1.rep.queue
        ≡ [])
worker_tick_answers_example =
    worker_tick_answers client client_errors fetch_library (record { rep = crowded; world = 0 })
      client-IsFaithful client-RetriesSucceed

-- An API that is down.
abbrev down : TopicsClient ℕ
down = record client { topic_list_v2 = λ p s c w. (err (plain (bytes "down")), w + 1) }
