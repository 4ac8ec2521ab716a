-- ===== src/KafkaTopic/Repository.antt =====
-- internal/plugin/kafkatopicrepository: repository.go, create.go, delete.go, update.go and the part
-- of read.go that consults the caches. A definition is what a method does to the state when nothing comes
-- between its parts: `Create` calls the API after it has left the lock of `exists`, `Delete` before it
-- locks, and `Read` locks twice. KafkaTopic/Trace takes these parts as steps of their own. The API client
-- acts on a state of its own, `W`.
use terraform_provider_aiven.Prelude.{
  ℕ, ◌==◌, Bool, true, false, Option, none, some, List, [], ◌∷◌, ◌++◌, if◌then◌else◌, Str, bytes,
  str_eq, has_prefix, join,
}
use terraform_provider_aiven.Common.{Error, avngen, wrap, Result, ok, err, ClientErrors}

-- `kafkatopic.ServiceKafkaTopicGetOut`, of which the repository reads the name.
pub record Topic : Type 0 where
  pub topic_name : Str
  pub body : Str

pub record Request : Type 0 where
  pub project : Str
  pub service : Str
  pub topic : Str
  -- The channel `rsp`, by its identity.
  pub rsp : ℕ

-- A missing key of a Go map reads as its zero value, so a `map[string]bool` is a function.
pub record Repository : Type 0 where
  pub queue : List Request
  pub v2_list_batch_size : ℕ
  pub seen_topics : Str → Bool
  pub seen_services : Str → Bool

-- The repository and the API behind its client.
pub record System (W : Type 0) : Type 0 where
  pub rep : Repository
  pub world : W

-- The methods of the API client that the repository calls.
pub record TopicsClient (W : Type 0) : Type 0 where
  pub topic_list : Str → Str → W → Result (List Str) × W
  pub topic_list_v2 : Str → Str → List Str → W → Result (List Topic) × W
  pub topic_create : Str → Str → Str → W → Option Error × W
  pub topic_update : Str → Str → Str → W → Option Error × W
  pub topic_delete : Str → Str → Str → W → Option Error × W

abbrev pub err_not_found : Error
err_not_found = avngen 404 (bytes "Topic not found")

abbrev pub err_already_exists : Error
err_already_exists = avngen 409 (bytes "Topic conflict, already exists")

unfoldable pub new_repository : Repository
new_repository = record {
  queue = [];
  v2_list_batch_size = 100;
  seen_topics = λ k. false;
  seen_services = λ k. false;
}

unfoldable pub new_key : List Str → Str
unfolding join
new_key parts = join (bytes "/") parts

unfoldable pub request_key : Request → Str
request_key r = new_key (r.project ∷ r.service ∷ r.topic ∷ [])

-- `m[key] = value`
abbrev pub update_at : (Str → Bool) → Str → Bool → Str → Bool
update_at m key value k = if str_eq key k then value else m k

-- The loop that marks every listed topic.
unfoldable pub mark_seen : Str → List Str → (Str → Bool) → Str → Bool
mark_seen service_key [] m = m
mark_seen service_key (t ∷ ts) m =
    mark_seen service_key ts (update_at m (new_key (service_key ∷ t ∷ [])) true)

-- `errors.Is(err, errNotFound)`: the error or one that it wraps is that value. The source compares the
-- whole error, its operation id included, which no error here has.
unfoldable pub is_err_not_found : Error → Bool
is_err_not_found (avngen status message) = elim (str_eq message (bytes "Topic not found")) [
  | true ↦ status == 404
  | false ↦ false
]
is_err_not_found (wrap text e) = is_err_not_found e
is_err_not_found _ = false

-- What `exists` does once the service's topics are known.
unfoldable pub check_list : Str → Bool → Repository → Option Error × Repository
check_list topic_key acquire rep =
    if rep.seen_topics topic_key
    then (none, rep)
    else if acquire
    then (some err_not_found, record rep { seen_topics = update_at rep.seen_topics topic_key true })
    else (some err_not_found, rep)

-- The answer of v1List is stored before the second check; an error leaves the caches alone.
unfoldable pub store_list :
    Str → Str → Bool → Repository → Result (List Str) → Option Error × Repository
unfolding check_list
store_list service_key topic_key acquire rep (err e) = (some e, rep)
store_list service_key topic_key acquire rep (ok list) = check_list topic_key acquire (record rep {
  seen_topics = mark_seen service_key list rep.seen_topics;
  seen_services = update_at rep.seen_services service_key true;
})

-- `create` once `exists` has answered; `created` is the answer of the API.
unfoldable pub create_answer : ClientErrors → Option Error → Option Error
create_answer lib none = none
create_answer lib (some e) =
    if lib.avngen_is_already_exists e then none else some (wrap (bytes "topic create error: ") e)

-- An answer other than "not found" leaves the cache alone.
unfoldable pub delete_after :
    {W : Type 0} → ClientErrors → Str → Option Error → System W → Option Error × System W
delete_after lib key none s =
    (none, record s { rep = record s.rep { seen_topics = update_at s.rep.seen_topics key false } })
delete_after lib key (some e) s =
    if lib.avngen_is_not_found e
    then (
      none,
      record s { rep = record s.rep { seen_topics = update_at s.rep.seen_topics key false } },
    )
    else (some e, s)

-- The exported `Exists` reports an answer "not found" as false.
unfoldable pub exists_answer : ClientErrors → Option Error → Result Bool
exists_answer lib none = ok true
exists_answer lib (some e) = if lib.avngen_is_not_found e then ok false else err e

-- `rep.queue = append(rep.queue, r)`, unless the topic is known not to exist.
unfoldable pub enqueue_after :
    {W : Type 0} → Option Error → Request → System W → Option Error × System W
enqueue_after (some e) r s = (some e, s)
enqueue_after none r s = (none, record s { rep = record s.rep { queue = s.rep.queue ++ r ∷ [] } })

module _ {W : Type 0} (client : TopicsClient W) where
  unfoldable pub exists : Str → Str → Str → Bool → System W → Option Error × System W
  unfolding store_list check_list
  exists project service topic acquire s =
      let service_key = new_key (project ∷ service ∷ []) in
      let topic_key = new_key (service_key ∷ topic ∷ []) in
      if s.rep.seen_topics topic_key
      then (none, s)
      else if s.rep.seen_services service_key
      then (let (e, rep') = check_list topic_key acquire s.rep in (e, record s { rep = rep' }))
      else let (list, world') = client.topic_list project service s.world in
        let (e, rep') = store_list service_key topic_key acquire s.rep list in
        (e, record { rep = rep'; world = world' })

  unfoldable pub create_after :
      ClientErrors → Str → Str → Str → Option Error → System W → Option Error × System W
  unfolding is_err_not_found create_answer
  create_after lib project service topic none s = (some err_already_exists, s)
  create_after lib project service topic (some e) s =
      if is_err_not_found e
      then (let (answer, world') = client.topic_create project service topic s.world in
          (create_answer lib answer, record s { world = world' }))
      else (some e, s)

  -- The API is called outside the lock that `exists` takes.
  unfoldable pub create : ClientErrors → Str → Str → Str → System W → Option Error × System W
  unfolding exists create_after
  create lib project service topic s =
      let (e, s') = exists project service topic true s in
      create_after lib project service topic e s'

  unfoldable pub update : Str → Str → Str → System W → Option Error × System W
  update project service topic s =
      let (e, world') = client.topic_update project service topic s.world in
      (e, record s { world = world' })

  -- The API is called before the lock is taken to unmark the topic.
  unfoldable pub delete : ClientErrors → Str → Str → Str → System W → Option Error × System W
  unfolding delete_after
  delete lib project service topic s =
      let (e, world') = client.topic_delete project service topic s.world in
      delete_after lib (new_key (project ∷ service ∷ topic ∷ [])) e (record s { world = world' })

  -- The exported `Exists`.
  unfoldable pub topic_exists : ClientErrors → Str → Str → Str → System W → Result Bool × System W
  unfolding exists exists_answer
  topic_exists lib project service topic s =
      let (e, s') = exists project service topic false s in (exists_answer lib e, s')

  -- `Read` up to the wait: the request is queued if the topic is known to exist, under a lock of its own.
  unfoldable pub read_enqueue : ℕ → Str → Str → Str → System W → Option Error × System W
  unfolding exists enqueue_after
  read_enqueue rsp project service topic s =
      let (e, s') = exists project service topic false s in
      enqueue_after e (record { project = project; service = service; topic = topic; rsp = rsp }) s'

unfoldable pub forget_topic : Str → Str → Str → Repository → Option Error × Repository
forget_topic project service topic rep =
    let key = new_key (project ∷ service ∷ topic ∷ []) in
    if rep.seen_topics key
    then (none, record rep { seen_topics = update_at rep.seen_topics key false })
    else (some err_not_found, rep)

unfoldable pub forget_service : Str → Str → Repository → Repository
forget_service project service rep =
    let key = new_key (project ∷ service ∷ []) in
    record rep {
      seen_services = update_at rep.seen_services key false;
      seen_topics = λ k. if has_prefix k (key ++ bytes "/") then false else rep.seen_topics k;
    }
