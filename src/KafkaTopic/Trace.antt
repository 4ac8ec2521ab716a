-- ===== src/KafkaTopic/Trace.antt =====
-- The repository under any interleaving of the steps of concurrent calls and of the worker. A step is
-- one section under the repository's lock, or one call of the API outside it: `Create` locks in `exists`
-- and then calls the API, `Delete` calls the API and then locks to unmark the topic, `Read` locks in
-- `exists` and again to queue its request, and a tick of the worker locks to withdraw the queue and then
-- fetches.
use terraform_provider_aiven.Prelude.{
  ◌⊎◌, inl, inr, Bool-cases, Option, ℕ, ◌≡◌, refl, true, false, Bool, none, some, List, [], ◌∷◌,
  ◌++◌, bytes, has_prefix, Str, str_eq, All, arith, if◌then◌else◌,
}
use terraform_provider_aiven.Common.{Error, ok, ClientErrors}
use terraform_provider_aiven.KafkaTopic.Repository.{
  Repository, Request, System, TopicsClient, err_already_exists, err_not_found, create,
  create_after, delete, delete_after, update, exists, enqueue_after, forget_topic, forget_service,
  is_err_not_found, update_at,
}
use terraform_provider_aiven.KafkaTopic.Fetch.{FetchLibrary, Queue, withdraw_from, withdraw, fetch}
use terraform_provider_aiven.KafkaTopic.Cache.{
  topic_key, service_key, IsHard, exists_mono, exists_acquires, exists_of_listed, exists_lists,
  exists_then_listed,
}
use terraform_provider_aiven.KafkaTopic.Acquire.{create_of_seen}

pub data Op : Type 0 where
  -- `exists` with `acquire`, by `Create`, and without it.
  acquire_op exists_op : Str → Str → Str → Op
  -- The calls of the API.
  create_call update_call delete_call : Str → Str → Str → Op
  fetch_op : ℕ → Queue → Op
  -- The last part of `Delete`.
  unmark_op : Str → Str → Str → Op
  enqueue_op : Request → Op
  withdraw_op : Op
  forget_topic_op : Str → Str → Str → Op
  forget_service_op : Str → Str → Op

-- The step neither deletes nor forgets a topic of this key.
abbrev pub Spares : Str → Op → Type 0
Spares key (unmark_op p s t) = str_eq (topic_key p s t) key ≡ false
Spares key (forget_topic_op p s t) = str_eq (topic_key p s t) key ≡ false
Spares key (forget_service_op p s) = has_prefix key (service_key p s ++ bytes "/") ≡ false
Spares key _ = Unit

-- The step does not forget the service of this key.
abbrev pub SparesService : Str → Op → Type 0
SparesService key (forget_service_op p s) = str_eq (service_key p s) key ≡ false
SparesService key _ = Unit

module _ {W : Type 0} (client : TopicsClient W) (lib : ClientErrors) (fl : FetchLibrary W) where
  unfoldable pub step : Op → System W → System W
  step (acquire_op p s t) st = (exists client p s t true st).1
  step (exists_op p s t) st = (exists client p s t false st).1
  step (create_call p s t) st = record st { world = (client.topic_create p s t st.world).1 }
  step (update_call p s t) st = (update client p s t st).1
  step (delete_call p s t) st = record st { world = (client.topic_delete p s t st.world).1 }
  step (fetch_op size queue) st = record st { world = (fetch client lib fl size queue st.world).1 }
  step (unmark_op p s t) st = record st {
    rep = record st.rep { seen_topics = update_at st.rep.seen_topics (topic_key p s t) false };
  }
  step (enqueue_op r) st = (enqueue_after none r st).1
  step withdraw_op st = record st { rep = (withdraw st.rep).1 }
  step (forget_topic_op p s t) st = record st { rep = (forget_topic p s t st.rep).1 }
  step (forget_service_op p s) st = record st { rep = forget_service p s st.rep }

  unfoldable pub run : List Op → System W → System W
  unfolding step
  run [] st = st
  run (op ∷ ops) st = run ops (step op st)

  -- `Create` and `Delete` are their steps one after the other, the last one of which may be left out.
  create-run :
      (p s t : Str) (st : System W)
      → ((create client lib p s t st).1 ≡ run (acquire_op p s t ∷ []) st)
        ⊎ ((create client lib p s t st).1 ≡ run (acquire_op p s t ∷ create_call p s t ∷ []) st)
  unfolding create create_after run step
  create-run p s t st = after (exists client p s t true st)
    where
      after :
          (r : Option Error × System W)
          → ((create_after client lib p s t r.0 r.1).1 ≡ r.1)
            ⊎ ((create_after client lib p s t r.0 r.1).1 ≡ step (create_call p s t) r.1)
      after (none, u) = inl refl
      after (some e, u) = elim (Bool-cases (is_err_not_found e)) [
        | inl q ↦ inr (rw q refl)
        | inr q ↦ inl (rw q refl)
      ]

  delete-run :
      (p s t : Str) (st : System W)
      → ((delete client lib p s t st).1 ≡ run (delete_call p s t ∷ []) st)
        ⊎ ((delete client lib p s t st).1 ≡ run (delete_call p s t ∷ unmark_op p s t ∷ []) st)
  unfolding delete delete_after run step
  delete-run p s t st = after (client.topic_delete p s t st.world)
    where
      after :
          (r : Option Error × W)
          → let u = record st { world = r.1 } in
            ((delete_after lib (topic_key p s t) r.0 u).1 ≡ u)
            ⊎ ((delete_after lib (topic_key p s t) r.0 u).1 ≡ step (unmark_op p s t) u)
      after (none, w) = inr refl
      after (some e, w) = elim (Bool-cases (lib.avngen_is_not_found e)) [
        | inl q ↦ inr (rw q refl)
        | inr q ↦ inl (rw q refl)
      ]

  withdraw_from_keeps :
      (l : List Request) (rep : Repository)
      → ((withdraw_from l rep).1.seen_topics ≡ rep.seen_topics)
        × ((withdraw_from l rep).1.seen_services ≡ rep.seen_services)
  unfolding withdraw_from
  withdraw_from_keeps [] rep = (refl, refl)
  withdraw_from_keeps (r ∷ rs) rep = (refl, refl)

  -- A marked topic stays marked under every step that spares it.
  step_mono :
      (key : Str) (op : Op) (st : System W)
      → Spares key op
      → st.rep.seen_topics key ≡ true
      → (step op st).rep.seen_topics key ≡ true
  unfolding step
  step_mono key (acquire_op p s t) st h g = exists_mono client p s t true st key g
  step_mono key (exists_op p s t) st h g = exists_mono client p s t false st key g
  step_mono key (create_call p s t) st h g = g
  step_mono key (update_call p s t) st h g = unfold update in g
  step_mono key (delete_call p s t) st h g = g
  step_mono key (fetch_op size queue) st h g = g
  step_mono key (unmark_op p s t) st h g = rw h g
  step_mono key (enqueue_op r) st h g = unfold enqueue_after in g
  step_mono key withdraw_op st h g =
      unfold withdraw in rw ((withdraw_from_keeps st.rep.queue st.rep).0) g
  step_mono key (forget_topic_op p s t) st h g = unfold forget_topic in ground arith
  step_mono key (forget_service_op p s) st h g = unfold forget_service in rw h g

  run_mono :
      (key : Str) (ops : List Op) (st : System W)
      → All (Spares key) ops
      → st.rep.seen_topics key ≡ true
      → (run ops st).rep.seen_topics key ≡ true
  unfolding run
  run_mono key [] st h g = g
  run_mono key (op ∷ ops) st h g = run_mono key ops (step op st) h.1 (step_mono key op st h.0 g)

  -- Once a `Create` of a topic has found it missing and reserved it, every later `Create` of it is
  -- refused as a conflict and changes nothing, whatever steps of other calls and of the worker stand
  -- between the two, the first one's own call of the API included, unless one of them unmarks or
  -- forgets a topic of this key or forgets a service whose topics have this key. The listing's own
  -- errors are taken to differ from `errNotFound`.
  pub create_conflict :
      (p s t : Str) (ops : List Op) (st : System W) (e : Error)
      → IsHard client p s st
      → (exists client p s t true st).0 ≡ some e
      → is_err_not_found e ≡ true
      → All (Spares (topic_key p s t)) ops
      → let st' = run ops (exists client p s t true st).1 in
        create client lib p s t st' ≡ (some err_already_exists, st')
  create_conflict p s t ops st e hard h nf spared =
      create_of_seen client lib p s t (run ops (exists client p s t true st).1) (
        run_mono (topic_key p s t) ops (exists client p s t true st).1 spared
          (exists_acquires client p s t st e h nf hard))

  -- A service that was listed counts as listed after every step that spares it.
  step_listed :
      (key : Str) (op : Op) (st : System W)
      → SparesService key op
      → st.rep.seen_services key ≡ true
      → (step op st).rep.seen_services key ≡ true
  unfolding step
  step_listed key (acquire_op p s t) st h g = exists_lists client p s t true st key g
  step_listed key (exists_op p s t) st h g = exists_lists client p s t false st key g
  step_listed key (create_call p s t) st h g = g
  step_listed key (update_call p s t) st h g = unfold update in g
  step_listed key (delete_call p s t) st h g = g
  step_listed key (fetch_op size queue) st h g = g
  step_listed key (unmark_op p s t) st h g = g
  step_listed key (enqueue_op r) st h g = unfold enqueue_after in g
  step_listed key withdraw_op st h g =
      unfold withdraw in rw ((withdraw_from_keeps st.rep.queue st.rep).1) g
  step_listed key (forget_topic_op p s t) st h g = unfold forget_topic in ground arith
  step_listed key (forget_service_op p s) st h g = unfold forget_service in rw h g

  run_listed :
      (key : Str) (ops : List Op) (st : System W)
      → All (SparesService key) ops
      → st.rep.seen_services key ≡ true
      → (run ops st).rep.seen_services key ≡ true
  unfolding run
  run_listed key [] st h g = g
  run_listed key (op ∷ ops) st h g =
      run_listed key ops (step op st) h.1 (step_listed key op st h.0 g)

  -- A service is listed at most once until it is forgotten: after `exists` has got an answer to a listing
  -- and any steps that do not forget the service, `exists` for any topic of it makes no call of the API
  -- and finds the topic exactly if it is marked.
  pub exists_of_listed_once :
      (p s t t' : Str) (a a' : Bool) (ops : List Op) (st : System W) (list : List Str)
      → st.rep.seen_topics (topic_key p s t) ≡ false
      → (client.topic_list p s st.world).0 ≡ ok list
      → All (SparesService (service_key p s)) ops
      → let st' = run ops (exists client p s t a st).1 in
        ((exists client p s t' a' st').1.world ≡ st'.world)
        × ((exists client p s t' a' st').0
            ≡ (if st'.rep.seen_topics (topic_key p s t') then none else some err_not_found))
  exists_of_listed_once p s t t' a a' ops st list h e spared =
      exists_of_listed client p s t' a' (run ops (exists client p s t a st).1) (
        run_listed (service_key p s) ops (exists client p s t a st).1 spared
          (exists_then_listed client p s t a st list h e))
