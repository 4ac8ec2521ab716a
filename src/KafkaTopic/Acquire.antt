-- ===== src/KafkaTopic/Acquire.antt =====
-- `Create` and `Delete` (create.go, delete.go) on the caches.
use terraform_provider_aiven.Prelude.{
  ◌≡◌, inl, inr, refl, true, false, Option, none, some, arith, Str, bytes, str_eq, str_eq_refl,
  Bool-cases,
}
use terraform_provider_aiven.Common.{Error, ClientErrors, wrap}
use terraform_provider_aiven.KafkaTopic.Repository.{
  System, TopicsClient, err_already_exists, create_after, create, delete_after, delete,
  is_err_not_found, create_answer,
}
use terraform_provider_aiven.KafkaTopic.Cache.{topic_key, service_key, exists_of_seen, exists_new}

-- What `Create` reports of an answer of the API.
pub data Reported (lib : ClientErrors) : Option Error → Option Error → Type 0 where
  accepted : Reported lib none none
  present_already : (e : Error) → lib.avngen_is_already_exists e ≡ true → Reported lib (some e) none
  rejected :
      (e : Error)
      → lib.avngen_is_already_exists e ≡ false
      → Reported lib (some e) (some (wrap (bytes "topic create error: ") e))

module _ {W : Type 0} (client : TopicsClient W) (lib : ClientErrors) where
  -- `Create` of a marked topic is refused, and neither the caches nor the API change.
  pub create_of_seen :
      (p s t : Str) (st : System W)
      → st.rep.seen_topics (topic_key p s t) ≡ true
      → create client lib p s t st ≡ (some err_already_exists, st)
  unfolding create create_after
  create_of_seen p s t st h = rw (exists_of_seen client p s t true st h)

  -- A successful `Delete` unmarks the topic and leaves the marks of the services.
  pub delete_unmarks :
      (p s t : Str) (st : System W)
      → (delete client lib p s t st).0 ≡ none
      → ((delete client lib p s t st).1.rep.seen_topics (topic_key p s t) ≡ false)
        × ((delete client lib p s t st).1.rep.seen_services ≡ st.rep.seen_services)
  unfolding delete
  delete_unmarks p s t st h =
      let (e, w) = client.topic_delete p s t st.world in unmarked e (record st { world = w }) h
    where
      unmarked :
          (e : Option Error) (u : System W)
          → (delete_after lib (topic_key p s t) e u).0 ≡ none
          → ((delete_after lib (topic_key p s t) e u).1.rep.seen_topics (topic_key p s t) ≡ false)
            × ((delete_after lib (topic_key p s t) e u).1.rep.seen_services ≡ u.rep.seen_services)
      unmarked none u g = (rw (str_eq_refl (topic_key p s t)), refl)
      unmarked (some x) u g = (ground (arith, str_eq_refl (topic_key p s t)), ground arith)

  -- `Create` of a topic that a listed service does not have goes to the API.
  create_of_listed :
      (p s t : Str) (st : System W)
      → st.rep.seen_services (service_key p s) ≡ true
      → st.rep.seen_topics (topic_key p s t) ≡ false
      → ((create client lib p s t st).0 ≡ create_answer lib (client.topic_create p s t st.world).0)
        × ((create client lib p s t st).1.world ≡ (client.topic_create p s t st.world).1)
  unfolding create create_after is_err_not_found str_eq
  create_of_listed p s t st h k = rw (exists_new client p s t st h k) (refl, refl)

  create_answer-Reported : (answer : Option Error) → Reported lib answer (create_answer lib answer)
  unfolding create_answer
  create_answer-Reported none = accepted
  create_answer-Reported (some e) = elim (Bool-cases (lib.avngen_is_already_exists e)) [
    | inl q ↦ rw q (present_already e q)
    | inr q ↦ rw q (rejected e q)
  ]

  -- After a successful `Delete` in a service that has been listed, `Create` of the same topic goes
  -- to the API without listing. It succeeds if the API creates the topic or answers that it exists
  -- already, and otherwise reports the API's error, as one of creating a topic.
  pub create-delete :
      (p s t : Str) (st : System W)
      → st.rep.seen_services (service_key p s) ≡ true
      → (delete client lib p s t st).0 ≡ none
      → let st' = (delete client lib p s t st).1 in
        Reported lib (client.topic_create p s t st'.world).0 (create client lib p s t st').0
        × ((create client lib p s t st').1.world ≡ (client.topic_create p s t st'.world).1)
  create-delete p s t st h d =
      let (u, v) = delete_unmarks p s t st d in
      let st' = (delete client lib p s t st).1 in
      let (r, w) = create_of_listed p s t st' (rw v h) u in
      (rw r (create_answer-Reported (client.topic_create p s t st'.world).0), w)
