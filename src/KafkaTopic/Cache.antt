-- ===== src/KafkaTopic/Cache.antt =====
-- About the caches of repository.go: the services listed and the topics seen.
use terraform_provider_aiven.Prelude.{
  ◌≡◌, inl, inr, refl, Bool, true, false, none, some, List, [], ◌∷◌, arith, Str, str_eq_iff,
  str_eq_refl, str_mem, if◌then◌else◌,
}
use terraform_provider_aiven.Common.{Error, ok, err, Result-cases}
use terraform_provider_aiven.KafkaTopic.Repository.{
  System, TopicsClient, err_not_found, new_key, update_at, mark_seen, exists, is_err_not_found,
}
use terraform_provider_aiven.KafkaTopic.Keys.{new_key-new_key, new_key_topic_injective}

abbrev pub topic_key : Str → Str → Str → Str
topic_key p s t = new_key (p ∷ s ∷ t ∷ [])

abbrev pub service_key : Str → Str → Str
service_key p s = new_key (p ∷ s ∷ [])

-- A topic is marked after the listing if it was before, or if it is listed.
pub mark_seen-eq :
    (k : Str) (ts : List Str) (m : Str → Bool) (t : Str)
    → mark_seen k ts m (new_key (k ∷ t ∷ []))
      ≡ (if str_mem t ts then true else m (new_key (k ∷ t ∷ [])))
unfolding mark_seen
mark_seen-eq k [] m t = refl
mark_seen-eq k (u ∷ us) m t = ground (
  arith,
  mark_seen-eq k us (update_at m (new_key (k ∷ u ∷ [])) true) t,
  str_eq_iff t u,
  str_eq_iff (new_key (k ∷ u ∷ [])) (new_key (k ∷ t ∷ [])),
  new_key_topic_injective k u t,
)

mark_seen_mono :
    (k : Str) (ts : List Str) (m : Str → Bool) (key : Str)
    → m key ≡ true
    → mark_seen k ts m key ≡ true
unfolding mark_seen
mark_seen_mono k [] m key h = h
mark_seen_mono k (u ∷ us) m key h =
    mark_seen_mono k us (update_at m (new_key (k ∷ u ∷ [])) true) key (ground arith)

module _ {W : Type 0} (client : TopicsClient W) where
  -- `exists` never forgets a topic.
  pub exists_mono :
      (p s t : Str) (a : Bool) (st : System W) (key : Str)
      → st.rep.seen_topics key ≡ true
      → (exists client p s t a st).1.rep.seen_topics key ≡ true
  unfolding exists
  exists_mono p s t a st key h = elim (Result-cases (client.topic_list p s st.world).0) [
    | inl (list, e) ↦ ground (arith, mark_seen_mono (service_key p s) list st.rep.seen_topics key)
    | inr (x, e) ↦ ground arith
  ]

  pub exists_of_seen :
      (p s t : Str) (a : Bool) (st : System W)
      → st.rep.seen_topics (topic_key p s t) ≡ true
      → exists client p s t a st ≡ (none, st)
  unfolding exists
  exists_of_seen p s t a st h = rw (new_key-new_key, h)

  -- Where the topic is not known yet and its service has not been listed, `exists` asks the API once
  -- and finds the topic exactly if it is listed.
  pub exists-iff-listed :
      (p s t : Str) (st : System W) (list : List Str)
      → st.rep.seen_topics (topic_key p s t) ≡ false
      → st.rep.seen_services (service_key p s) ≡ false
      → (client.topic_list p s st.world).0 ≡ ok list
      → ((exists client p s t false st).0 ≡ (if str_mem t list then none else some err_not_found))
        × ((exists client p s t false st).1.world ≡ (client.topic_list p s st.world).1)
        × ((exists client p s t false st).1.rep.seen_services (service_key p s) ≡ true)
  unfolding exists
  exists-iff-listed p s t st list h k e =
      let m = mark_seen-eq (service_key p s) list st.rep.seen_topics t in
      ground (arith, m, new_key-new_key p s t, str_eq_refl (service_key p s))

  -- `exists` never forgets that a service was listed.
  pub exists_lists :
      (p s t : Str) (a : Bool) (st : System W) (key : Str)
      → st.rep.seen_services key ≡ true
      → (exists client p s t a st).1.rep.seen_services key ≡ true
  unfolding exists
  exists_lists p s t a st key h = elim (Result-cases (client.topic_list p s st.world).0) [
    | inl (list, e) ↦ ground arith
    | inr (x, e) ↦ ground arith
  ]

  -- An answer to a listing marks the service.
  pub exists_then_listed :
      (p s t : Str) (a : Bool) (st : System W) (list : List Str)
      → st.rep.seen_topics (topic_key p s t) ≡ false
      → (client.topic_list p s st.world).0 ≡ ok list
      → (exists client p s t a st).1.rep.seen_services (service_key p s) ≡ true
  unfolding exists
  exists_then_listed p s t a st list h e =
      ground (arith, new_key-new_key p s t, str_eq_refl (service_key p s))

  -- Where the service has been listed, `exists` asks nothing of the API and answers by the cache.
  pub exists_of_listed :
      (p s t : Str) (a : Bool) (st : System W)
      → st.rep.seen_services (service_key p s) ≡ true
      → ((exists client p s t a st).1.world ≡ st.world)
        × ((exists client p s t a st).0
            ≡ (if st.rep.seen_topics (topic_key p s t) then none else some err_not_found))
  unfolding exists
  exists_of_listed p s t a st h = ground (arith, new_key-new_key p s t)

  pub exists_new :
      (p s t : Str) (st : System W)
      → st.rep.seen_services (service_key p s) ≡ true
      → st.rep.seen_topics (topic_key p s t) ≡ false
      → exists client p s t true st ≡ (
        some err_not_found,
        record st {
          rep = record st.rep { seen_topics = update_at st.rep.seen_topics (topic_key p s t) true };
        },
      )
  unfolding exists
  exists_new p s t st h k = rw (new_key-new_key, k, h)

  -- The API's own error is not the repository's `errNotFound`.
  abbrev pub IsHard : Str → Str → System W → Type 0
  IsHard p s st =
      (x : Error) → (client.topic_list p s st.world).0 ≡ err x → is_err_not_found x ≡ false

  -- An acquiring call that reports "not found" leaves the topic marked.
  pub exists_acquires :
      (p s t : Str) (st : System W) (e : Error)
      → (exists client p s t true st).0 ≡ some e
      → is_err_not_found e ≡ true
      → IsHard p s st
      → (exists client p s t true st).1.rep.seen_topics (topic_key p s t) ≡ true
  unfolding exists
  exists_acquires p s t st e h nf hard = elim (Result-cases (client.topic_list p s st.world).0) [
    | inl (list, q) ↦ ground (arith, new_key-new_key p s t, str_eq_refl (topic_key p s t))
    | inr (x, q) ↦ ground (arith, new_key-new_key p s t, str_eq_refl (topic_key p s t), hard x q)
  ]
