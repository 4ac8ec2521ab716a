-- ===== src/KafkaTopic/Delivery.antt =====
-- About the responses that the worker sends to the requests it withdrew (`fetch` of read.go).
use mathlib.Core.List.{
  Mem, Perm, mem-cons_self, mem-cons_of_mem, mem-append_left, mem-append_right, append_assoc,
  append-nil, map-append,
}
use mathlib.Core.List.Perm
use terraform_provider_aiven.Prelude.{
  ℕ, ◌≡◌, refl, sym, ap, ◌∙◌, Bool, true, false, Option, none, some, List, [], ◌∷◌, ◌++◌, map,
  arith, inl, inr, Str, bytes, concat, length, Option-cases, ==_iff,
}
use terraform_provider_aiven.Common.{Error, wrap, Result, ok, err, ClientErrors, Result-cases}
use terraform_provider_aiven.KafkaTopic.Repository.{Topic, Request, TopicsClient, new_key}
use terraform_provider_aiven.KafkaTopic.Fetch.{
  Queue, get, Sending, Outcome, sends, send, send_errors, send_topics, done, judge, attempt,
  FetchLibrary, send_chunk, fetch_chunks,
}

abbrev pub channels : List Sending → List ℕ
channels sent = map (λ s. s.rsp) sent

abbrev pub topics : List Request → List Str
topics rs = map (λ r. r.topic) rs

abbrev pub rsps : List Request → List ℕ
rsps rs = map (λ r. r.rsp) rs

channels-send :
    (r : Request) (a : Result Topic) (sent : List Sending)
    → channels (send r a sent) ≡ channels sent ++ r.rsp ∷ []
unfolding send
channels-send r a sent = map-append (λ s. s.rsp) sent _

-- An error goes to every request of the group, in order.
pub channels-send_errors :
    (rs : List Request) (e : Error) (sent : List Sending)
    → channels (send_errors rs e sent) ≡ channels sent ++ rsps rs
unfolding send_errors
channels-send_errors [] e sent = sym (append-nil _)
channels-send_errors (r ∷ rs) e sent =
    channels-send_errors rs e (send r (err e) sent)
    ∙ rw channels-send (append_assoc (channels sent) (r.rsp ∷ []) (rsps rs))

abbrev pub names : List Topic → List Str
names ts = map (λ t. t.topic_name) ts

-- The channel that a topic's name leads to.
abbrev pub channel_of : Option Request → ℕ
channel_of none = 0
channel_of (some r) = r.rsp

abbrev pub is_found : Option Request → Bool
is_found none = false
is_found (some r) = true

module _ (p s : Str) (queue : Queue) where
  abbrev at_name : Str → Option Request
  at_name n = get (new_key (p ∷ s ∷ n ∷ [])) queue

  send_topics-sends :
      (ts : List Topic) (sent : List Sending)
      → ((n : Str) → Mem n (names ts) → is_found (at_name n) ≡ true)
      → (sent' : List Sending) × (send_topics p s queue ts sent ≡ sends sent')
        × (channels sent' ≡ channels sent ++ map (λ n. channel_of (at_name n)) (names ts))
  unfolding send_topics
  send_topics-sends [] sent found = (sent, refl, sym (append-nil _))
  send_topics-sends (t ∷ ts) sent found = elim (Option-cases (at_name t.topic_name)) [
    | inl e ↦ cc (found t.topic_name mem-cons_self)
    | inr (r, e) ↦
        let (sent', q, c) =
          send_topics-sends ts (send r (ok t) sent) (λ n m. found n (mem-cons_of_mem _ m)) in
        (
          sent',
          rw (e, send_topics) q,
          c
              ∙ rw (channels-send, e)
                  (append_assoc (channels sent) (r.rsp ∷ [])
                    (map (λ n. channel_of (at_name n)) (names ts))),
        )
  ]

-- What the API documents of V2List: an answer of the requested length holds the requested topics.
pub record IsFaithful {W : Type 0} (client : TopicsClient W) : Type 0 where
  pub listed :
      (p s : Str) (c : List Str) (w : W) (l : List Topic)
      → (client.topic_list_v2 p s c w).0 ≡ ok l
      → length l ≡ length c
      → Perm (names l) c

judge-done :
    (lib : ClientErrors) (c : List Str) (r : Result (List Topic)) (l : List Topic)
    → judge lib c r ≡ done l
    → (r ≡ ok l) × (length l ≡ length c)
unfolding judge
judge-done lib c (err e) l h = ground arith
judge-done lib c (ok l') l h = ground (arith, ==_iff (length l') (length c))

module _ {W : Type 0} (client : TopicsClient W) (lib : ClientErrors) (fl : FetchLibrary W) where
  -- The retries of every chunk end with an answer.
  abbrev pub RetriesSucceed : Type 0
  RetriesSucceed =
      (p s : Str) (c : List Str) (w : W)
      → (l : List Topic) × ((fl.retry_do (attempt client lib p s c) w).0 ≡ ok l)

  retry-Perm :
      (p s : Str) (c : List Str) (w : W) (l : List Topic)
      → IsFaithful client
      → (fl.retry_do (attempt client lib p s c) w).0 ≡ ok l
      → Perm (names l) c
  unfolding attempt
  retry-Perm p s c w l faithful e =
      let (w₀, q) =
        fl.retry_ok (attempt client lib p s c) w (fl.retry_do (attempt client lib p s c) w).1 l
          (cc) in
      let (a, b) = judge-done lib c (client.topic_list_v2 p s c w₀).0 l (ap (λ x. x.0) q) in
      faithful.listed p s c w₀ l a b

  module _ (faithful : IsFaithful client) (succeed : RetriesSucceed) (p s : Str) (queue : Queue)
      (reqs : List Request) where
    abbrev pub channel_at : Str → ℕ
    channel_at n = channel_of (get (new_key (p ∷ s ∷ n ∷ [])) queue)

    pub chunks-Perm :
        (cs : List (List Str)) (sent : List Sending) (w : W)
        → ((n : Str) → Mem n (concat cs) → is_found (get (new_key (p ∷ s ∷ n ∷ [])) queue) ≡ true)
        → (sent' : List Sending) × ((fetch_chunks client lib fl p s queue reqs cs (sends sent) w).0
            ≡ sends sent')
          × Perm (channels sent') (channels sent ++ map channel_at (concat cs))
    unfolding fetch_chunks
    chunks-Perm [] sent w found = (sent, refl, rw append-nil (Perm.refl _))
    chunks-Perm (c ∷ cs) sent w found =
        let (l, e) = succeed p s c w in
        let perm = retry-Perm p s c w l faithful e in
        let (mid, q, eq) =
          send_topics-sends p s queue l sent
            (λ n m. found n (mem-append_left (concat cs) ((Perm.mem_iff perm).0 m))) in
        let (sent', q', perm') =
          chunks-Perm cs mid (fl.retry_do (attempt client lib p s c) w).1
            (λ n m. found n (mem-append_right c m)) in
        let rest = λ (out : Outcome).
          (fetch_chunks client lib fl p s queue reqs cs out
            (fl.retry_do (attempt client lib p s c) w).1).0 in
        (
          sent',
          ap rest (ap (λ r. send_chunk p s queue reqs r sent) e ∙ q) ∙ q',
          rw (map-append, ← append_assoc)
              (Perm.trans perm' (
                rw eq (
                  Perm.append_right (map channel_at (concat cs))
                    (Perm.append_left (channels sent) (Perm.map channel_at perm))))),
        )

  -- The loop over one chunk answers every request of the group, also where its retries fail.
  pub one_chunk-Perm :
      (p s : Str) (queue : Queue) (reqs : List Request) (c : List Str) (sent : List Sending) (w : W)
      → IsFaithful client
      → ((n : Str) → Mem n c → is_found (get (new_key (p ∷ s ∷ n ∷ [])) queue) ≡ true)
      → map (λ n. channel_of (get (new_key (p ∷ s ∷ n ∷ [])) queue)) c ≡ rsps reqs
      → (sent' : List Sending) × ((fetch_chunks client lib fl p s queue reqs
            (c ∷ [])
            (sends sent)
            w).0
          ≡ sends sent')
        × Perm (channels sent') (channels sent ++ rsps reqs)
  unfolding fetch_chunks
  one_chunk-Perm p s queue reqs c sent w faithful found same =
      let rest = λ (r : Result (List Topic)).
        (fetch_chunks client lib fl p s queue reqs [] (send_chunk p s queue reqs r sent)
          (fl.retry_do (attempt client lib p s c) w).1).0 in
      elim (Result-cases (fl.retry_do (attempt client lib p s c) w).0) [
        | inl (l, e) ↦
            let perm = retry-Perm p s c w l faithful e in
            let (sent', q, eq) =
              send_topics-sends p s queue l sent (λ n m. found n ((Perm.mem_iff perm).0 m)) in
            (
              sent',
              ap rest e
                  ∙ ap
                      (λ (out : Outcome).
                        (fetch_chunks client lib fl p s queue reqs [] out
                          (fl.retry_do (attempt client lib p s c) w).1).0)
                      q,
              rw (eq, ← same) (Perm.append_left (channels sent) (Perm.map _ perm)),
            )
        | inr (x, e) ↦ (
          send_errors reqs (wrap (bytes "topic read error: ") x) sent,
          ap rest e,
          rw channels-send_errors (Perm.refl _),
        )
      ]
