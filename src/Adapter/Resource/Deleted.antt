-- ===== src/Adapter/Resource/Deleted.antt =====
-- resource.go: what an answer of `Delete` without an error says, and how often the delete is issued.
use terraform_provider_aiven.Prelude.{
  ◌≡◌, refl, sym, ◌∙◌, subst, ◌⊎◌, inl, inr, Bool-cases, true, not, ◌&&◌, ◌||◌, Option,
  Option-cases, none, some, [], Str, is_empty,
}
use terraform_provider_aiven.Adapter.Failure.{
  Failure, context_done, sentinel, wrapped, joined, delete_desired, is, is_not_found, join_failures,
}
use terraform_provider_aiven.Adapter.Failure.NotFound.{
  message-found, done-found, desired-found, joined-not_found,
}
use terraform_provider_aiven.Adapter.Retry.{Retried, never, tried}
use terraform_provider_aiven.Adapter.Retry.Last.{
  Ended, fine, halted, expired, IsLast, last, Attempts-IsLast,
}
use terraform_provider_aiven.Adapter.Resource.{
  Called, Found, DeleteOptions, Fmt, ResourceAdapter, opened, opening, refused, answered, is_one_of,
}
use terraform_provider_aiven.Adapter.Resource.Refresh.{has_none}
use terraform_provider_aiven.Adapter.Resource.Delete.{
  Deleting, no_error, still_there, issue, read_deleted, delete_attempt, undeleted,
  with_delete_error, polled, delete_state, run_delete, after_delete, delete_resource,
}

some_inj : {e d : Failure} → some e ≡ some d → e ≡ d
some_inj h = cc

still_there-none :
    (fmt : Fmt) (o : DeleteOptions) (g : Str → Found)
    → still_there fmt o g ≡ none
    → ((g o.attribute).there ≡ true) × (is_one_of fmt o.desired (g o.attribute).value ≡ true)
unfolding still_there
still_there-none fmt o g h = elim (Bool-cases (has_none o.desired)) [
  | inl p ↦ let h = rw p at h in cc
  | inr p ↦
      let h = rw p at h in
      elim (Bool-cases (g o.attribute).there) [
        | inr q ↦ let h = rw q at h in cc
        | inl q ↦
            let h = rw q at h in
            elim (Bool-cases (is_one_of fmt o.desired (g o.attribute).value)) [
              | inl r ↦ (q, r)
              | inr r ↦ let h = rw r at h in cc
            ]
      ]
]

still_there-some :
    (fmt : Fmt) (o : DeleteOptions) (g : Str → Found) (e : Failure)
    → still_there fmt o g ≡ some e
    → (s : Str) × (e ≡ wrapped s (sentinel delete_desired))
unfolding still_there
still_there-some fmt o g e h = elim (Bool-cases (has_none o.desired)) [
  | inl p ↦ let h = rw p at h in (_, some_inj (sym h))
  | inr p ↦
      let h = rw p at h in
      elim (Bool-cases
        (not (g o.attribute).there || not (is_one_of fmt o.desired (g o.attribute).value))) [
          | inl q ↦ let h = rw q at h in (_, some_inj (sym h))
          | inr q ↦ let h = rw q at h in cc
        ]
]

-- Where the last delete succeeded, no error of a delete is remembered.
Cleared : {S : Type 0} → Deleting S → Type 0
Cleared d = d.succeeded ≡ true → d.delete_error ≡ none

module _ {S : Type 0} (a : ResourceAdapter S (Deleting S)) (delete : S → Called S)
    (o : DeleteOptions) where
  -- How the data came about that an answer without an error leaves: the last read found nothing, or found the
  -- attribute to have a value wanted, or the delete of the last attempt found nothing.
  pub data Gone : S → Type 0 where
    read_gone :
        (s : S) (e : Failure)
        → (a.options.read s).failure ≡ some e
        → is_not_found a.client e ≡ true
        → Gone (a.options.read s).after
    reached :
        (s : S)
        → (a.options.read s).failure ≡ none
        → (a.handle.get_ok (a.options.read s).after o.attribute).there ≡ true
        → is_one_of a.fmt o.desired (a.handle.get_ok (a.options.read s).after o.attribute).value
          ≡ true
        → Gone (a.options.read s).after
    delete_gone :
        (s : S) (e : Failure)
        → (delete s).failure ≡ some e
        → is_not_found a.client e ≡ true
        → Gone (a.options.read (delete s).after).after

  delete_attempt-Cleared :
      (d : Deleting S) → Cleared d → Cleared (delete_attempt a delete o d).after
  unfolding Cleared delete_attempt issue read_deleted no_error
  delete_attempt-Cleared d i p = elim (Bool-cases d.succeeded) [
    | inl q ↦ rw q (i q)
    | inr q ↦
        let p = rw q at p in
        elim (Option-cases (delete d.data_now).failure) [
          | inl r ↦ rw q r
          | inr (e, r) ↦ let p = rw r at p in cc
        ]
  ]

  read_deleted-none :
      (d : Deleting S)
      → (read_deleted a delete o d).failure ≡ none
      → ((a.options.read d.data_now).failure ≡ none)
        × (still_there a.fmt o (a.handle.get_ok (a.options.read d.data_now).after) ≡ none)
  unfolding read_deleted
  read_deleted-none d h = elim (Option-cases (a.options.read d.data_now).failure) [
    | inl r ↦ (r, rw r at h)
    | inr (e, r) ↦ let h = rw r at h in cc
  ]

  read_deleted-some :
      (d : Deleting S) (e : Failure)
      → (read_deleted a delete o d).failure ≡ some e
      → ((a.options.read d.data_now).failure ≡ some e)
        ⊎ ((s : Str) × (e ≡ wrapped s (sentinel delete_desired)))
  unfolding read_deleted
  read_deleted-some d e h = elim (Option-cases (a.options.read d.data_now).failure) [
    | inl r ↦
        inr (
          still_there-some a.fmt o (a.handle.get_ok (a.options.read d.data_now).after) e
            (rw r at h))
    | inr (f, r) ↦ inl (r ∙ rw r at h)
  ]

  -- The delete of an attempt that leaves an error is the one that failed with it.
  issued-Gone :
      (u : Deleting S) (e : Failure)
      → Cleared u
      → (issue a delete o u).delete_error ≡ some e
      → is_not_found a.client e ≡ true
      → Gone (a.options.read (issue a delete o u).data_now).after
  unfolding Cleared issue
  issued-Gone u e i h n = elim (Bool-cases u.succeeded) [
    | inl q ↦ let h = rw q at h in let p = i q in cc
    | inr q ↦ rw q (delete_gone u.data_now e (rw q at h) n)
  ]

  read_found-Gone :
      (u : Deleting S) (e : Failure)
      → (read_deleted a delete o u).failure ≡ some e
      → is_not_found a.client e ≡ true
      → Gone (a.options.read u.data_now).after
  read_found-Gone u e h n = elim (read_deleted-some u e h) [
    | inl p ↦ read_gone u.data_now e p n
    | inr (s, p) ↦ let n = rw p at n in absurd (desired-found a.client s n)
  ]

  expired-Gone :
      (u : Deleting S) (e : Failure)
      → Cleared u
      → (delete_attempt a delete o u).failure ≡ some e
      → is_not_found a.client
          (join_failures (joined context_done e) (issue a delete o u).delete_error)
        ≡ true
      → Gone (a.options.read (issue a delete o u).data_now).after
  unfolding delete_attempt join_failures
  expired-Gone u e i h n =
      let of_attempt : is_not_found a.client (joined context_done e) ≡ true
          → Gone (a.options.read (issue a delete o u).data_now).after =
        λ m. elim (joined-not_found a.client context_done e m) [
          | inl p ↦ absurd (done-found a.client p)
          | inr p ↦ read_found-Gone (issue a delete o u) e h p
        ] in
      elim (Option-cases (issue a delete o u).delete_error) [
        | inl q ↦ of_attempt (rw q at n)
        | inr (d, q) ↦ elim (joined-not_found a.client (joined context_done e) d (rw q at n)) [
          | inl p ↦ of_attempt p
          | inr p ↦ issued-Gone u d i q p
        ]
      ]

  last-Gone :
      (u : Deleting S) (r : Option Failure)
      → Cleared u
      → Ended (delete_attempt a delete o) (is delete_desired) u r
      → ((e : Failure)
          → with_delete_error a delete o r (delete_attempt a delete o u).after.delete_error ≡ some e
          → is_not_found a.client e ≡ true)
      → Gone (delete_attempt a delete o u).after.data_now
  unfolding delete_attempt read_deleted with_delete_error is
  last-Gone u r i (fine h) k =
      let (p, q) = read_deleted-none (issue a delete o u) h in
      let (there, one) =
        still_there-none a.fmt o
          (a.handle.get_ok (a.options.read (issue a delete o u).data_now).after) q in
      reached (issue a delete o u).data_now p there one
  last-Gone u r i (halted e h d) k = read_found-Gone (issue a delete o u) e h (k e (rw d refl))
  last-Gone u r i (expired e h d) k = expired-Gone u e i h (k _ (rw d refl))

  IsLast-Gone :
      {r : Option Failure} {t : Deleting S}
      → IsLast Cleared (delete_attempt a delete o) (is delete_desired) r t
      → ((e : Failure)
          → with_delete_error a delete o r t.delete_error ≡ some e
          → is_not_found a.client e ≡ true)
      → Gone t.data_now
  IsLast-Gone (last {r = r} u i h) k = last-Gone u r i h k

  Retried-Gone :
      (s : S) {r : Option Failure} {t : Deleting S}
      → Retried (delete_attempt a delete o) (is delete_desired) (undeleted a delete o s) r t
      → ((e : Failure)
          → with_delete_error a delete o r t.delete_error ≡ some e
          → is_not_found a.client e ≡ true)
      → Gone t.data_now
  unfolding with_delete_error is undeleted Cleared
  Retried-Gone s never k = absurd (done-found a.client (k context_done refl))
  Retried-Gone s (tried rest) k =
      IsLast-Gone
        (Attempts-IsLast Cleared (delete_attempt a delete o) (is delete_desired)
          delete_attempt-Cleared (λ p. refl) rest)
        k

  delete_state-Gone :
      (s : S)
      → ((e : Failure)
          → (delete_state a delete o s).failure ≡ some e
          → is_not_found a.client e ≡ true)
      → Gone (delete_state a delete o s).after
  unfolding delete_state polled
  delete_state-Gone s k = elim (Bool-cases (not (has_none o.desired) && is_empty o.attribute)) [
    | inl p ↦ let k = rw p at k in absurd (message-found a.client _ (k _ refl))
    | inr p ↦
        let k = rw p at k in
        rw p (
          Retried-Gone s
            (a.retry.law (delete_attempt a delete o) (is delete_desired) (undeleted a delete o s))
            k)
  ]

module _ {S : Type 0} (a : ResourceAdapter S (Deleting S)) where
  after_delete-fine :
      (r : Called S)
      → (after_delete a r).problems ≡ []
      → (e : Failure) → r.failure ≡ some e
      → is_not_found a.client e ≡ true
  unfolding after_delete refused
  after_delete-fine r h e p = elim (Bool-cases (is_not_found a.client e)) [
    | inl q ↦ q
    | inr q ↦ let h = rw (p, q) at h in cc
  ]

  after_delete-after : (r : Called S) → (after_delete a r).after ≡ r.after
  unfolding after_delete refused answered
  after_delete-after r = elim (Option-cases r.failure) [
    | inl p ↦ rw p refl
    | inr (e, p) ↦ elim (Bool-cases (is_not_found a.client e)) [
      | inl q ↦ rw (p, q) refl
      | inr q ↦ rw (p, q) refl
    ]
  ]

  delete_resource-after :
      (delete : S → Called S) (o : DeleteOptions) (s t : S)
      → a.options.delete ≡ some delete
      → a.options.delete_state ≡ some o
      → (delete_resource a s (opened t)).after ≡ (delete_state a delete o t).after
  unfolding delete_resource run_delete opening
  delete_resource-after delete o s t d p =
      rw (d, p) (after_delete-after (delete_state a delete o t))

  -- Where a resource polls its deletion and `Delete` answers without an error, the last read found nothing, or it
  -- found the attribute to have a value wanted, or the delete that was issued just before it found nothing.
  pub delete_resource-Gone :
      (delete : S → Called S) (o : DeleteOptions) (s t : S)
      → a.options.delete ≡ some delete
      → a.options.delete_state ≡ some o
      → (delete_resource a s (opened t)).problems ≡ []
      → Gone a delete o (delete_resource a s (opened t)).after
  unfolding delete_resource run_delete opening
  delete_resource-Gone delete o s t d p h =
      let h = rw (d, p) at h in
      subst (Gone a delete o) (sym (delete_resource-after delete o s t d p))
        (delete_state-Gone a delete o t (after_delete-fine (delete_state a delete o t) h))
