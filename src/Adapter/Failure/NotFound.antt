-- ===== src/Adapter/Failure/NotFound.antt =====
-- Which errors `IsNotFound` takes for a 404: what `errors.Join` and `%w` do to them.
use terraform_provider_aiven.Prelude.{
  ℕ, ◌≡◌, refl, sym, ◌∙◌, ◌⊎◌, inl, inr, Bool, Bool-cases, true, false, ◌||◌, Option, none, some,
  Str,
}
use terraform_provider_aiven.Adapter.Failure.{
  Failure, message, context_done, sentinel, wrapped, joined, not_found, delete_desired, same, is,
  or_else, status, is_status, is_aiven_error, Client, is_not_found,
}

-- Of two errors that are joined, one is not found if the whole is.
or-true : (b c : Bool) → (b || c) ≡ true → (b ≡ true) ⊎ (c ≡ true)
or-true true c h = inl refl
or-true false c h = inr h

or_else-is_status :
    (s : ℕ) (m n : Option ℕ)
    → is_status s (or_else m n) ≡ true
    → (is_status s m ≡ true) ⊎ (is_status s n ≡ true)
unfolding or_else is_status
or_else-is_status s none n h = inr h
or_else-is_status s (some t) n h = inl h

module _ (client : Client) where
  is_not_found-cases :
      (e : Failure)
      → is_not_found client e ≡ true
      → (is not_found e ≡ true) ⊎ (is_status 404 (status e) ≡ true)
  unfolding is_not_found is_aiven_error
  is_not_found-cases e h = elim (or-true (is not_found e) (client.is_missing e) h) [
    | inl p ↦ inl p
    | inr p ↦ inr (sym (client.missing e) ∙ p)
  ]

  pub from_is : (e : Failure) → is not_found e ≡ true → is_not_found client e ≡ true
  unfolding is_not_found
  from_is e p = rw p refl

  pub from_status : (e : Failure) → is_status 404 (status e) ≡ true → is_not_found client e ≡ true
  unfolding is_not_found is_aiven_error
  from_status e p =
      let q : client.is_missing e ≡ true = client.missing e ∙ p in
      elim (Bool-cases (is not_found e)) [ inl r ↦ rw r refl | inr r ↦ rw (r, q) refl ]

  pub joined-not_found :
      (d e : Failure)
      → is_not_found client (joined d e) ≡ true
      → (is_not_found client d ≡ true) ⊎ (is_not_found client e ≡ true)
  unfolding is status
  joined-not_found d e h = elim (is_not_found-cases (joined d e) h) [
    | inl p ↦ elim (or-true (is not_found d) (is not_found e) p) [
      | inl q ↦ inl (from_is d q)
      | inr q ↦ inr (from_is e q)
    ]
    | inr p ↦ elim (or_else-is_status 404 (status d) (status e) p) [
      | inl q ↦ inl (from_status d q)
      | inr q ↦ inr (from_status e q)
    ]
  ]

  -- A text around a sentinel that is not `ErrNotFound`, and the error of a context.
  pub message-found : (s : Str) → is_not_found client (message s) ≡ true → ⊥
  unfolding is status is_status
  message-found s h = elim (is_not_found-cases (message s) h) [ inl p ↦ cc | inr p ↦ cc ]

  pub done-found : is_not_found client context_done ≡ true → ⊥
  unfolding is status is_status
  done-found h = elim (is_not_found-cases context_done h) [ inl p ↦ cc | inr p ↦ cc ]

  pub desired-found :
      (s : Str) → is_not_found client (wrapped s (sentinel delete_desired)) ≡ true → ⊥
  unfolding is status is_status same
  desired-found s h = elim (is_not_found-cases (wrapped s (sentinel delete_desired)) h) [
    | inl p ↦ cc
    | inr p ↦ cc
  ]
