-- ===== src/Adapter/Resource/Settled.antt =====
-- resource.go: what `refreshState` says when it has no error.
use terraform_provider_aiven.Prelude.{
  ◌≡◌, refl, inl, inr, Bool, Bool-cases, true, false, Option, Option-cases, none, some, List, [],
  Str,
}
use terraform_provider_aiven.Adapter.Failure.{Failure, is, refresh_failed, is_refresh_retryable}
use terraform_provider_aiven.Adapter.Retry.{Ran, Retried, never, tried}
use terraform_provider_aiven.Adapter.Retry.Last.{fine, IsLast, last, Attempts-IsLast}
use terraform_provider_aiven.Adapter.Resource.{Found, Condition, Fmt, ResourceAdapter, is_one_of}
use terraform_provider_aiven.Adapter.Resource.Refresh.{
  Polled, values_of, has_condition, condition_error, attribute_error, check_error, first_error,
  unsettled, refresh_attempt, poll_refresh, after_wait, delayed, unless, refresh_state,
}

-- The attribute has a value wanted and none that is a failure.
pub IsWanted : Fmt → Condition → Found → Type 0
IsWanted fmt c found =
    (found.there ≡ true)
    × (is_one_of fmt (values_of c.desired) found.value ≡ true)
    × (is_one_of fmt (values_of c.failed) found.value ≡ false)

attribute_error-none :
    (fmt : Fmt) (c : Condition) (f : Found) → attribute_error fmt c f ≡ none → IsWanted fmt c f
unfolding attribute_error IsWanted
attribute_error-none fmt c f h = elim (Bool-cases f.there) [
  | inr p ↦ let h = rw p at h in cc
  | inl p ↦
      let h = rw p at h in
      elim (Bool-cases (is_one_of fmt (values_of c.failed) f.value)) [
        | inl q ↦ let h = rw q at h in cc
        | inr q ↦
            let h = rw q at h in
            elim (Bool-cases (is_one_of fmt (values_of c.desired) f.value)) [
              | inl r ↦ (p, r, q)
              | inr r ↦ let h = rw r at h in cc
            ]
      ]
]

first_error-none : (e d : Option Failure) → first_error e d ≡ none → (e ≡ none) × (d ≡ none)
unfolding first_error
first_error-none none d h = (refl, h)
first_error-none (some e) d h = cc

-- The check of a resource, where it has one, has no error.
unfoldable pub Passes : {S : Type 0} → Option (S → Option Failure) → S → Type 0
Passes none s = Unit
Passes (some check) s = check s ≡ none

check_error-none :
    {S : Type 0} (c : Option (S → Option Failure)) (s : S) → check_error c s ≡ none → Passes c s
unfolding check_error Passes
check_error-none none s h = tt
check_error-none (some check) s h = elim (Option-cases (check s)) [
  | inl p ↦ p
  | inr (e, p) ↦
      let h = rw p at h in
      elim (Bool-cases (is refresh_failed e)) [
        | inl q ↦ let h = rw q at h in cc
        | inr q ↦ let h = rw q at h in cc
      ]
]

module _ {S : Type 0} (a : ResourceAdapter S (Polled S)) (c : Condition) where
  -- What the last read gave: the data and the warnings that are answered.
  pub data Settled : List Str → S → Type 0 where
    settled :
        (s : S)
        → (a.options.read s).failure ≡ none
        → (has_condition c ≡ true
            → IsWanted a.fmt c (a.handle.get_ok (a.options.read s).after c.attribute))
        → Passes a.options.refresh_check (a.options.read s).after
        → Settled (a.options.read s).warnings (a.options.read s).after

  unsettled-none :
      (s : S)
      → unsettled a c s ≡ none
      → (has_condition c ≡ true → IsWanted a.fmt c (a.handle.get_ok s c.attribute))
        × Passes a.options.refresh_check s
  unfolding unsettled
  unsettled-none s h =
      let (d, e) = first_error-none _ (check_error a.options.refresh_check s) h in
      (
        λ w. attribute_error-none a.fmt c (a.handle.get_ok s c.attribute) (rw w at d),
        check_error-none a.options.refresh_check s e,
      )

  attempt-Settled :
      (p : Polled S)
      → (refresh_attempt a c p).failure ≡ none
      → Settled (refresh_attempt a c p).after.warnings (refresh_attempt a c p).after.data_now
  unfolding refresh_attempt
  attempt-Settled p h = elim (Option-cases (a.options.read p.data_now).failure) [
    | inr (e, q) ↦ let h = rw q at h in cc
    | inl q ↦
        let (wanted, passes) = unsettled-none (a.options.read p.data_now).after (rw q at h) in
        settled p.data_now q wanted passes
  ]

  IsLast-Settled :
      {r : Option Failure} {t : Polled S}
      → IsLast (λ p. Unit) (refresh_attempt a c) (is_refresh_retryable a.client) r t
      → r ≡ none
      → Settled t.warnings t.data_now
  IsLast-Settled (last u i (fine h)) e = attempt-Settled u h
  IsLast-Settled (last u i h) e = cc

  Retried-Settled :
      {s : Polled S} {r : Option Failure} {t : Polled S}
      → Retried (refresh_attempt a c) (is_refresh_retryable a.client) s r t
      → r ≡ none
      → Settled t.warnings t.data_now
  Retried-Settled never e = cc
  Retried-Settled (tried rest) e =
      IsLast-Settled (Attempts-IsLast (λ p. Unit) _ _ (λ s i. tt) tt rest) e

  poll_refresh-Settled :
      (s : S)
      → (poll_refresh a c s).failure ≡ none
      → Settled (poll_refresh a c s).warnings (poll_refresh a c s).after
  unfolding poll_refresh
  poll_refresh-Settled s h =
      Retried-Settled
        (a.retry.law (refresh_attempt a c) (is_refresh_retryable a.client)
          (record { data_now = s; warnings = [] }))
        h

  after_wait-Settled :
      (w : Ran S)
      → (after_wait a c w).failure ≡ none
      → Settled (after_wait a c w).warnings (after_wait a c w).after
  unfolding after_wait
  after_wait-Settled w h = elim (Option-cases w.failure) [
    | inl p ↦ let h = rw p at h in rw p (poll_refresh-Settled w.after h)
    | inr (e, p) ↦ let h = rw p at h in cc
  ]

  delayed-Settled :
      (b : Bool) (s : S)
      → (delayed a c b s).failure ≡ none
      → Settled (delayed a c b s).warnings (delayed a c b s).after
  unfolding delayed
  delayed-Settled true s h = after_wait-Settled (a.wait s) h
  delayed-Settled false s h = poll_refresh-Settled s h

  unless-Settled :
      (e : Option Failure) (s : S)
      → (unless a c e s).failure ≡ none
      → Settled (unless a c e s).warnings (unless a c e s).after
  unfolding unless
  unless-Settled (some e) s h = cc
  unless-Settled none s h = delayed-Settled a.options.has_delay s h

  -- `refreshState` without an error answers with the data and the warnings of its last read: that read succeeded,
  -- the attribute of the condition, where there is one, has a value wanted and none of a failure, and the check of
  -- the resource passes.
  pub refresh_state-Settled :
      (s : S)
      → (refresh_state a c s).failure ≡ none
      → Settled (refresh_state a c s).warnings (refresh_state a c s).after
  unfolding refresh_state
  refresh_state-Settled s h = unless-Settled (condition_error a.fmt c) s h
