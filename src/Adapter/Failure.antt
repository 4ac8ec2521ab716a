-- ===== src/Adapter/Failure.antt =====
-- The errors of internal/plugin/adapter: the sentinels of resource.go, an `avngen.Error`, and what
-- `errors.Join`, `%w` and a retry that times out make of them.
pub mod NotFound
use terraform_provider_aiven.Prelude.{
  ℕ, Bool, true, false, ◌||◌, Option, none, some, ◌≡◌, ◌==◌, Str,
}

-- `ErrNotFound`, `ErrMultiple`, `ErrRefreshStateDesired`, `ErrRefreshStateFailed`, `ErrDeleteStateDesired`
pub data Sentinel : Type 0 where
  not_found multiple refresh_desired refresh_failed delete_desired : Sentinel

-- `context_done` is the error of a context that was cancelled or whose deadline passed.
pub data Failure : Type 0 where
  api : ℕ → Str → Failure
  message : Str → Failure
  context_done : Failure
  sentinel : Sentinel → Failure
  wrapped : Str → Failure → Failure
  joined : Failure → Failure → Failure

unfoldable pub same : Sentinel → Sentinel → Bool
same not_found not_found = true
same multiple multiple = true
same refresh_desired refresh_desired = true
same refresh_failed refresh_failed = true
same delete_desired delete_desired = true
same a b = false

-- `errors.Is` for a sentinel
unfoldable pub is : Sentinel → Failure → Bool
unfolding same
is a (sentinel b) = same a b
is a (wrapped text e) = is a e
is a (joined d e) = is a d || is a e
is a _ = false

unfoldable pub or_else : Option ℕ → Option ℕ → Option ℕ
or_else (some a) b = some a
or_else none b = b

-- The status of the first `avngen.Error` that `errors.As` finds.
unfoldable pub status : Failure → Option ℕ
unfolding or_else
status (api s m) = some s
status (wrapped text e) = status e
status (joined d e) = or_else (status d) (status e)
status _ = none

unfoldable pub is_status : ℕ → Option ℕ → Bool
is_status s none = false
is_status s (some t) = t == s

-- `isAivenError`
unfoldable pub is_aiven_error : Failure → ℕ → Bool
unfolding is_status status
is_aiven_error e s = is_status s (status e)

-- The tests of the generated client: they look for the first `avngen.Error` of the chain.
pub record Client : Type 0 where
  pub is_missing : Failure → Bool
  pub is_already_exists : Failure → Bool
  pub missing : (e : Failure) → is_missing e ≡ is_aiven_error e 404
  pub already_exists : (e : Failure) → is_already_exists e ≡ is_aiven_error e 409

module _ (client : Client) where
  -- `IsNotFound` and `isRefreshStateRetryable`
  unfoldable pub is_not_found : Failure → Bool
  is_not_found e = is not_found e || client.is_missing e

  unfoldable pub is_refresh_retryable : Failure → Bool
  unfolding is_not_found
  is_refresh_retryable e = is_not_found e || is_aiven_error e 403 || is refresh_desired e

-- `errors.Join`, which drops a nil.
unfoldable pub join_failures : Failure → Option Failure → Failure
join_failures e none = e
join_failures e (some d) = joined e d
