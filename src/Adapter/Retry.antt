-- ===== src/Adapter/Retry.antt =====
-- What internal/plugin/adapter uses of retry-go: `retry.Do` without a cap on the attempts, with the context's
-- error wrapped with that of the last attempt.
pub mod Last
use terraform_provider_aiven.Prelude.{◌≡◌, Bool, true, false, Option, none, some}
use terraform_provider_aiven.Adapter.Failure.{Failure, context_done, joined}

-- What a call returns, and the state behind it.
pub record Ran (S : Type 0) : Type 0 where
  pub failure : Option Failure
  pub after : S

-- Attempts from a state, with the error that they end with and the state behind the last of them.
pub data Attempts {S : Type 0} (attempt : S → Ran S) (again : Failure → Bool)
    : S → Option Failure → S → Type 0 where
  succeeded : {s : S} → (attempt s).failure ≡ none → Attempts attempt again s none (attempt s).after
  stopped :
      {s : S} {e : Failure}
      → (attempt s).failure ≡ some e
      → again e ≡ false
      → Attempts attempt again s (some e) (attempt s).after
  timed_out :
      {s : S} {e : Failure}
      → (attempt s).failure ≡ some e
      → again e ≡ true
      → Attempts attempt again s (some (joined context_done e)) (attempt s).after
  repeated :
      {s t : S} {e : Failure} {r : Option Failure}
      → (attempt s).failure ≡ some e
      → again e ≡ true
      → Attempts attempt again (attempt s).after r t
      → Attempts attempt again s r t

-- `retry.Do`: the context was done before the first attempt, or there are attempts.
pub data Retried {S : Type 0} (attempt : S → Ran S) (again : Failure → Bool)
    : S → Option Failure → S → Type 0 where
  never : {s : S} → Retried attempt again s (some context_done) s
  tried :
      {s t : S} {r : Option Failure} → Attempts attempt again s r t → Retried attempt again s r t

pub record Retry (S : Type 0) : Type 0 where
  pub retry_do : (S → Ran S) → (Failure → Bool) → S → Ran S
  pub law :
      (attempt : S → Ran S) (again : Failure → Bool) (s : S)
      → Retried attempt again s (retry_do attempt again s).failure (retry_do attempt again s).after
