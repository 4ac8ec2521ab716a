-- ===== src/Adapter/Retry/Last.antt =====
-- The attempts of retry-go: what they end with is what the last of them says.
use terraform_provider_aiven.Prelude.{◌≡◌, Bool, true, false, Option, none, some}
use terraform_provider_aiven.Adapter.Failure.{Failure, context_done, joined}
use terraform_provider_aiven.Adapter.Retry.{
  Ran, Attempts, succeeded, stopped, timed_out, repeated, Retried, never, tried,
}

-- How the attempt from a state ends the retry.
pub data Ended {S : Type 0} (attempt : S → Ran S) (again : Failure → Bool) (s : S)
    : Option Failure → Type 0 where
  fine : (attempt s).failure ≡ none → Ended attempt again s none
  halted :
      (e : Failure)
      → (attempt s).failure ≡ some e
      → again e ≡ false
      → Ended attempt again s (some e)
  expired :
      (e : Failure)
      → (attempt s).failure ≡ some e
      → again e ≡ true
      → Ended attempt again s (some (joined context_done e))

pub data IsLast {S : Type 0} (I : S → Type 0) (attempt : S → Ran S) (again : Failure → Bool)
    : Option Failure → S → Type 0 where
  last :
      {r : Option Failure} (u : S)
      → I u
      → Ended attempt again u r
      → IsLast I attempt again r (attempt u).after

-- The last attempt starts where an invariant of the attempts holds.
module _ {S : Type 0} (I : S → Type 0) (attempt : S → Ran S) (again : Failure → Bool)
    (keeps : (s : S) → I s → I (attempt s).after) where
  pub Attempts-IsLast :
      {s t : S} {r : Option Failure}
      → I s
      → Attempts attempt again s r t
      → IsLast I attempt again r t
  Attempts-IsLast {s = s} i (succeeded e) = last s i (fine e)
  Attempts-IsLast {s = s} i (stopped e d) = last s i (halted _ e d)
  Attempts-IsLast {s = s} i (timed_out e d) = last s i (expired _ e d)
  Attempts-IsLast {s = s} i (repeated e d rest) = Attempts-IsLast (keeps s i) rest

  pub Attempts-keeps : {s t : S} {r : Option Failure} → I s → Attempts attempt again s r t → I t
  Attempts-keeps {s = s} i (succeeded e) = keeps s i
  Attempts-keeps {s = s} i (stopped e d) = keeps s i
  Attempts-keeps {s = s} i (timed_out e d) = keeps s i
  Attempts-keeps {s = s} i (repeated e d rest) = Attempts-keeps (keeps s i) rest

  pub Retried-keeps : {s t : S} {r : Option Failure} → I s → Retried attempt again s r t → I t
  Retried-keeps i never = i
  Retried-keeps i (tried rest) = Attempts-keeps i rest
