-- ===== src/Adapter/Resource/Refresh.antt =====
-- resource.go: `refreshState`.
use terraform_provider_aiven.Prelude.{
  Bool, true, false, ◌&&◌, ◌||◌, not, Option, none, some, List, [], ◌∷◌, ◌++◌, if◌then◌else◌, Str,
  bytes, is_empty,
}
use terraform_provider_aiven.Adapter.Failure.{
  Failure, message, sentinel, refresh_desired, refresh_failed, wrapped, joined, is,
  is_refresh_retryable,
}
use terraform_provider_aiven.Adapter.Retry.{Ran}
use terraform_provider_aiven.Adapter.Resource.{
  Called, Found, Condition, Fmt, ResourceAdapter, is_one_of, desired_text,
}

-- The data and the warnings of the last attempt.
pub record Polled (S : Type 0) : Type 0 where
  pub data_now : S
  pub warnings : List Str

unfoldable pub is_set : {A : Type 0} → Option A → Bool
is_set none = false
is_set (some a) = true

unfoldable pub values_of : Option (List Str) → List Str
values_of none = []
values_of (some l) = l

unfoldable pub has_none : List Str → Bool
has_none [] = true
has_none (v ∷ l) = false

unfoldable pub has_condition : Condition → Bool
has_condition c = not (is_empty c.attribute) || is_set c.desired || is_set c.failed

-- The guards before the first attempt.
unfoldable pub condition_error : Fmt → Condition → Option Failure
unfolding has_condition has_none
condition_error fmt c =
    if has_condition c && has_none (values_of c.desired)
    then some (
        message (
          bytes "refresh state condition for "
          ++ fmt.quote c.attribute
          ++ bytes " has no desired values"))
    else if has_condition c && is_empty c.attribute
    then some (message (bytes "refresh state condition has no attribute"))
    else none

-- What the attribute says of the condition.
unfoldable pub attribute_error : Fmt → Condition → Found → Option Failure
attribute_error fmt c found =
    if found.there && is_one_of fmt (values_of c.failed) found.value
    then some (
        wrapped
          (bytes ": "
            ++ fmt.quote c.attribute
            ++ bytes " is `"
            ++ fmt.sprint found.value
            ++ bytes "`")
          (sentinel refresh_failed))
    else if not found.there || not (is_one_of fmt (values_of c.desired) found.value)
    then some (
        wrapped (desired_text fmt c.attribute (values_of c.desired) found.value)
          (sentinel refresh_desired))
    else none

-- What `RefreshStateCheck` says.
unfoldable pub check_error : {S : Type 0} → Option (S → Option Failure) → S → Option Failure
check_error none s = none
check_error (some check) s = elim (check s) [
  | none ↦ none
  | some e ↦ if is refresh_failed e then some e else some (joined (sentinel refresh_desired) e)
]

unfoldable pub first_error : Option Failure → Option Failure → Option Failure
first_error (some e) d = some e
first_error none d = d

module _ {S : Type 0} (a : ResourceAdapter S (Polled S)) (c : Condition) where
  -- Why the data that was read is not the state wanted.
  unfoldable pub unsettled : S → Option Failure
  unfolding attribute_error check_error first_error
  unsettled s =
      first_error
        (if has_condition c then attribute_error a.fmt c (a.handle.get_ok s c.attribute) else none)
        (check_error a.options.refresh_check s)

  unfoldable pub refresh_attempt : Polled S → Ran (Polled S)
  unfolding unsettled first_error
  refresh_attempt p =
      let r = a.options.read p.data_now in
      record {
        failure = elim r.failure [ some e ↦ some e | none ↦ unsettled r.after ];
        after = record { data_now = r.after; warnings = r.warnings };
      }

  -- The delay and the attempts.
  unfoldable pub poll_refresh : S → Called S
  unfolding refresh_attempt
  poll_refresh s =
      let p =
        a.retry.retry_do refresh_attempt (is_refresh_retryable a.client)
          (record { data_now = s; warnings = [] }) in
      record { failure = p.failure; warnings = p.after.warnings; after = p.after.data_now }

  unfoldable pub after_wait : Ran S → Called S
  unfolding poll_refresh
  after_wait w = elim w.failure [
    | some e ↦ record { failure = some e; warnings = []; after = w.after }
    | none ↦ poll_refresh w.after
  ]

  unfoldable pub delayed : Bool → S → Called S
  unfolding after_wait
  delayed true s = after_wait (a.wait s)
  delayed false s = poll_refresh s

  -- Nothing is read where the condition is refused.
  unfoldable pub unless : Option Failure → S → Called S
  unfolding delayed
  unless (some e) s = record { failure = some e; warnings = []; after = s }
  unless none s = delayed a.options.has_delay s

  -- `refreshState`
  unfoldable pub refresh_state : S → Called S
  unfolding condition_error unless
  refresh_state s = unless (condition_error a.fmt c) s
