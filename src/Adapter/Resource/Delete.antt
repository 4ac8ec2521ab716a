-- ===== src/Adapter/Resource/Delete.antt =====
-- resource.go: `deleteState` and `Delete`. The debug log is left out.
use terraform_provider_aiven.Prelude.{
  Bool, true, false, ◌&&◌, ◌||◌, not, Option, none, some, List, [], ◌++◌, if◌then◌else◌, Str, bytes,
  is_empty,
}
use terraform_provider_aiven.Adapter.Failure.{
  Failure, message, sentinel, delete_desired, wrapped, is, is_not_found, join_failures,
}
use terraform_provider_aiven.Adapter.Retry.{Ran}
use terraform_provider_aiven.Adapter.Resource.{
  Called, Found, DeleteOptions, Fmt, ResourceAdapter, unchanged, Response, Opened, opening, refused,
  answered, is_one_of, desired_text,
}
use terraform_provider_aiven.Adapter.Resource.Refresh.{has_none}

-- The data, the warnings of the deletes and of the last read, whether a delete succeeded, and the error of
-- the last delete.
pub record Deleting (S : Type 0) : Type 0 where
  pub data_now : S
  pub delete_warnings : List Str
  pub warnings : List Str
  pub succeeded : Bool
  pub delete_error : Option Failure

unfoldable pub no_error : Option Failure → Bool
no_error none = true
no_error (some e) = false

-- Why what was read is still there.
unfoldable pub still_there : Fmt → DeleteOptions → (Str → Found) → Option Failure
still_there fmt o get_ok =
    if has_none o.desired
    then some (wrapped (bytes ": waiting for the resource to be gone") (sentinel delete_desired))
    else let found = get_ok o.attribute in
      if not found.there || not (is_one_of fmt o.desired found.value)
      then some
          (wrapped (desired_text fmt o.attribute o.desired found.value) (sentinel delete_desired))
      else none

module _ {S : Type 0} (a : ResourceAdapter S (Deleting S)) (delete : S → Called S)
    (o : DeleteOptions) where
  -- The delete of an attempt, which is issued until it succeeds once.
  unfoldable pub issue : Deleting S → Deleting S
  unfolding no_error
  issue d = elim d.succeeded [
    | true ↦ d
    | false ↦
        let r = delete d.data_now in
        record {
          data_now = r.after;
          delete_warnings = d.delete_warnings ++ r.warnings;
          warnings = d.warnings;
          succeeded = no_error r.failure;
          delete_error = r.failure;
        }
  ]

  unfoldable pub read_deleted : Deleting S → Ran (Deleting S)
  unfolding still_there
  read_deleted d =
      let r = a.options.read d.data_now in
      record {
        failure = elim r.failure [
          | some e ↦ some e
          | none ↦ still_there a.fmt o (a.handle.get_ok r.after)
        ];
        after = record {
          data_now = r.after;
          delete_warnings = d.delete_warnings;
          warnings = r.warnings;
          succeeded = d.succeeded;
          delete_error = d.delete_error;
        };
      }

  unfoldable pub delete_attempt : Deleting S → Ran (Deleting S)
  unfolding read_deleted issue
  delete_attempt d = read_deleted (issue d)

  unfoldable pub undeleted : S → Deleting S
  undeleted s = record {
    data_now = s;
    delete_warnings = [];
    warnings = [];
    succeeded = false;
    delete_error = none;
  }

  -- A poll that timed out reports the error of the last delete also.
  unfoldable pub with_delete_error : Option Failure → Option Failure → Option Failure
  with_delete_error none d = none
  with_delete_error (some e) d = if is delete_desired e then some (join_failures e d) else some e

  unfoldable pub polled : Ran (Deleting S) → Called S
  unfolding with_delete_error
  polled p = record {
    failure = with_delete_error p.failure p.after.delete_error;
    warnings = p.after.delete_warnings ++ p.after.warnings;
    after = p.after.data_now;
  }

  -- `deleteState`
  unfoldable pub delete_state : S → Called S
  unfolding delete_attempt undeleted polled
  delete_state s =
      if not (has_none o.desired) && is_empty o.attribute
      then record {
        failure = some (message (bytes "delete state condition has no attribute"));
        warnings = [];
        after = s;
      }
      else polled (a.retry.retry_do delete_attempt (is delete_desired) (undeleted s))

module _ {S : Type 0} (a : ResourceAdapter S (Deleting S)) where
  unfoldable pub run_delete : (S → Called S) → S → Called S
  unfolding delete_state
  run_delete delete s = elim a.options.delete_state [
    | none ↦ delete s
    | some o ↦ delete_state a delete o s
  ]

  unfoldable pub after_delete : Called S → Response S
  unfolding refused answered
  after_delete r = elim r.failure [
    | none ↦ answered unchanged r.warnings r.after
    | some e ↦
        if is_not_found a.client e
        then answered unchanged r.warnings r.after
        else refused (bytes "failed to delete resource") e unchanged r.warnings r.after
  ]

  -- `Delete`, which is no operation of some resources.
  unfoldable pub delete_resource : S → Opened S → Response S
  unfolding run_delete after_delete opening answered
  delete_resource s o = elim a.options.delete [
    | none ↦ answered unchanged [] s
    | some delete ↦ opening (λ t. after_delete (run_delete delete t)) o
  ]
