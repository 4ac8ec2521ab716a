-- ===== src/Adapter/Resource/Tests.antt =====
-- Tests of resource.go: a retry that gives up after some attempts, and small resources.
use terraform_provider_aiven.Prelude.{
  ℕ, zero, suc, ◌≡◌, refl, sym, subst, inl, inr, Bool, Bool-cases, true, false, Option, none, some,
  List, [], ◌∷◌, if◌then◌else◌, Str, bytes, str_eq, join, ◌==◌, ◌+◌,
}
use terraform_provider_aiven.Adapter.Values.{nil, known_string, tf_string, text}
use terraform_provider_aiven.Adapter.Failure.{
  Failure, api, context_done, joined, Client, is, join_failures, is_aiven_error, is_not_found,
}
use terraform_provider_aiven.Adapter.Retry.{
  Ran, Attempts, succeeded, stopped, timed_out, repeated, tried, Retry,
}
use terraform_provider_aiven.Adapter.Resource.{
  Called, Condition, DeleteOptions, Handle, Fmt, ResourceAdapter, opened, is_one_of,
}
use terraform_provider_aiven.Adapter.Resource.Refresh.{Polled, has_none, values_of, refresh_state}
use terraform_provider_aiven.Adapter.Resource.Create.{create_resource, ensure_post_create_id}
use terraform_provider_aiven.Adapter.Resource.Delete.{Deleting, delete_state, delete_resource}
use terraform_provider_aiven.Adapter.Resource.Read.{find_one}
use terraform_provider_aiven.Adapter.Resource.FindOne.{wanted, only, find_one_lem}
use terraform_provider_aiven.Adapter.Resource.Deleted.{Gone, delete_resource-Gone}
use terraform_provider_aiven.Adapter.Resource.Settled.{Settled, refresh_state-Settled}
use terraform_provider_aiven.Adapter.Resource.Kept.{Kept, create_resource-Kept}

abbrev gave_up : (Failure → Bool) → Option Failure → Option Failure
gave_up again none = none
gave_up again (some e) = if again e then some (joined context_done e) else some e

module _ {S : Type 0} where
  abbrev next : (Failure → Bool) → Ran S → Option Failure → Ran S → Ran S
  next again r none rest = r
  next again r (some e) rest = if again e then rest else r

  abbrev retries : ℕ → (S → Ran S) → (Failure → Bool) → S → Ran S
  retries zero f again s = record { failure = gave_up again (f s).failure; after = (f s).after }
  retries (suc n) f again s = next again (f s) (f s).failure (retries n f again (f s).after)

  gave_up-Attempts :
      (f : S → Ran S) (again : Failure → Bool) (s : S) (r : Option Failure)
      → (f s).failure ≡ r
      → Attempts f again s (gave_up again r) (f s).after
  gave_up-Attempts f again s none e = succeeded e
  gave_up-Attempts f again s (some d) e = elim (Bool-cases (again d)) [
    | inl p ↦ rw p (timed_out e p)
    | inr p ↦ rw p (stopped e p)
  ]

  next-Attempts :
      (f : S → Ran S) (again : Failure → Bool) (s : S) (r : Option Failure) (rest : Ran S)
      → (f s).failure ≡ r
      → Attempts f again (f s).after rest.failure rest.after
      → Attempts f again s (next again (f s) r rest).failure (next again (f s) r rest).after
  next-Attempts f again s none rest e h =
      let x : Attempts f again s none (f s).after = succeeded e in
      subst (λ q. Attempts f again s q (f s).after) (sym e) x
  next-Attempts f again s (some d) rest e h = elim (Bool-cases (again d)) [
    | inl p ↦ rw p (repeated e p h)
    | inr p ↦ rw p (subst (λ q. Attempts f again s q (f s).after) (sym e) (stopped e p))
  ]

  retries-Attempts :
      (n : ℕ) (f : S → Ran S) (again : Failure → Bool) (s : S)
      → Attempts f again s (retries n f again s).failure (retries n f again s).after
  retries-Attempts zero f again s = gave_up-Attempts f again s (f s).failure refl
  retries-Attempts (suc n) f again s =
      next-Attempts f again s (f s).failure (retries n f again (f s).after) refl
        (retries-Attempts n f again (f s).after)

  abbrev some_attempts : Retry S
  some_attempts = record {
    retry_do = retries 2;
    law = λ f again s. tried (retries-Attempts 2 f again s);
  }

abbrev client : Client
client = record {
  is_missing = λ e. is_aiven_error e 404;
  is_already_exists = λ e. is_aiven_error e 409;
  missing = λ e. refl;
  already_exists = λ e. refl;
}

abbrev fmt : Fmt
fmt = record { sprint = elim [ text s ↦ s | _ ↦ [] ]; quote = λ s. s }

abbrev gone : Failure
gone = api 404 (bytes "gone")

abbrev done : {S : Type 0} → S → Called S
done s = record { failure = none; warnings = []; after = s }

abbrev failed : {S : Type 0} → Failure → S → Called S
failed e s = record { failure = some e; warnings = []; after = s }

-- Data that are the id; the state is always running.
abbrev id_handle : Handle Str
id_handle = record {
  get_ok = λ s k. record { value = text (bytes "RUNNING"); there = true };
  id = λ s. s;
  set_id = λ s l. some (join (bytes "/") l);
  tf_value = known_string;
}

abbrev running : Condition
running = record { attribute = bytes "state"; desired = some (bytes "RUNNING" ∷ []); failed = none }

abbrev id_adapter : (Str → Called Str) → ResourceAdapter Str (Polled Str)
id_adapter read = record {
  client = client;
  fmt = fmt;
  handle = id_handle;
  options = record {
    id_fields = bytes "project" ∷ [];
    refresh = some running;
    has_delay = false;
    refresh_check = none;
    delete_state = none;
    remove_missing = true;
    ignore_already_exists = true;
    create = done;
    update = none;
    delete = none;
    read = read;
  };
  wait = λ s. record { failure = none; after = s };
  retry = some_attempts;
}

-- Data that are the outcomes of the deletes.
abbrev log_handle : {S : Type 0} → Handle S
log_handle = record {
  get_ok = λ s k. record { value = text []; there = false };
  id = λ s. bytes "x";
  set_id = λ s l. some s;
  tf_value = λ s. nil tf_string;
}

abbrev until_gone : DeleteOptions
until_gone = record { attribute = []; desired = [] }

abbrev log_adapter : {S : Type 0} → (S → Called S) → (S → Called S) → ResourceAdapter S (Deleting S)
log_adapter delete read = record {
  client = client;
  fmt = fmt;
  handle = log_handle;
  options = record {
    id_fields = [];
    refresh = none;
    has_delay = false;
    refresh_check = none;
    delete_state = some until_gone;
    remove_missing = true;
    ignore_already_exists = true;
    create = done;
    update = none;
    delete = some delete;
    read = read;
  };
  wait = λ s. record { failure = none; after = s };
  retry = some_attempts;
}

-- A delete that has dependents first and then succeeds, and one that finds nothing.
abbrev delete_late : List Bool → Called (List Bool)
delete_late [] = failed (api 409 (bytes "in use")) (false ∷ [])
delete_late (b ∷ l) = done (true ∷ b ∷ l)

abbrev delete_nothing : List Bool → Called (List Bool)
delete_nothing s = failed gone s

abbrev read_until_two : List Bool → Called (List Bool)
read_until_two (a ∷ b ∷ l) = failed gone (a ∷ b ∷ l)
read_until_two s = done s

-- A poll that times out while every read finds the resource is answered without an error.
timed_out_delete : (delete_resource (log_adapter delete_nothing done) [] (opened [])).problems ≡ []
unfolding delete_resource has_none is is_not_found join_failures is_aiven_error
timed_out_delete = refl

no_problems :
    (delete_resource (log_adapter delete_late read_until_two) [] (opened [])).problems ≡ []
unfolding delete_resource has_none is is_not_found join_failures is_aiven_error
no_problems = refl

delete_resource-Gone_example :
    Gone
      (log_adapter delete_late read_until_two)
      delete_late
      until_gone
      (delete_resource (log_adapter delete_late read_until_two) [] (opened [])).after
delete_resource-Gone_example =
    delete_resource-Gone (log_adapter delete_late read_until_two) delete_late until_gone [] [] refl
      refl no_problems

-- The same data with a count, to which a call adds `n`.
abbrev counting : (List Bool → Called (List Bool)) → ℕ → List Bool × ℕ → Called (List Bool × ℕ)
counting f n (l, c) = record {
  failure = (f l).failure;
  warnings = (f l).warnings;
  after = ((f l).after, c + n);
}

abbrev counted : ResourceAdapter (List Bool × ℕ) (Deleting (List Bool × ℕ))
counted = log_adapter (counting delete_late 0) (counting read_until_two 1)

no_failure : (refresh_state (id_adapter done) running (bytes "x")).failure ≡ none
unfolding refresh_state values_of is_one_of str_eq
no_failure = refl

refresh_state-Settled_example :
    Settled
      (id_adapter done)
      running
      (refresh_state (id_adapter done) running (bytes "x")).warnings
      (refresh_state (id_adapter done) running (bytes "x")).after
refresh_state-Settled_example =
    refresh_state-Settled (id_adapter done) running (bytes "x") no_failure

complete_id : (ensure_post_create_id id_handle (bytes "project" ∷ []) []).complete ≡ true
unfolding ensure_post_create_id
complete_id = refl

create_resource-Kept_example :
    Kept id_handle (create_resource (id_adapter (failed gone)) (opened []))
create_resource-Kept_example =
    create_resource-Kept (id_adapter (failed gone)) (λ s t l e. cc) [] running refl refl complete_id

find_one_lem_example :
    find_one (λ i. i == 1) (bytes "ab") ≡ only (wanted (λ i. i == 1) 0 (bytes "ab"))
find_one_lem_example = find_one_lem (λ i. i == 1) (bytes "ab")
