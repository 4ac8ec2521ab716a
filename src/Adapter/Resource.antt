-- ===== src/Adapter/Resource.antt =====
-- resource.go: the options of a resource, what its handlers are given and what they answer. The data of a
-- resource and the world that its calls reach are one state `S`. `Read` and the other calls add warnings.
pub mod Refresh
pub mod Create
pub mod Delete
pub mod Read
pub mod FindOne
pub mod Deleted
pub mod Plan
pub mod Issued
pub mod Settled
pub mod Kept
mod Tests
use terraform_provider_aiven.Prelude.{
  Bool, true, false, ◌&&◌, ◌||◌, not, Option, none, some, List, [], ◌∷◌, ◌++◌, if◌then◌else◌, any,
  Str, bytes, str_eq, is_empty, join,
}
use terraform_provider_aiven.Adapter.Values.{Value, text, pointer, TfValue}
use terraform_provider_aiven.Adapter.Failure.{Failure, sentinel, Client}
use terraform_provider_aiven.Adapter.Retry.{Ran, Retry}

-- An error of a call, the warnings that it adds, and the state behind it.
pub record Called (S : Type 0) : Type 0 where
  pub failure : Option Failure
  pub warnings : List Str
  pub after : S

-- `GetOk`: the value is the zero value where there is none.
pub record Found : Type 0 where
  pub value : Value
  pub there : Bool

-- `RefreshStateCondition`, in which a slice may be nil.
pub record Condition : Type 0 where
  pub attribute : Str
  pub desired : Option (List Str)
  pub failed : Option (List Str)

-- `DeleteStateOptions`
pub record DeleteOptions : Type 0 where
  pub attribute : Str
  pub desired : List Str

-- `ResourceOptions`; `has_delay` says whether `RefreshStateDelay` is not zero.
pub record Options (S : Type 0) : Type 0 where
  pub id_fields : List Str
  pub refresh : Option Condition
  pub has_delay : Bool
  pub refresh_check : Option (S → Option Failure)
  pub delete_state : Option DeleteOptions
  pub remove_missing : Bool
  pub ignore_already_exists : Bool
  pub create : S → Called S
  pub update : Option (S → Called S)
  pub delete : Option (S → Called S)
  pub read : S → Called S

-- The operations of `ResourceData` that the handlers use. `none` of `set_id` is its error.
-- `id` gives a text for all data: its panic on an id that is no string is not modelled.
pub record Handle (S : Type 0) : Type 0 where
  pub get_ok : S → Str → Found
  pub id : S → Str
  pub set_id : S → List Str → Option S
  pub tf_value : S → TfValue

-- `%v` and `%q` of the package fmt.
pub record Fmt : Type 0 where
  pub sprint : Value → Str
  pub quote : Str → Str

-- `resourceAdapter`, with what it uses of other code; `wait` is the delay, which the context may end.
pub record ResourceAdapter (S : Type 0) (P : Type 0) : Type 0 where
  pub client : Client
  pub fmt : Fmt
  pub handle : Handle S
  pub options : Options S
  pub wait : S → Ran S
  pub retry : Retry P

-- An error with its summary.
pub record Problem : Type 0 where
  pub summary : Str
  pub cause : Failure

-- What a handler does to the state that Terraform keeps.
pub data Written : Type 0 where
  unchanged removed : Written
  saved : TfValue → Written

pub record Response (S : Type 0) : Type 0 where
  pub problems : List Problem
  pub warnings : List Str
  pub written : Written
  pub after : S

-- What a handler starts with: `NewResourceData` and `withTimeout` may fail.
pub data Opened (S : Type 0) : Type 0 where
  no_data no_timeout : Failure → S → Opened S
  opened : S → Opened S

unfoldable pub opening : {S : Type 0} → (S → Response S) → Opened S → Response S
opening f (no_data e s) = record {
  problems = record { summary = bytes "failed to create ResourceData"; cause = e } ∷ [];
  warnings = [];
  written = unchanged;
  after = s;
}
opening f (no_timeout e s) = record {
  problems = record { summary = bytes "failed to read timeouts block"; cause = e } ∷ [];
  warnings = [];
  written = unchanged;
  after = s;
}
opening f (opened s) = f s

-- An answer that has an error and one that has none.
unfoldable pub refused : {S : Type 0} → Str → Failure → Written → List Str → S → Response S
refused summary e w l s = record {
  problems = record { summary = summary; cause = e } ∷ [];
  warnings = l;
  written = w;
  after = s;
}

unfoldable pub answered : {S : Type 0} → Written → List Str → S → Response S
answered w l s = record { problems = []; warnings = l; written = w; after = s }

-- `deref` and `Equal`
unfoldable pub deref : Value → Value
deref (pointer v) = v
deref v = v

unfoldable pub equal : Fmt → Value → Value → Bool
unfolding deref
equal fmt a b = str_eq (fmt.sprint (deref a)) (fmt.sprint (deref b))

-- `slices.ContainsFunc(values, func(v string) bool { return Equal(attributeValue, v) })`
unfoldable pub is_one_of : Fmt → List Str → Value → Bool
unfolding equal
is_one_of fmt l v = any (λ s. equal fmt v (text s)) l

unfoldable pub strings : List Str → Str
strings l = bytes "[" ++ join (bytes " ") l ++ bytes "]"

unfoldable pub desired_text : Fmt → Str → List Str → Value → Str
unfolding strings
desired_text fmt attribute l v =
    bytes ": expected "
    ++ fmt.quote attribute
    ++ bytes " to be one of `"
    ++ strings l
    ++ bytes "`, got `"
    ++ fmt.sprint v
    ++ bytes "`"
