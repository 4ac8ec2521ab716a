-- ===== src/Schemautil/Databases/Conflict.antt =====
-- database.go, from line 97, and `CheckServiceIsPowered` of service.go: the test before a database is
-- created. The kept answers and the names seen belong to the process.
pub mod Twice
use terraform_provider_aiven.Prelude.{
  ℕ, ◌≡◌, ◌≢◌, refl, sym, ap, ◌∙◌, arith, Bool, true, false, ◌||◌, not, Option, none, some, List,
  [], ◌∷◌, if◌then◌else◌, Bool-cases, Str, bytes, str_eq, str_eq_refl,
}
use terraform_provider_aiven.Common.{Error, Result, ok, err, plain, wrap, ClientErrors, is_critical}
use terraform_provider_aiven.KafkaTopic.Repository.{new_key}
use terraform_provider_aiven.Schemautil.Wait.Once.{Results, do_once}
use terraform_provider_aiven.Schemautil.Databases.{ListPage, list_service_databases}

abbrev pub err_db_already_exists : Error
err_db_already_exists = plain (bytes "database already exists")

abbrev pub err_service_powered_off : Error
err_service_powered_off = plain (bytes "the service is powered off")

-- `seenDatabases`, as the test of membership.
abbrev pub Seen : Type 0
Seen = Str → Bool

unfoldable pub store_seen : Str → Seen → Seen
store_seen k seen k' = str_eq k k' || seen k'

unfoldable pub store_databases : Str → List Str → Seen → Seen
store_databases service_key [] seen = seen
store_databases service_key (name ∷ names) seen =
    store_databases service_key names (store_seen (new_key (service_key ∷ name ∷ [])) seen)

unfoldable pub forget_database : Str → Str → Str → Seen → Seen
forget_database project service name seen k =
    if str_eq (new_key (project ∷ service ∷ name ∷ [])) k then false else seen k

-- The globals of the process, and the world that calls of the API change.
pub record Process {ℓ} (W : Type ℓ) : Type ℓ where
  pub powered_off : Results Bool
  pub lists : Results Bool
  pub seen : Seen
  pub world : W

-- The function of `CheckServiceIsPowered`, from the answer on.
unfoldable pub powered_answer {ℓ} : {W : Type ℓ} → Result Str × W → Option (Result Bool × W)
powered_answer (err e, w) = some (err e, w)
powered_answer (ok state, w) = some (ok (str_eq state (bytes "POWEROFF")), w)

unfoldable pub powered_of {ℓ} :
    {W : Type ℓ}
    → Process W
    → Option (Result Bool × Results Bool × W)
    → Option (Option Error × Process W)
powered_of st none = none
powered_of st (some (err e, m, w)) = some (some e, record st { powered_off = m; world = w })
powered_of st (some (ok is_off, m, w)) = some (
  if is_off then some err_service_powered_off else none,
  record st { powered_off = m; world = w },
)

-- The names go into the shared map only if the whole list is there.
unfoldable pub publish {ℓ} :
    {W : Type ℓ} → Str → Seen → Option (Result (List Str) × W) → Option (Result Bool × (Seen × W))
publish key seen none = none
publish key seen (some (err e, w)) = some (err e, (seen, w))
publish key seen (some (ok databases, w)) = some (ok true, (store_databases key databases seen, w))

-- `LoadOrStore`, and the error if the name was there. The source makes the keys of this cache with
-- filepath.Join, which also cleans a path of empty and dotted elements; here the parts are joined only.
unfoldable pub claim {ℓ} :
    {W : Type ℓ}
    → Str
    → Str
    → Process W
    → Option (Result Bool × Results Bool × (Seen × W))
    → Option (Option Error × Process W)
claim key name st none = none
claim key name st (some (err e, m, (seen, w))) = some (
  some (wrap (bytes "error checking databases for conflict") e),
  record st { lists = m; seen = seen; world = w },
)
claim key name st (some (ok b, m, (seen, w))) =
    let k = new_key (key ∷ name ∷ []) in
    some (
      if seen k then some (wrap name err_db_already_exists) else none,
      record st { lists = m; seen = store_seen k seen; world = w },
    )

module _ {ℓ} {W : Type ℓ} (service_state : W → Result Str × W) (list_page : ListPage W) (fuel : ℕ)
    (key : Str) where
  unfoldable pub check_service_is_powered : Process W → Option (Option Error × Process W)
  check_service_is_powered st =
      powered_of st (do_once (λ w. powered_answer (service_state w)) key st.powered_off st.world)

  unfoldable pub load_databases : Process W → Option (Result Bool × Results Bool × (Seen × W))
  load_databases st =
      do_once (λ p. publish key p.0 (list_service_databases list_page fuel p.1)) key st.lists
        (st.seen, st.world)

  unfoldable pub check_powered_first :
      Str → Option (Option Error × Process W) → Option (Option Error × Process W)
  check_powered_first name none = none
  check_powered_first name (some (some e, st)) = some (some e, st)
  check_powered_first name (some (none, st)) = claim key name st (load_databases st)

  -- `CheckDbConflict`
  unfoldable pub check_db_conflict : Str → Process W → Option (Option Error × Process W)
  check_db_conflict name st = check_powered_first name (check_service_is_powered st)
