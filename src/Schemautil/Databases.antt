-- ===== src/Schemautil/Databases.antt =====
-- database.go, and the test that a service is powered of service.go: the databases of a service,
-- listed page by page, and the test that a new one does not exist yet.
pub mod Pages
pub mod Conflict
use terraform_provider_aiven.Prelude.{
  ℕ, zero, suc, ◌≡◌, Bool, true, false, Option, none, some, List, [], ◌∷◌, ◌++◌, if◌then◌else◌, Str,
  bytes, str_eq, str_mem, is_empty,
}
use terraform_provider_aiven.Common.{Error, Result, ok, err, plain, wrap, ClientErrors, is_critical}
use terraform_provider_aiven.Schemautil.Wait.Once.{Results, do_once}

pub record Page : Type 0 where
  pub databases : List Str
  pub next : Option Str

-- `client.ServiceDatabaseList` of one service: a cursor for all pages but the first.
abbrev pub ListPage {ℓ} : Type ℓ → Type ℓ
ListPage W = Option Str → W → Result Page × W

-- The cursor of the next page: a nil and an empty one both end the list.
unfoldable pub next_cursor : Option Str → Option Str
next_cursor none = none
next_cursor (some c) = if is_empty c then none else some c

unfoldable pub cursor_repeated : Str → Error
cursor_repeated c =
    plain
      (bytes "database list pagination cursor repeated, aborting to avoid an infinite loop: " ++ c)

-- One turn of the loop of `ListServiceDatabases`, from the answer on; `again` is the next turn.
module _ {ℓ} {W : Type ℓ}
    (again : Option Str → List Str → List Str → W → Option (Result (List Str) × W)) where
  unfoldable pub go_on : List Str → List Str → Option Str → W → Option (Result (List Str) × W)
  go_on seen databases none w = some (ok databases, w)
  go_on seen databases (some c) w =
      if str_mem c seen
      then some (err (cursor_repeated c), w)
      else again (some c) (c ∷ seen) databases w

  unfoldable pub page_answer :
      List Str → List Str → Result Page × W → Option (Result (List Str) × W)
  page_answer seen databases (err e, w) = some (err e, w)
  page_answer seen databases (ok page, w) =
      go_on seen (databases ++ page.databases) (next_cursor page.next) w

module _ {ℓ} {W : Type ℓ} (list_page : ListPage W) where
  -- The loop on fuel: it is `none` if the fuel does not suffice.
  unfoldable pub list_from :
      ℕ → Option Str → List Str → List Str → W → Option (Result (List Str) × W)
  list_from zero after seen databases w = none
  list_from (suc fuel) after seen databases w =
      page_answer (list_from fuel) seen databases (list_page after w)

  unfoldable pub list_service_databases : ℕ → W → Option (Result (List Str) × W)
  list_service_databases fuel w = list_from fuel none [] [] w
