-- ===== src/Schemautil/Tests.antt =====
-- internal/schemautil at concrete inputs.
use terraform_provider_aiven.Prelude.{
  All, ℕ, suc, ◌≡◌, ◌≢◌, ◌↔◌, refl, ap, ◌∙◌, Bool, true, false, not, ◌&&◌, ◌⊎◌, inl, Option, none,
  some, [], ◌∷◌, Str, bytes, str_eq, ◌==◌,
}
use terraform_provider_aiven.Common.{Result, ok, aiven, avngen, ClientErrors}
use terraform_provider_aiven.Schemautil.PlanChecks.{find_elsewhere}
use terraform_provider_aiven.Schemautil.PlanChecks.Rules.{IsFree, find_elsewhere_lem}
use terraform_provider_aiven.Schemautil.StaticIps.{
  StaticIp, available, assigned, collect_ips, lookup, store, all_ready, static_ips_ready,
  static_ips_ready_on, service_static_ips, ips_of_answer, StaticIpList, ResourceData,
  diff_static_ips,
}
use terraform_provider_aiven.Schemautil.StaticIps.Difference.{
  has, apply_difference, diff_static_ips_lem,
}
use terraform_provider_aiven.Schemautil.Wait.{
  public_grafana, creation_of_answer, check_parts, backups_ready, grafana_ready, is_filtered,
  answer_of, Service, absent, state_is, running, creation_refresh, deletion_refresh,
}
use terraform_provider_aiven.Schemautil.StaticIps.Ready.{NoneAssigned}
use terraform_provider_aiven.Schemautil.Wait.Refresh.{MayBeGone, deletion_wait_iff}
use terraform_provider_aiven.Schemautil.Wait.Once.{
  Results, do_once, do_from, keep_answer, store_result,
}
use terraform_provider_aiven.Schemautil.Databases.{
  Page, ListPage, list_service_databases, list_from, page_answer, go_on, next_cursor,
}
use terraform_provider_aiven.Schemautil.Databases.Pages.{
  CursorsIn, Listed, list_service_databases_ends, list_service_databases_complete,
}
use terraform_provider_aiven.Schemautil.Databases.Conflict.{
  Process, store_seen, store_databases, check_db_conflict, check_service_is_powered, powered_answer,
  powered_of, load_databases, publish, claim, check_powered_first,
}
use terraform_provider_aiven.KafkaTopic.Repository.{new_key}
use terraform_provider_aiven.Schemautil.Databases.Conflict.Twice.{
  IsRefused, check_db_conflict_twice,
}

-- The two clients' tests on errors, on errors that are not wrapped.
abbrev pub client_errors : ClientErrors
client_errors = record {
  aiven_is_not_found = elim [ aiven s m ↦ s == 404 | _ ↦ false ];
  avngen_is_not_found = elim [ avngen s m ↦ s == 404 | _ ↦ false ];
  avngen_is_already_exists = elim [ avngen s m ↦ s == 409 | _ ↦ false ];
  not_found_avngen = λ s m. refl;
  already_exists_avngen = λ s m. refl;
  not_found_aiven = λ s m. refl;
  not_found_avngen_of_aiven = λ s m. refl;
  not_found_aiven_of_avngen = λ s m. refl;
}

abbrev a : Str
a = bytes "a"

abbrev b : Str
b = bytes "b"

abbrev c : Str
c = bytes "c"

diff_static_ips_lem_example :
    (has a (apply_difference (diff_static_ips (a ∷ b ∷ []) (b ∷ c ∷ [])) (b ∷ c ∷ []))
      ≡ has a (a ∷ b ∷ []))
    × (has a (diff_static_ips (a ∷ b ∷ []) (b ∷ c ∷ [])).0
        ≡ (has a (a ∷ b ∷ []) && not (has a (b ∷ c ∷ []))))
    × (has a (diff_static_ips (a ∷ b ∷ []) (b ∷ c ∷ [])).1
        ≡ (has a (b ∷ c ∷ []) && not (has a (a ∷ b ∷ []))))
diff_static_ips_lem_example = diff_static_ips_lem (a ∷ b ∷ []) (b ∷ c ∷ []) a

abbrev resource : ResourceData
resource = record { project = bytes "p"; service_name = bytes "s"; static_ips = [] }

abbrev no_ips : StaticIpList ℕ
no_ips project w = (ok [], w)

-- A Grafana with a public address.
abbrev grafana : Service
grafana = record {
  name = bytes "s";
  service_type = bytes "grafana";
  state = running;
  ip_filter = absent;
  persistence_off = false;
  components =
      record { route = bytes "public"; usage = bytes "primary"; host = bytes "h"; port = 443 } ∷ [];
  integrations = [];
  backups = 0;
}

abbrev dial : Str → ℕ → Bool × ℕ
dial address w = (true, suc w)

abbrev still_there : Str → Str → ℕ → Result Service × ℕ
still_there project service w = (ok grafana, w)

-- The address of the resource is listed as assigned to its service.
abbrev one_ip : StaticIpList ℕ
one_ip project w =
    (ok (record { address_id = a; service_name = bytes "s"; state = assigned } ∷ []), w)

abbrev with_ip : ResourceData
with_ip = record { project = bytes "p"; service_name = bytes "s"; static_ips = a ∷ [] }

created_with_ip : (creation_refresh dial one_ip still_there with_ip 0).0 ≡ state_is running
unfolding creation_refresh collect_ips lookup store all_ready str_eq public_grafana
    creation_of_answer check_parts backups_ready grafana_ready is_filtered answer_of
    static_ips_ready static_ips_ready_on service_static_ips ips_of_answer
created_with_ip = refl

deletion_wait_iff_example :
    ((deletion_refresh client_errors one_ip still_there with_ip 0).0 ≡ state_is (bytes "deleted"))
    ↔ (MayBeGone client_errors (ok grafana)
        × ((with_ip.static_ips ≡ [])
            ⊎ NoneAssigned with_ip.static_ips (one_ip with_ip.project 0).0))
deletion_wait_iff_example = deletion_wait_iff client_errors one_ip still_there with_ip 0

-- A service that is still there counts as deleted.
deleted_while_there :
    (deletion_refresh client_errors no_ips still_there resource 0).0 ≡ state_is (bytes "deleted")
unfolding MayBeGone
deleted_while_there =
    (deletion_wait_iff client_errors no_ips still_there resource 0).1 (tt, inl refl)

abbrev count : ℕ → Option (Result Bool × ℕ)
count n = some (ok true, suc n)

abbrev no_results : Results Bool
no_results k = none

-- The results after a call of the key.
abbrev counted : Results Bool
counted = store_result a (ok true) no_results

counted_once : do_once count a no_results 0 ≡ some (ok true, counted, 1)
unfolding do_once do_from keep_answer
counted_once = refl

-- Two pages: one with a cursor and a last one.
abbrev page_of : Option Str → Page
page_of none = record { databases = a ∷ []; next = some c }
page_of (some cursor) = record { databases = b ∷ []; next = none }

abbrev two_pages : ListPage ℕ
two_pages after w = (ok (page_of after), w)

page_eq : {p q : Page} {w w' : ℕ} → ◌≡◌ {A = Result Page × ℕ} (ok p, w) (ok q, w') → p ≡ q
page_eq h = cc

some_eq : {s t : Str} → some s ≡ some t → s ≡ t
some_eq h = cc

none_eq : {s : Str} → none ≡ some s → ⊥
none_eq h = cc

two_pages-CursorsIn : CursorsIn two_pages (c ∷ [])
unfolding CursorsIn next_cursor
two_pages-CursorsIn none w w' page cursor h e =
    let q : c ≡ cursor = some_eq (ap (λ p. next_cursor p.next) (page_eq h) ∙ e) in
    rw (← q) (unfold str_eq in refl)
two_pages-CursorsIn (some d) w w' page cursor h e =
    absurd (none_eq (ap (λ p. next_cursor p.next) (page_eq h) ∙ e))

list_service_databases_ends_example : list_service_databases two_pages 2 0 ≢ none
list_service_databases_ends_example =
    list_service_databases_ends two_pages (c ∷ []) 0 two_pages-CursorsIn

both_listed : list_service_databases two_pages 2 0 ≡ some (ok (a ∷ b ∷ []), 0)
unfolding list_service_databases list_from page_answer go_on next_cursor
both_listed = refl

list_service_databases_complete_example : Listed two_pages none 0 (a ∷ b ∷ []) 0
list_service_databases_complete_example =
    list_service_databases_complete two_pages 2 0 0 (a ∷ b ∷ []) both_listed

abbrev powered : ℕ → Result Str × ℕ
powered w = (ok running, w)

abbrev start : Process ℕ
start = record { powered_off = no_results; lists = no_results; seen = λ k. false; world = 0 }

abbrev key : Str
key = bytes "p/s"

abbrev after_first : Process ℕ
after_first = record {
  powered_off = store_result key (ok false) no_results;
  lists = store_result key (ok true) no_results;
  seen = store_seen (new_key (key ∷ c ∷ [])) (store_databases key (a ∷ b ∷ []) (λ k. false));
  world = 0;
}

first_passes : check_db_conflict powered two_pages 2 key c start ≡ some (none, after_first)
unfolding check_db_conflict check_service_is_powered powered_answer powered_of load_databases
    publish claim check_powered_first do_once do_from keep_answer list_service_databases list_from
    page_answer go_on next_cursor store_databases store_seen new_key str_eq
first_passes = refl

check_db_conflict_twice_example : IsRefused powered two_pages 2 key c after_first
check_db_conflict_twice_example =
    check_db_conflict_twice powered two_pages 2 key c start after_first first_passes

abbrev foreign_ip : StaticIp
foreign_ip = record { address_id = a; service_name = b; state = available }

find_elsewhere_lem_example :
    (find_elsewhere c (a ∷ []) (foreign_ip ∷ []) ≡ none) ↔ All (IsFree c (a ∷ [])) (foreign_ip ∷ [])
find_elsewhere_lem_example = find_elsewhere_lem c (a ∷ []) (foreign_ip ∷ [])
