-- ===== src/Schemautil/Databases/Conflict/Twice.antt =====
-- About `CheckDbConflict` on one name, called again (internal/schemautil/database.go).
use terraform_provider_aiven.Prelude.{
  ℕ, ◌≡◌, refl, Bool, true, false, Option, none, some, [], ◌∷◌, Str, str_eq_refl,
}
use terraform_provider_aiven.Common.{Error, Result, ok, err, wrap}
use terraform_provider_aiven.KafkaTopic.Repository.{new_key}
use terraform_provider_aiven.Schemautil.Wait.Once.{Results, do_once-kept, do_once_of_kept}
use terraform_provider_aiven.Schemautil.Databases.{ListPage, list_service_databases}
use terraform_provider_aiven.Schemautil.Databases.Conflict.{
  Seen, store_seen, Process, powered_answer, powered_of, publish, claim, check_service_is_powered,
  load_databases, check_powered_first, check_db_conflict, err_db_already_exists,
}

-- The process knows that the service is powered, has its list and has seen the name.
data IsClaimed {ℓ} {W : Type ℓ} (key name : Str) (st : Process W) : Type ℓ where
  claimed :
      (b : Bool)
      → st.powered_off key ≡ some (ok false)
      → st.lists key ≡ some (ok b)
      → st.seen (new_key (key ∷ name ∷ [])) ≡ true
      → IsClaimed key name st

store_seen_same : (k : Str) (seen : Seen) → store_seen k seen k ≡ true
unfolding store_seen
store_seen_same k seen = rw (str_eq_refl k) refl

triple_eq {ℓ} :
    {W : Type ℓ} {e e' : Option Error} {st st' : Process W}
    → ◌≡◌ {A = Option (Option Error × Process W)} (some (e, st)) (some (e', st'))
    → (e ≡ e') × (st ≡ st')
triple_eq h = (cc, cc)

claim-IsClaimed {ℓ} :
    {W : Type ℓ} (key name : Str) (st st' : Process W)
    (o : Option (Result Bool × Results Bool × (Seen × W)))
    → st.powered_off key ≡ some (ok false)
    → ((r : Result Bool) (m : Results Bool) (p : Seen × W) → o ≡ some (r, m, p) → m key ≡ some r)
    → claim key name st o ≡ some (none, st')
    → IsClaimed key name st'
unfolding claim
claim-IsClaimed key name st st' none p q h = cc
claim-IsClaimed key name st st' (some (err e, m, (seen, w))) p q h = cc
claim-IsClaimed key name st st' (some (ok b, m, (seen, w))) p q h =
    let (x, y) = triple_eq h in
    rw (← y)
      (claimed b p (q (ok b) m (seen, w) refl) (store_seen_same (new_key (key ∷ name ∷ [])) seen))

powered_of-kept {ℓ} :
    {W : Type ℓ} (key : Str) (st st' : Process W) (o : Option (Result Bool × Results Bool × W))
    → ((r : Result Bool) (m : Results Bool) (w : W) → o ≡ some (r, m, w) → m key ≡ some r)
    → powered_of st o ≡ some (none, st')
    → st'.powered_off key ≡ some (ok false)
unfolding powered_of
powered_of-kept key st st' none p h = cc
powered_of-kept key st st' (some (err e, m, w)) p h = cc
powered_of-kept key st st' (some (ok true, m, w)) p h = cc
powered_of-kept key st st' (some (ok false, m, w)) p h =
    let (x, y) = triple_eq h in rw (← y) (p (ok false) m w refl)

module _ {ℓ} {W : Type ℓ} (service_state : W → Result Str × W) (list_page : ListPage W) (fuel : ℕ)
    (key : Str) where
  check_first-IsClaimed :
      (name : Str) (st' : Process W) (o : Option (Option Error × Process W))
      → ((st1 : Process W) → o ≡ some (none, st1) → st1.powered_off key ≡ some (ok false))
      → check_powered_first service_state list_page fuel key name o ≡ some (none, st')
      → IsClaimed key name st'
  unfolding check_powered_first load_databases
  check_first-IsClaimed name st' none p h = cc
  check_first-IsClaimed name st' (some (some e, st)) p h = cc
  check_first-IsClaimed name st' (some (none, st)) p h =
      claim-IsClaimed key name st st' (load_databases service_state list_page fuel key st)
        (p st refl)
        (λ r m q k.
          do_once-kept (λ p. publish key p.0 (list_service_databases list_page fuel p.1)) key
            st.lists m (st.seen, st.world) q r k)
        h

  check-IsClaimed :
      (name : Str) (st st' : Process W)
      → check_db_conflict service_state list_page fuel key name st ≡ some (none, st')
      → IsClaimed key name st'
  unfolding check_db_conflict check_service_is_powered
  check-IsClaimed name st st' h =
      check_first-IsClaimed name st' (check_service_is_powered service_state list_page fuel key st)
        (λ st1 k.
          powered_of-kept key st st1 _
            (λ r m w q.
              do_once-kept (λ w. powered_answer (service_state w)) key st.powered_off m st.world w r
                q)
            k)
        h

  -- A name that is claimed is refused, and the API is not called.
  pub IsRefused : Str → Process W → Type ℓ
  IsRefused name st =
      (st' : Process W) × (check_db_conflict service_state list_page fuel key name st
        ≡ some (some (wrap name err_db_already_exists), st'))
      × (st'.world ≡ st.world)

  again-IsRefused : (name : Str) (st : Process W) → IsClaimed key name st → IsRefused name st
  unfolding check_db_conflict check_service_is_powered load_databases IsRefused powered_of
      check_powered_first claim
  again-IsRefused name st (claimed b p l s) =
      rw
        (do_once_of_kept (λ w. powered_answer (service_state w)) key st.powered_off st.world
          (ok false) p)
        (rw
          (do_once_of_kept (λ p. publish key p.0 (list_service_databases list_page fuel p.1)) key
            st.lists (st.seen, st.world) (ok b) l)
          (rw s (_, refl, refl)))

-- Right after a name has passed the test of a service it does not pass it again, and the second test
-- calls no API.
pub check_db_conflict_twice {ℓ} :
    {W : Type ℓ} (service_state : W → Result Str × W) (list_page : ListPage W) (fuel : ℕ)
    (key name : Str) (st st' : Process W)
    → check_db_conflict service_state list_page fuel key name st ≡ some (none, st')
    → IsRefused service_state list_page fuel key name st'
check_db_conflict_twice service_state list_page fuel key name st st' h =
    again-IsRefused service_state list_page fuel key name st'
      (check-IsClaimed service_state list_page fuel key name st st' h)
