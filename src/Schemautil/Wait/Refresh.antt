-- ===== src/Schemautil/Wait/Refresh.antt =====
-- About the refresh functions of the waits (internal/schemautil/wait.go).
use terraform_provider_aiven.Prelude.{
  ◌≡◌, ◌≢◌, refl, ◌↔◌, ◌⊎◌, arith, [], inl, inr, Bool, true, false, Bool-cases, some, Str, bytes,
}
use terraform_provider_aiven.Common.{Error, Result, ok, err, ClientErrors, is_critical}
use terraform_provider_aiven.Schemautil.StaticIps.{
  ResourceData, StaticIpList, static_ips_ready, static_ips_disassociated_after_service_deletion,
}
use terraform_provider_aiven.Schemautil.StaticIps.Ready.{NoneAssigned, AllReady, freed_iff}
use terraform_provider_aiven.Schemautil.Wait.Ready.{Backed, Answers}
use terraform_provider_aiven.Schemautil.Wait.{
  Service, state_is, answer_of, running, unable_disassociated, backups_ready, grafana_ready,
  deletion_rest, deletion_of_answer, deletion_refresh,
}

state_injective : {s t : Str} → state_is s ≡ state_is t → s ≡ t
state_injective h = cc

answer_iff :
    (what pending target : Str) (r : Result Bool)
    → pending ≢ target
    → (answer_of what pending target r ≡ state_is target) ↔ (r ≡ ok true)
unfolding answer_of
answer_iff what pending target (err e) n = (λ h. cc, λ h. cc)
answer_iff what pending target (ok true) n = (λ h. refl, λ h. refl)
answer_iff what pending target (ok false) n = (λ h. absurd (n (state_injective h)), λ h. cc)

module _ {ℓ} {W : Type ℓ} (dial : Str → W → Bool × W) (static_ip_list : StaticIpList W) where
  -- The service has the backups that it needs, a Grafana that is to be dialled answers, and the static ips
  -- that the service is to have are listed as ready after that.
  unfoldable pub PartsAreReady : ResourceData → Service → W → Type ℓ
  PartsAreReady d s w =
      Backed s
      × (w' : W) × Answers dial s w w'
      × ((d.static_ips ≡ []) ⊎ AllReady d.service_name d.static_ips (static_ip_list d.project w').0)

  -- The same by the tests of the code.
  TestedReady : ResourceData → Service → W → Type 0
  TestedReady d s w =
      (backups_ready s ≡ true)
      × ((grafana_ready dial s w).0 ≡ true)
      × ((static_ips_ready static_ip_list d (grafana_ready dial s w).1).0 ≡ ok true)

deleting_other : bytes "deleting" ≢ bytes "deleted"
deleting_other = λ e. cc e

module _ {ℓ} {W : Type ℓ} (dial : Str → W → Bool × W) (static_ip_list : StaticIpList W) where
  -- The service is there and runs, and its parts are ready.
  unfoldable pub IsCreated : ResourceData → Result Service → W → Type ℓ
  IsCreated d r w =
      (s : Service) × (r ≡ ok s) × (s.state ≡ running) × PartsAreReady dial static_ip_list d s w

  -- The service is there, and its parts are ready.
  unfoldable pub IsUpdated : ResourceData → Result Service → W → Type ℓ
  IsUpdated d r w = (s : Service) × (r ≡ ok s) × PartsAreReady dial static_ip_list d s w

module _ (lib : ClientErrors) where
  -- A client takes the error for "not found", or there is no error: a service that is still there
  -- passes too.
  unfoldable pub MayBeGone : Result Service → Type 0
  MayBeGone (ok s) = Unit
  MayBeGone (err e) = (lib.aiven_is_not_found e ≡ true) ⊎ (lib.avngen_is_not_found e ≡ true)

  gone_iff : (e : Error) → (is_critical lib (some e) ≡ false) ↔ MayBeGone (err e)
  unfolding is_critical MayBeGone
  gone_iff e = (
    (λ h. elim (Bool-cases (lib.aiven_is_not_found e)) [
      | inl q ↦ inl q
      | inr q ↦ inr (ground arith)
    ]),
    elim [ inl q ↦ ground arith | inr q ↦ ground arith ],
  )

module _ {ℓ} {W : Type ℓ} (lib : ClientErrors) (static_ip_list : StaticIpList W) where
  -- There are no static ips to free, or the list of the project shows none of them as assigned.
  abbrev pub AreFreed : ResourceData → W → Type 0
  AreFreed d w = (d.static_ips ≡ []) ⊎ NoneAssigned d.static_ips (static_ip_list d.project w).0

  deletion_rest_iff :
      (d : ResourceData) (w : W)
      → ((deletion_rest static_ip_list d w).0 ≡ state_is (bytes "deleted")) ↔ AreFreed d w
  unfolding deletion_rest
  deletion_rest_iff d w =
      let (f, g) =
        answer_iff unable_disassociated (bytes "deleting") (bytes "deleted")
          (static_ips_disassociated_after_service_deletion static_ip_list d w).0 deleting_other in
      let (f', g') = freed_iff static_ip_list d w in (λ h. f' (f h), λ h. g (g' h))

  module _ (service_get : Str → Str → W → Result Service × W) where
    deletion_answer_iff :
        (d : ResourceData) (p : Result Service × W)
        → ((deletion_of_answer lib static_ip_list service_get d p).0 ≡ state_is (bytes "deleted"))
          ↔ (MayBeGone lib p.0 × AreFreed d p.1)
    unfolding deletion_of_answer MayBeGone
    deletion_answer_iff d (ok s, w) =
        let (f, g) = deletion_rest_iff d w in (λ h. (tt, f h), λ h. g h.1)
    deletion_answer_iff d (err e, w) =
        let (f, g) = deletion_rest_iff d w in
        let (f', g') = gone_iff lib e in
        elim (Bool-cases (is_critical lib (some e))) [
          | inl c ↦ rw c (λ h. cc, λ h. let q = g' h.0 in cc)
          | inr c ↦ rw c (λ h. (f' c, f h), λ h. g h.1)
        ]

-- The wait for a deletion reports the service deleted exactly if the API answers with the service itself
-- or with an error that one of the clients takes for "not found", and there are no static ips to free or
-- the list of the project is answered and shows none of them as assigned.
pub deletion_wait_iff {ℓ} :
    {W : Type ℓ} (lib : ClientErrors) (static_ip_list : StaticIpList W)
    (service_get : Str → Str → W → Result Service × W) (d : ResourceData) (w : W)
    → let (r, w') = service_get d.project d.service_name w in
      ((deletion_refresh lib static_ip_list service_get d w).0 ≡ state_is (bytes "deleted")) ↔ (
        MayBeGone lib r
        × ((d.static_ips ≡ []) ⊎ NoneAssigned d.static_ips (static_ip_list d.project w').0))
unfolding deletion_refresh
deletion_wait_iff lib static_ip_list service_get d w =
    deletion_answer_iff lib static_ip_list service_get d (service_get d.project d.service_name w)
