-- ===== src/Schemautil/ServiceResource/Order.antt =====
-- About the order of the calls of an update.
use terraform_provider_aiven.Prelude.{
  ◌≡◌, refl, inl, inr, Bool, true, false, Bool-cases, Option, Option-cases, none, some, List, [],
  ◌∷◌, Str,
}
use terraform_provider_aiven.Common.{Result, ok, err, ClientErrors}
use terraform_provider_aiven.ResourceId.{split_resource_id2}
use terraform_provider_aiven.Schemautil.StaticIps.{
  service_static_ips, service_static_ips_list, diff_static_ips_of,
}
use terraform_provider_aiven.Schemautil.DiskSpace.{get_plan_parameters, get_disk_space, Units}
use terraform_provider_aiven.Schemautil.ServiceResource.{
  get_service, wait_updated, associate, dissociate, update_service, History, ServiceOut, Payload,
  Api, ServiceData, Done, Run, next, call, get_of, each_call, disk_space, vpc_of,
  upsert_service_password, supports_write_only_password, set_password, set_tags, size_to_send,
  has_autoscaler, dissociate_all, update_payload, send_update, prepare_update, static_ips_diff,
  update_parts, service_update,
}

-- The update of the service has been sent, or has been waited for.
unfoldable pub has_updated : History → Bool
has_updated [] = false
has_updated (update_service p ∷ h) = true
has_updated (c ∷ h) = has_updated h

unfoldable pub has_waited : History → Bool
has_waited [] = false
has_waited (wait_updated ∷ h) = true
has_waited (c ∷ h) = has_waited h

-- No address is associated after the update, and none is dissociated before it has been waited for.
unfoldable pub Ordered : History → Type 0
Ordered [] = Unit
Ordered (associate ip ∷ h) = (has_updated h ≡ false) × Ordered h
Ordered (dissociate ip ∷ h) = (has_waited h ≡ true) × Ordered h
Ordered (c ∷ h) = Ordered h

-- Before the update.
IsBefore : History → Type 0
IsBefore h = (has_updated h ≡ false) × Ordered h

same_run : {a b : Run Done} → some a ≡ some b → a ≡ b
same_run h = cc

next_keeps {ℓ} :
    {A B : Type 0} (P : History → Type ℓ) (r : Run A) (f : A → History → Run B)
    → P r.1
    → ((a : A) → P (f a r.1).1)
    → P (next r f).1
unfolding next
next_keeps P (ok a, h) f p q = q a
next_keeps P (err e, h) f p q = p

module _ (api : Api) where
  dissociate_each :
      (t : Str → Str) (ips : List Str) (h : History)
      → has_waited h ≡ true
      → Ordered h
      → (has_waited (each_call api t dissociate ips h).1 ≡ true)
        × Ordered (each_call api t dissociate ips h).1
  unfolding each_call call has_waited Ordered
  dissociate_each t [] h w o = (w, o)
  dissociate_each t (ip ∷ ips) h w o =
      next_keeps (λ k. (has_waited k ≡ true) × Ordered k) (call api (t ip) (dissociate ip) h)
        (λ u. each_call api t dissociate ips) (w, (w, o))
        (λ u. dissociate_each t ips (dissociate ip ∷ h) w (w, o))

  dissociate_all-Ordered :
      (name : Str) (ips : List Str) (h : History)
      → has_waited h ≡ true
      → Ordered h
      → Ordered (dissociate_all api name ips h).1
  unfolding dissociate_all call Ordered
  dissociate_all-Ordered name [] h w o = o
  dissociate_all-Ordered name (ip ∷ ips) h w o =
      let r = dissociate_each _ (ip ∷ ips) h w o in next_keeps Ordered _ _ r.1 (λ u. r.1)

  send_update-Ordered :
      (name : Str) (d : ServiceData) (s : ServiceOut) (removed : List Str) (p : Payload)
      (h : History)
      → Ordered h
      → Ordered (send_update api name d s removed p h).1
  unfolding send_update call set_tags set_password upsert_service_password
      supports_write_only_password has_waited Ordered
  send_update-Ordered name d s removed p h o = next_keeps Ordered _ _ o (λ u.
      next_keeps Ordered _ _ o (λ u₁. next_keeps Ordered _ _ o (λ u₂.
        let q = dissociate_all-Ordered name removed (wait_updated ∷ update_service p ∷ h) refl o in
        next_keeps Ordered _ _ q (λ u₃. q))))

  associate_each :
      (t : Str → Str) (ips : List Str) (h : History)
      → IsBefore h
      → IsBefore (each_call api t associate ips h).1
  unfolding each_call call IsBefore has_updated Ordered
  associate_each t [] h b = b
  associate_each t (ip ∷ ips) h b =
      next_keeps IsBefore (call api (t ip) (associate ip) h) (λ u. each_call api t associate ips)
        (b.0, (b.0, b.1)) (λ u. associate_each t ips (associate ip ∷ h) (b.0, (b.0, b.1)))

module _ (api : Api) (lib : ClientErrors) (units : Units) where
  disk_space-IsBefore :
      (d : ServiceData) (h : History) → IsBefore h → IsBefore (disk_space api lib units d h).1
  unfolding disk_space get_disk_space get_plan_parameters IsBefore has_updated Ordered
  disk_space-IsBefore d h b = elim (Option-cases d.size.disk_space) [
    | inl e ↦ rw e b
    | inr (s, e) ↦ rw e b
  ]

  size-IsBefore :
      (d : ServiceData) (s : ServiceOut) (h : History)
      → IsBefore h
      → IsBefore (size_to_send api lib units d s h).1
  unfolding size_to_send
  size-IsBefore d s h b = elim (Bool-cases (has_autoscaler s)) [
    | inl e ↦ rw e b
    | inr e ↦ rw e (
        next_keeps IsBefore (disk_space api lib units d h) _ (disk_space-IsBefore d h b)
          (λ n. disk_space-IsBefore d h b))
  ]

  prepare-Ordered :
      (name : Str) (d : ServiceData) (removed : List Str) (h : History)
      → IsBefore h
      → Ordered (prepare_update api lib units name d removed h).1
  unfolding prepare_update vpc_of get_of IsBefore has_updated Ordered
  prepare-Ordered name d removed h b = next_keeps Ordered _ _ b.1 (λ vpc.
      next_keeps Ordered _ _ b.1 (λ config. next_keeps Ordered _ _ b.1 (λ emails.
        next_keeps Ordered _ _ b.1 (λ s.
          let q = size-IsBefore d s (get_service ∷ h) b in
          next_keeps Ordered _ _ q.1 (λ size.
            send_update-Ordered api name d s removed (update_payload d size vpc config emails) _
              q.1)))))

  diff-IsBefore : (d : ServiceData) → IsBefore (static_ips_diff api d []).1
  unfolding static_ips_diff diff_static_ips_of service_static_ips_list service_static_ips IsBefore
      has_updated Ordered
  diff-IsBefore d = (refl, tt)

  parts-Ordered :
      (d : ServiceData) (parts : Option (Result (Str × Str))) (r : Run Done)
      → update_parts api lib units d parts [] ≡ some r
      → Ordered r.1
  unfolding update_parts IsBefore
  parts-Ordered d none r h = cc
  parts-Ordered d (some (err e)) r h = rw (← same_run h) (unfold Ordered in tt)
  parts-Ordered d (some (ok parts)) r h = rw (← same_run h) (
      next_keeps Ordered _ _ (diff-IsBefore d).1 (λ diff.
        let q = associate_each api _ diff.0 _ (diff-IsBefore d) in
        next_keeps Ordered _ _ q.1 (λ u. prepare-Ordered parts.1 d diff.1 _ q)))

  -- Whatever the API answers, and wherever the update stops, it associates no static ip after it has
  -- sent the update of the service, and dissociates none before it has waited for that update.
  pub service_update-Ordered :
      (d : ServiceData) (r : Run Done) → service_update api lib units d [] ≡ some r → Ordered r.1
  unfolding service_update
  service_update-Ordered d r h = parts-Ordered d (split_resource_id2 d.id) r h
