-- ===== src/Schemautil/ServiceResource/Addresses.antt =====
-- About the static ips of a service after an update.
use terraform_provider_aiven.Prelude.{
  ℕ, ◌≡◌, refl, sym, ap, ◌∙◌, inl, inr, arith, Bool, not, ◌&&◌, ◌||◌, Bool-cases, Option,
  Option-cases, none, some, List, [], ◌∷◌, Str,
}
use terraform_provider_aiven.Common.{Result, ok, err, ClientErrors}
use terraform_provider_aiven.ResourceId.{split_resource_id2}
use terraform_provider_aiven.Schemautil.StaticIps.{
  service_static_ips, service_static_ips_list, diff_static_ips, diff_static_ips_of, missing_from,
  ips_of_answer,
}
use terraform_provider_aiven.Schemautil.StaticIps.Difference.{
  has, has-missing_from, diff_static_ips_lem,
}
use terraform_provider_aiven.Schemautil.DiskSpace.{get_plan_parameters, get_disk_space, Units}
use terraform_provider_aiven.Schemautil.ServiceResource.{
  get_service, wait_updated, associate, dissociate, update_service, History, ServiceOut, Payload,
  Api, list_ips, ServiceData, Done, success, Run, next, or_wrap, call, get_of, each_call,
  associate_text, dissociate_text, positive_size, disk_space, vpc_of, upsert_service_password,
  supports_write_only_password, set_password, set_tags, size_to_send, has_autoscaler,
  dissociate_all, update_payload, send_update, prepare_update, static_ips_diff, update_parts,
  service_update,
}

-- The addresses of the service after the calls, from those before them.
unfoldable pub ips_after : List Str → History → List Str
ips_after have [] = have
ips_after have (associate ip ∷ h) = ip ∷ ips_after have h
ips_after have (dissociate ip ∷ h) = missing_from (ip ∷ []) (ips_after have h)
ips_after have (c ∷ h) = ips_after have h

next_ok :
    {A B : Type 0} (r : Run A) (f : A → History → Run B) (b : B) (h : History)
    → next r f ≡ (ok b, h)
    → (a : A) × (r.0 ≡ ok a) × (f a r.1 ≡ (ok b, h))
unfolding next
next_ok (ok a, k) f b h e = (a, refl, e)
next_ok (err x, k) f b h e = cc

same_run : {a b : Run Done} → some a ≡ some b → a ≡ b
same_run h = cc

ok_injective : {A : Type 0} {a b : A} → ok a ≡ ok b → a ≡ b
ok_injective h = cc

history_eq : {A : Type 0} {r : Run A} {a : Result A} {h : History} → r ≡ (a, h) → r.1 ≡ h
history_eq e = cc

module _ (api : Api) (have : List Str) (x : Str) where
  associate_each :
      (t : Str → Str) (ips : List Str) (h h' : History) (u : Done)
      → each_call api t associate ips h ≡ (ok u, h')
      → has x (ips_after have h') ≡ (has x ips || has x (ips_after have h))
  unfolding each_call call ips_after has
  associate_each t [] h h' u e = ap (λ k. has x (ips_after have k)) (sym (history_eq e))
  associate_each t (ip ∷ ips) h h' u e =
      let (v, p, q) = next_ok _ _ u h' e in
      ground (arith, associate_each t ips (associate ip ∷ h) h' u q)

  dissociate_each :
      (t : Str → Str) (ips : List Str) (h h' : History) (u : Done)
      → each_call api t dissociate ips h ≡ (ok u, h')
      → has x (ips_after have h') ≡ (has x (ips_after have h) && not (has x ips))
  unfolding each_call call ips_after has
  dissociate_each t [] h h' u e =
      ap (λ k. has x (ips_after have k)) (sym (history_eq e)) ∙ ground arith
  dissociate_each t (ip ∷ ips) h h' u e =
      let (v, p, q) = next_ok _ _ u h' e in
      ground (
        arith,
        dissociate_each t ips (dissociate ip ∷ h) h' u q,
        has-missing_from (ip ∷ []) (ips_after have h) x,
      )

  dissociate_all-has :
      (name : Str) (ips : List Str) (h h' : History) (u : Done)
      → dissociate_all api name ips h ≡ (ok u, h')
      → has x (ips_after have h') ≡ (has x (ips_after have h) && not (has x ips))
  unfolding dissociate_all call ips_after has
  dissociate_all-has name [] h h' u e =
      ap (λ k. has x (ips_after have k)) (sym (history_eq e)) ∙ ground arith
  dissociate_all-has name (ip ∷ ips) h h' u e =
      let (v, p, q) = next_ok _ _ u h' e in
      ap (λ k. has x (ips_after have k)) (sym (history_eq q))
      ∙ dissociate_each (dissociate_text name) (ip ∷ ips) h _ v
          (ap (λ r. (r, (each_call api (dissociate_text name) dissociate (ip ∷ ips) h).1)) p)

  send_update-has :
      (name : Str) (d : ServiceData) (s : ServiceOut) (removed : List Str) (p : Payload)
      (h h' : History) (u : Done)
      → send_update api name d s removed p h ≡ (ok u, h')
      → has x (ips_after have h') ≡ (has x (ips_after have h) && not (has x removed))
  unfolding send_update call set_tags set_password upsert_service_password
      supports_write_only_password ips_after
  send_update-has name d s removed p h h' u e =
      let (u₁, p₁, q₁) = next_ok _ _ u h' e in
      let (u₂, p₂, q₂) = next_ok _ _ u h' q₁ in
      let (u₃, p₃, q₃) = next_ok _ _ u h' q₂ in
      let (u₄, p₄, q₄) = next_ok _ _ u h' q₃ in
      let before = wait_updated ∷ update_service p ∷ h in
      ap (λ k. has x (ips_after have k)) (sym (history_eq q₄))
      ∙ dissociate_all-has name removed before _ u₄
          (ap (λ r. (r, (dissociate_all api name removed before).1)) p₄)

module _ (api : Api) (lib : ClientErrors) (units : Units) (have : List Str) where
  disk_space-same :
      (d : ServiceData) (h : History)
      → ips_after have (disk_space api lib units d h).1 ≡ ips_after have h
  unfolding disk_space get_disk_space get_plan_parameters ips_after
  disk_space-same d h = elim (Option-cases d.size.disk_space) [
    | inl e ↦ rw e refl
    | inr (s, e) ↦ rw e refl
  ]

  sent_size-same :
      (r : Run ℕ)
      → ips_after have (next r (λ n k. (ok (positive_size n), k))).1 ≡ ips_after have r.1
  unfolding next
  sent_size-same (ok n, h) = refl
  sent_size-same (err e, h) = refl

  size-same :
      (d : ServiceData) (s : ServiceOut) (h : History)
      → ips_after have (size_to_send api lib units d s h).1 ≡ ips_after have h
  unfolding size_to_send
  size-same d s h = elim (Bool-cases (has_autoscaler s)) [
    | inl e ↦ rw e refl
    | inr e ↦ rw e (sent_size-same (disk_space api lib units d h) ∙ disk_space-same d h)
  ]

  prepare-has :
      (x : Str) (name : Str) (d : ServiceData) (removed : List Str) (h h' : History) (u : Done)
      → prepare_update api lib units name d removed h ≡ (ok u, h')
      → has x (ips_after have h') ≡ (has x (ips_after have h) && not (has x removed))
  unfolding prepare_update vpc_of get_of ips_after
  prepare-has x name d removed h h' u e =
      let (vpc, p₁, q₁) = next_ok _ _ u h' e in
      let (config, p₂, q₂) = next_ok _ _ u h' q₁ in
      let (emails, p₃, q₃) = next_ok _ _ u h' q₂ in
      let (s, p₄, q₄) = next_ok _ _ u h' q₃ in
      let (size, p₅, q₅) = next_ok _ _ u h' q₄ in
      send_update-has api have x name d s removed (update_payload d size vpc config emails) _ h' u
        q₅
      ∙ ap (λ l. has x l && not (has x removed)) (size-same d s (get_service ∷ h))

  diff_lem :
      (d : ServiceData)
      → (service_static_ips_list (list_ips api) d.project d.service_name []).0 ≡ ok have
      → (static_ips_diff api d []).0 ≡ ok (diff_static_ips d.static_ips have)
  unfolding static_ips_diff diff_static_ips_of or_wrap service_static_ips_list diff_static_ips
      service_static_ips missing_from ips_of_answer
  diff_lem d h = rw h refl

  diff-same : (d : ServiceData) → ips_after have (static_ips_diff api d []).1 ≡ have
  unfolding static_ips_diff diff_static_ips_of service_static_ips_list service_static_ips ips_after
  diff-same d = refl

  wanted : (a h w : Bool) → a ≡ (w && not h) → ((a || h) && not (h && not w)) ≡ w
  wanted a h w e = ground arith

  parts-has :
      (d : ServiceData) (parts : Option (Result (Str × Str))) (h : History) (x : Str)
      → (service_static_ips_list (list_ips api) d.project d.service_name []).0 ≡ ok have
      → update_parts api lib units d parts [] ≡ some (ok success, h)
      → has x (ips_after have h) ≡ has x d.static_ips
  unfolding update_parts
  parts-has d none h x l e = cc
  parts-has d (some (err m)) h x l e = cc
  parts-has d (some (ok parts)) h x l e =
      let diff = diff_static_ips d.static_ips have in
      let (found, p, q) = next_ok _ _ success h (same_run e) in
      let f : found ≡ diff = ok_injective (sym p ∙ diff_lem d l) in
      let (v, p₁, q₁) = next_ok _ _ success h (rw f at q) in
      let h₁ = (static_ips_diff api d []).1 in
      let r = each_call api associate_text associate diff.0 h₁ in
      let a = associate_each api have x associate_text diff.0 h₁ r.1 v (ap (λ k. (k, r.1)) p₁) in
      let b = prepare-has x parts.1 d diff.1 r.1 h success q₁ in
      let (c, add, del) = diff_static_ips_lem d.static_ips have x in
      let n : has x (ips_after have h₁) ≡ has x have = ap (has x) (diff-same d) in
      rw (b, a, n, del) (wanted (has x diff.0) (has x have) (has x d.static_ips) add)

  -- If the update succeeds, from no calls before it and with a list of the addresses that the service
  -- has, then what was associated and dissociated leaves the service with exactly those of the resource.
  pub service_update-has :
      (d : ServiceData) (h : History) (x : Str)
      → (service_static_ips_list (list_ips api) d.project d.service_name []).0 ≡ ok have
      → service_update api lib units d [] ≡ some (ok success, h)
      → has x (ips_after have h) ≡ has x d.static_ips
  unfolding service_update
  service_update-has d h x l e = parts-has d (split_resource_id2 d.id) h x l e
