-- ===== src/Schemautil/ServiceUser/Stored.antt =====
-- About the password that a read leaves in the state.
use terraform_provider_aiven.Prelude.{
  ◌<◌, ◌≡◌, ◌≢◌, refl, ap, ◌⊎◌, inl, inr, arith, ltb→lt, Bool, true, false, not, ◌&&◌, Bool-cases,
  Option, none, some, [], ◌∷◌, ltb, Str, is_empty,
}
use terraform_provider_aiven.Common.{Error, Result, ok, err, ClientErrors, is_unknown_resource}
use terraform_provider_aiven.ResourceId.{split_resource_id3}
use terraform_provider_aiven.Schemautil.ServiceUser.{
  UserData, User, UsersClient, UserRetries, Attempt, done, judge_user, attempt_user,
  clear_password_if_write_only, copy_user, handle_not_found, read_user_answer, read_user_parts,
  user_read,
}

-- What a read that succeeds leaves in the state: no resource, or no password beside a write-only one,
-- or else a password.
pub IsStored : UserData → Type 0
IsStored d =
    (d.id ≡ [])
    ⊎ (((0 < d.password_wo_version) × (d.password ≡ []))
        ⊎ ((d.password_wo_version ≡ 0) × (d.password ≢ [])))

some_secret : (s : Str) → is_empty s ≡ false → s ≢ []
some_secret [] h = cc
some_secret (c ∷ s) h = λ e. cc e

done_injective : {u v : User} → done u ≡ done v → u ≡ v
done_injective h = cc

judge_done :
    (write_only : Bool) (r : Result User) (u : User)
    → judge_user write_only r ≡ done u
    → (write_only ≡ true) ⊎ (u.secret ≢ [])
unfolding judge_user
judge_done wo (err e) u h = cc
judge_done true (ok v) u h = inl refl
judge_done false (ok v) u h = elim (Bool-cases (is_empty v.secret)) [
  | inl e ↦ cc (rw e at h)
  | inr e ↦ let q : v ≡ u = done_injective (rw e at h) in inr (rw (← q) (some_secret v.secret e))
]

copy-IsStored :
    (project service : Str) (u : User) (d : UserData)
    → (ltb 0 d.password_wo_version ≡ true) ⊎ (u.secret ≢ [])
    → IsStored (copy_user project service u d)
unfolding copy_user clear_password_if_write_only IsStored
copy-IsStored project service u d h = elim (Bool-cases (ltb 0 d.password_wo_version)) [
  | inl e ↦ rw e (inr (inl (ltb→lt 0 d.password_wo_version e, refl)))
  | inr e ↦ rw e (inr (inr (ground arith, kept e h)))
]
  where
    kept :
        ltb 0 d.password_wo_version ≡ false
        → (ltb 0 d.password_wo_version ≡ true) ⊎ (u.secret ≢ [])
        → u.secret ≢ []
    kept e (inl t) = cc
    kept e (inr t) = t

stored_eq :
    {e : Option Error} {d d' : UserData}
    → ◌≡◌ {A = Option Error × UserData} (e, d) (none, d')
    → (e ≡ none) × (d ≡ d')
stored_eq h = (cc, cc)

answer-IsStored :
    (lib : ClientErrors) (project service : Str) (d d' : UserData) (r : Result User)
    → ((u : User) → r ≡ ok u → (ltb 0 d.password_wo_version ≡ true) ⊎ (u.secret ≢ []))
    → read_user_answer lib project service d r ≡ (none, d')
    → IsStored d'
unfolding read_user_answer handle_not_found
answer-IsStored lib project service d d' (ok u) k h =
    rw (← (stored_eq h).1) (copy-IsStored project service u d (k u refl))
answer-IsStored lib project service d d' (err e) k h =
    elim (Bool-cases (is_unknown_resource lib e && not d.is_new)) [
      | inl c ↦ rw (← (stored_eq (rw c at h)).1) (unfold IsStored in inl refl)
      | inr c ↦ cc (stored_eq (rw c at h)).0
    ]

some_answer {ℓ} :
    {W : Type ℓ} {a : Option Error × UserData} {d' : UserData} {w w' : W}
    → ◌≡◌ {A = Option (Option Error × UserData) × W} (some a, w) (some (none, d'), w')
    → (a ≡ (none, d')) × (w ≡ w')
some_answer h = (cc, cc)

judged {ℓ} :
    {W : Type ℓ} {b : Attempt} {u : User} {v w : W}
    → ◌≡◌ {A = Attempt × W} (b, v) (done u, w)
    → b ≡ done u
judged h = cc

module _ {ℓ} {W : Type ℓ} (c : UsersClient W) (lib : ClientErrors) (retries : UserRetries W) where
  attempt_lem :
      (write_only : Bool) (project service name : Str) (u : User) (w w' : W)
      → attempt_user c write_only project service name w ≡ (done u, w')
      → (write_only ≡ true) ⊎ (u.secret ≢ [])
  unfolding attempt_user
  attempt_lem write_only project service name u w w' h =
      judge_done write_only (c.user_get project service name w).0 u (judged h)

  parts-IsStored :
      (d d' : UserData) (parts : Option (Result (Str × Str × Str))) (w w' : W)
      → read_user_parts c lib retries d parts w ≡ (some (none, d'), w')
      → IsStored d'
  unfolding read_user_parts
  parts-IsStored d d' none w w' h = cc
  parts-IsStored d d' (some (err e)) w w' h = cc
  parts-IsStored d d' (some (ok (project, service, name))) w w' h =
      let wo = ltb 0 d.password_wo_version in
      let f = attempt_user c wo project service name in
      answer-IsStored lib project service d d' (retries.retry_user f w).0
        (λ u e.
          let (w₀, q) =
            retries.retry_user_ok f w (retries.retry_user f w).1 u
              (ap (λ r. (r, (retries.retry_user f w).1)) e) in
          attempt_lem wo project service name u w₀ (retries.retry_user f w).1 q)
        (some_answer h).0

  -- A read that reports no error leaves in the state no resource, or a version of the write-only
  -- password and no password, or no version and a password that is not empty.
  pub user_read-IsStored :
      (d d' : UserData) (w w' : W)
      → user_read c lib retries d w ≡ (some (none, d'), w')
      → IsStored d'
  unfolding user_read
  user_read-IsStored d d' w w' h = parts-IsStored d d' (split_resource_id3 d.id) w w' h
