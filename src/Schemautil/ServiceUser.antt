-- ===== src/Schemautil/ServiceUser.antt =====
-- service_user.go, with what it calls: `CopyServiceUserPropertiesFromAPIResponseToTerraform` of
-- schemautil.go, `customizeDiffPasswordWoVersion` and `ResourceReadHandleNotFound` of service.go and
-- the warning on a transition of custom_diff.go. The API and the retries are parameters.
pub mod Versions
pub mod Stored
mod Tests
use terraform_provider_aiven.Prelude.{
  ℕ, ◌≡◌, Bool, true, false, not, ◌&&◌, ◌||◌, Option, none, some, List, [], ◌∷◌, ◌++◌,
  if◌then◌else◌, ltb, ◌==◌, Str, bytes, str_mem, is_empty, itoa,
}
use terraform_provider_aiven.Common.{
  Error, Result, ok, err, plain, wrap, ClientErrors, omit_not_found, is_unknown_resource,
}
use terraform_provider_aiven.ResourceId.{build_resource_id, split_resource_id3}

-- The resource: what Terraform keeps, and what the configuration and the change say of it.
pub record UserData : Type 0 where
  pub id : Str
  pub is_new : Bool
  pub project : Str
  pub service_name : Str
  pub username : Str
  pub password : Str
  pub password_wo_version : ℕ
  pub password_changes : Bool
  pub version_changes : Bool
  pub password_wo : Option Str
  pub user_type : Str
  pub access_cert : Str
  pub access_key : Str

-- What the API says of a user.
pub record User : Type 0 where
  pub name : Str
  pub secret : Str
  pub kind : Str
  pub cert : Option Str
  pub key : Option Str

-- `shouldResetPassword`: the password to use, the write-only one first.
unfoldable pub wanted_password : UserData → Str
wanted_password d = elim d.password_wo [ some p ↦ p | none ↦ d.password ]

unfoldable pub should_reset : UserData → Bool
should_reset d = is_empty d.id || (d.password_changes || d.version_changes)

unfoldable pub clear_password_if_write_only : UserData → UserData
clear_password_if_write_only d =
    if ltb 0 d.password_wo_version then record d { password = [] } else d

abbrev pub or_else : Option Str → Str → Str
or_else none s = s
or_else (some t) s = t

-- `CopyServiceUserPropertiesFromAPIResponseToTerraform`
unfoldable pub copy_user : Str → Str → User → UserData → UserData
copy_user project service u d = clear_password_if_write_only (record d {
  project = project;
  service_name = service;
  username = u.name;
  password = u.secret;
  user_type = u.kind;
  access_cert = or_else u.cert d.access_cert;
  access_key = or_else u.key d.access_key;
})

-- What an attempt to read the user reports.
pub data Attempt : Type 0 where
  done : User → Attempt
  again : Error → Attempt
  unrecoverable : Error → Attempt

-- Without a write-only password the read waits for a password.
unfoldable pub judge_user : Bool → Result User → Attempt
judge_user write_only (err e) = unrecoverable e
judge_user write_only (ok u) =
    if not write_only && is_empty u.secret
    then again (plain (bytes "password is not received from the API"))
    else done u

-- The calls of the API on the users of services: project, service and user.
pub record UsersClient {ℓ} (W : Type ℓ) : Type ℓ where
  pub user_create : Str → Str → Str → W → Option Error × W
  pub user_get : Str → Str → Str → W → Result User × W
  pub user_delete : Str → Str → Str → W → Option Error × W
  pub credentials_reset : Str → Str → Str → W → Option Error × W
  pub credentials_modify : Str → Str → Str → Str → W → Option Error × W
  pub service_users : Str → Str → W → Result (List Str) × W

-- `retry.Do` of retry-go, which reports success only if an attempt succeeded.
pub record UserRetries {ℓ} (W : Type ℓ) : Type ℓ where
  pub retry_user : (W → Attempt × W) → W → Result User × W
  pub retry_user_ok :
      (f : W → Attempt × W) (w w' : W) (u : User)
      → retry_user f w ≡ (ok u, w')
      → (w₀ : W) × (f w₀ ≡ (done u, w'))

-- `ResourceReadHandleNotFound`: a resource that is gone, and not new, loses its id.
unfoldable pub handle_not_found : ClientErrors → Error → UserData → Option Error × UserData
handle_not_found lib e d =
    if is_unknown_resource lib e && not d.is_new then (none, record d { id = [] }) else (some e, d)

unfoldable pub read_user_answer :
    ClientErrors → Str → Str → UserData → Result User → Option Error × UserData
read_user_answer lib project service d (err e) = handle_not_found lib e d
read_user_answer lib project service d (ok u) = (none, copy_user project service u d)

unfoldable pub with_context {ℓ} : {W : Type ℓ} → Str → Option Error × W → Option Error × W
with_context text (none, w) = (none, w)
with_context text (some e, w) = (some (wrap text e), w)

module _ {ℓ} {W : Type ℓ} (c : UsersClient W) where
  unfoldable pub upsert_password : UserData → W → Option Error × W
  upsert_password d w =
      if not (should_reset d)
      then (none, w)
      else if is_empty (wanted_password d)
      then with_context (bytes "cannot reset service user password")
          (c.credentials_reset d.project d.service_name d.username w)
      else with_context (bytes "cannot set service user password")
          (c.credentials_modify d.project d.service_name d.username (wanted_password d) w)

  unfoldable pub attempt_user : Bool → Str → Str → Str → W → Attempt × W
  attempt_user write_only project service name w =
      let (r, w') = c.user_get project service name w in (judge_user write_only r, w')

module _ {ℓ} {W : Type ℓ} (c : UsersClient W) (lib : ClientErrors) (retries : UserRetries W) where
  -- From the parts of the id on; `none` is an index out of range.
  unfoldable pub read_user_parts :
      UserData → Option (Result (Str × Str × Str)) → W → Option (Option Error × UserData) × W
  read_user_parts d none w = (none, w)
  read_user_parts d (some (err e)) w = (some (some e, d), w)
  read_user_parts d (some (ok (project, service, name))) w =
      let (r, w') =
        retries.retry_user (attempt_user c (ltb 0 d.password_wo_version) project service name) w in
      (some (read_user_answer lib project service d r), w')

  unfoldable pub user_read : UserData → W → Option (Option Error × UserData) × W
  user_read d w = read_user_parts d (split_resource_id3 d.id) w

  unfoldable pub after_password :
      Str → UserData → Option Error × W → Option (Option Error × UserData) × W
  after_password id d (some e, w) = (some (some e, d), w)
  after_password id d (none, w) = user_read (record d { id = id }) w

  unfoldable pub after_create : UserData → Option Error × W → Option (Option Error × UserData) × W
  after_create d (some e, w) = (some (some (wrap (bytes "cannot create service user") e), d), w)
  after_create d (none, w) =
      after_password (build_resource_id (d.project ∷ d.service_name ∷ d.username ∷ [])) d
        (upsert_password c d w)

  -- `ResourceServiceUserCreate`
  unfoldable pub user_create : UserData → W → Option (Option Error × UserData) × W
  user_create d w = after_create d (c.user_create d.project d.service_name d.username w)

  unfoldable pub user_update : UserData → W → Option (Option Error × UserData) × W
  user_update d w = after_password d.id d (upsert_password c d w)

  unfoldable pub delete_user_parts :
      Option (Result (Str × Str × Str)) → W → Option (Option Error) × W
  delete_user_parts none w = (none, w)
  delete_user_parts (some (err e)) w = (some (some e), w)
  delete_user_parts (some (ok (project, service, name))) w =
      let (e, w') = c.user_delete project service name w in (some (omit_not_found lib e), w')

  unfoldable pub user_delete : UserData → W → Option (Option Error) × W
  user_delete d w = delete_user_parts (split_resource_id3 d.id) w

  unfoldable pub find_user : UserData → Result (List Str) × W → Option (Option Error × UserData) × W
  find_user d (err e, w) = (some (some e, d), w)
  find_user d (ok names, w) =
      if str_mem d.username names
      then user_read
          (record d { id = build_resource_id (d.project ∷ d.service_name ∷ d.username ∷ []) }) w
      else (
        some (
          some (
              plain (
                bytes "user "
                ++ (d.project
                    ++ (bytes "/"
                        ++ (d.service_name
                            ++ (bytes "/" ++ (d.username ++ bytes " not found"))))))),
          d,
        ),
        w,
      )

  -- `DatasourceServiceUserRead`
  unfoldable pub data_source_read : UserData → W → Option (Option Error × UserData) × W
  data_source_read d w = find_user d (c.service_users d.project d.service_name w)

-- `customizeDiffPasswordWoVersion`: the old and the new version, zero where there is none.
unfoldable pub check_version : Str → Bool → ℕ → ℕ → Option Error
check_version field changes old new =
    if not changes || (old == 0 || new == 0)
    then none
    else if ltb new old
    then some (
        plain (
          field
          ++ (bytes " must be incremented (old: "
              ++ (itoa old
                  ++ (bytes ", new: "
                      ++ (itoa new ++ bytes "). Decrementing version is not allowed"))))))
    else none

-- `CustomizeDiffWriteOnlyPasswordTransitionWarning`: the password is to be computed anew.
unfoldable pub is_transition : ℕ → ℕ → Bool
is_transition old new = old == 0 && ltb 0 new

-- `CustomizeDiffServiceUserPasswordWoVersion`: an error, or whether the password is marked.
unfoldable pub check_user_version : Bool → ℕ → ℕ → Result Bool
check_user_version changes old new =
    elim (check_version (bytes "password_wo_version") changes old new) [
      | some e ↦ err e
      | none ↦ ok (is_transition old new)
    ]
