-- ===== src/Schemautil/ServiceUser/Tests.antt =====
-- service_user.go at concrete inputs.
use terraform_provider_aiven.Prelude.{
  ℕ, ◌≤◌, ◌≡◌, refl, arith, false, none, some, [], ◌∷◌, Str, bytes,
}
use terraform_provider_aiven.Common.{Result, ok, err}
use terraform_provider_aiven.ResourceId.{
  split_resource_id3, split_resource_id, split_n, cut, unescape_part, path_unescape, three_parts,
}
use terraform_provider_aiven.Schemautil.Tests.{client_errors}
use terraform_provider_aiven.Schemautil.ServiceUser.{
  UserData, User, UsersClient, UserRetries, Attempt, done, again, unrecoverable, judge_user,
  attempt_user, copy_user, clear_password_if_write_only, read_user_answer, read_user_parts,
  user_read, check_version,
}
use terraform_provider_aiven.Schemautil.ServiceUser.Versions.{Accepted, last_version, versions_rise}
use terraform_provider_aiven.Schemautil.ServiceUser.Stored.{IsStored, user_read-IsStored}

abbrev user : User
user = record {
  name = bytes "u";
  secret = bytes "secret";
  kind = bytes "normal";
  cert = none;
  key = none;
}

abbrev users : UsersClient ℕ
users = record {
  user_create = λ p s u w. (none, w);
  user_get = λ p s u w. (ok user, w);
  user_delete = λ p s u w. (none, w);
  credentials_reset = λ p s u w. (none, w);
  credentials_modify = λ p s u t w. (none, w);
  service_users = λ p s w. (ok [], w);
}

-- A single attempt.
unfoldable once : Attempt × ℕ → Result User × ℕ
once (done u, w) = (ok u, w)
once (again e, w) = (err e, w)
once (unrecoverable e, w) = (err e, w)

once_ok : (a : Attempt × ℕ) (u : User) (w : ℕ) → once a ≡ (ok u, w) → a ≡ (done u, w)
unfolding once
once_ok (done v, x) u w h = cc
once_ok (again e, x) u w h = cc
once_ok (unrecoverable e, x) u w h = cc

abbrev one_attempt : UserRetries ℕ
one_attempt = record {
  retry_user = λ f w. once (f w);
  retry_user_ok = λ f w w' u h. (w, once_ok (f w) u w' h);
}

abbrev data_of : Str → UserData
data_of password = record {
  id = bytes "p/s/u";
  is_new = false;
  project = bytes "p";
  service_name = bytes "s";
  username = bytes "u";
  password = password;
  password_wo_version = 0;
  password_changes = false;
  version_changes = false;
  password_wo = none;
  user_type = bytes "normal";
  access_cert = [];
  access_key = [];
}

read_once :
    user_read users client_errors one_attempt (data_of []) 0
    ≡ (some (none, data_of (bytes "secret")), 0)
unfolding user_read read_user_parts split_resource_id3 split_resource_id split_n cut unescape_part
    path_unescape three_parts once attempt_user judge_user read_user_answer copy_user
    clear_password_if_write_only
read_once = refl

user_read-IsStored_example : IsStored (data_of (bytes "secret"))
user_read-IsStored_example =
    user_read-IsStored users client_errors one_attempt (data_of []) (data_of (bytes "secret")) 0 0
      read_once

accepted : Accepted (bytes "password_wo_version") 1 (2 ∷ 2 ∷ 5 ∷ [])
unfolding Accepted check_version
accepted = (refl, (refl, (refl, tt)))

versions_rise_example : 1 ≤ last_version 1 (2 ∷ 2 ∷ 5 ∷ [])
versions_rise_example =
    versions_rise (bytes "password_wo_version") 1 (2 ∷ 2 ∷ 5 ∷ []) (omega arith)
      (omega arith, (omega arith, (omega arith, tt))) accepted
