-- ===== src/Tests/Grants.antt =====
-- Access validation grants: a handle is registered and consumed, and a grant is validated and revoked.
use swooshz_platform.Base.{
  ◌≡◌, refl, ◌≤◌, String, true, false, none, some, List, [], ◌∷◌, ◌==◌, if◌then◌else◌, count, arith,
  eq_iff,
}
use swooshz_platform.Base.Text.{utf16_length}
use swooshz_platform.Time.{at}
use swooshz_platform.Io.{Outcome, ok, ◌>>=◌}
use swooshz_platform.Accounts.{admin}
use swooshz_platform.Access.{decide_app_access}
use swooshz_platform.Ports.{AccessValidationGrantRecord}
use swooshz_platform.Db.Statements.{Database}
use swooshz_platform.Db.Keyed.{IsKeyed}
use swooshz_platform.Services.AppAccess.{decide_protected_app_access, decide_platform_app_access}
use swooshz_platform.Services.Launch.Commands.{GrantSettings}
use swooshz_platform.Services.Grants.{
  RegisterFinalizationHandleInput, ConsumeFinalizationHandleInput,
  ValidateAccessValidationGrantInput, GrantContext, ConsumedHandle, register_finalization_handle,
  consume_finalization_handle, validate_grant, validate_access_validation_grant,
  revoke_access_validation_grant,
}
use swooshz_platform.Services.Grants.Commands.{
  register_handle, validate_stored_grant, revoke_grant, consume_handle, perform_grants,
}
use swooshz_platform.Services.Grants.Over.{
  revoke_grant-validate_stored_grant, revoke_grant-consume_handle, consume_handle-once,
}
use swooshz_platform.Services.Grants.Live.{IsLive, validate_stored_grant-IsLive}
use swooshz_platform.Services.Grants.Registered.{IsRegistered, register_handle-IsRegistered}
use swooshz_platform.Tests.ListDriver.{list_driver}
use swooshz_platform.Tests.Samples.{platform, platform-IsKeyed, one_row}

abbrev first_id : String
first_id = "grant-0123456789-0123456789-first"

abbrev second_id : String
second_id = "grant-0123456789-0123456789-second"

abbrev first_hash : String
first_hash = "aaaaaaaaaaaaaaaaaaaaaaaaaaaaaaaaaaaaaaaaaaaaaaaaaaaaaaaaaaaaaaaa"

abbrev second_hash : String
second_hash = "bbbbbbbbbbbbbbbbbbbbbbbbbbbbbbbbbbbbbbbbbbbbbbbbbbbbbbbbbbbbbbbb"

abbrev first_handle : String
first_handle = "handle-0123456789-0123456789-first"

abbrev second_handle : String
second_handle = "handle-0123456789-0123456789-second"

abbrev handle_hash : String → Outcome String
handle_hash raw = if raw == first_handle then ok first_hash else ok second_hash

abbrev settings : GrantSettings
settings = record { intended_sqag_origin = "https://sqag.test"; grant_id = ok first_id }

abbrev fresh : AccessValidationGrantRecord
fresh = record {
  id = first_id;
  session_id = "session-ada";
  user_id = "user-ada";
  workspace_id = "workspace-acme";
  app_id = "app-sqag";
  intended_origin = "https://sqag.test";
  launch_token_expires_at = at 90_000;
  handle_hash = none;
  created_at = at 40;
  handle_expires_at = none;
  consumed_at = none;
  revoked_at = none;
}

abbrev first : AccessValidationGrantRecord
first = record fresh { handle_hash = some first_hash; handle_expires_at = some (at 80_000) }

abbrev second : AccessValidationGrantRecord
second = record first { id = second_id; handle_hash = some second_hash }

abbrev used : AccessValidationGrantRecord → AccessValidationGrantRecord
used g = record g { consumed_at = some (at 50) }

abbrev with_grants : List AccessValidationGrantRecord → Database
with_grants gs = record platform { access_validation_grants = gs }

abbrev registration : RegisterFinalizationHandleInput
registration = record {
  validation_grant_id = first_id;
  handle_hash_sha256 = first_hash;
  expires_at = at 80_000;
  intended_sqag_origin = "https://sqag.test";
  now = at 45;
}

abbrev asked : String → ConsumeFinalizationHandleInput
asked raw = record { raw_handle = raw; intended_sqag_origin = "https://sqag.test"; now = at 50 }

abbrev question : ValidateAccessValidationGrantInput
question = record {
  validation_grant_id = first_id;
  workspace_id = "workspace-acme";
  app_key = "sqag";
  now = at 60;
}

abbrev context : GrantContext
context = record {
  user_id = "user-ada";
  workspace_id = "workspace-acme";
  app_key = "sqag";
  launch_token_expires_at = at 90_000;
  current_role = admin;
}

abbrev answer_of : String → ConsumedHandle
answer_of id = record { validation_grant_id = id; context = context }

register_run :
    register_handle list_driver settings registration (with_grants (fresh ∷ []))
    ≡ (ok true, with_grants (first ∷ []))
unfolding register_finalization_handle utf16_length ◌>>=◌
register_run = refl

first_run :
    consume_handle list_driver handle_hash settings
      (asked first_handle)
      (with_grants (first ∷ second ∷ []))
    ≡ (ok (some (answer_of first_id)), with_grants (used first ∷ second ∷ []))
unfolding consume_finalization_handle validate_grant decide_protected_app_access
    decide_platform_app_access decide_app_access utf16_length ◌>>=◌
first_run = refl

second_run :
    consume_handle list_driver handle_hash settings
      (asked second_handle)
      (perform_grants list_driver handle_hash [] (with_grants (used first ∷ second ∷ [])))
    ≡ (ok (some (answer_of second_id)), with_grants (used first ∷ used second ∷ []))
unfolding perform_grants consume_finalization_handle validate_grant decide_protected_app_access
    decide_platform_app_access decide_app_access utf16_length ◌>>=◌
second_run = refl

validate_run :
    validate_stored_grant list_driver settings question (with_grants (used first ∷ []))
    ≡ (ok (some context), with_grants (used first ∷ []))
unfolding validate_access_validation_grant validate_grant decide_protected_app_access
    decide_platform_app_access decide_app_access utf16_length ◌>>=◌
validate_run = refl

abbrev shut : AccessValidationGrantRecord → AccessValidationGrantRecord
shut g = record g { revoked_at = some (at 48) }

revoke_run :
    revoke_grant list_driver settings first_id (at 48) (with_grants (first ∷ second ∷ []))
    ≡ (ok true, with_grants (shut first ∷ second ∷ []))
unfolding revoke_access_validation_grant utf16_length ◌>>=◌
revoke_run = refl

after_revocation_run :
    consume_handle list_driver handle_hash settings
      (asked second_handle)
      (perform_grants list_driver handle_hash [] (with_grants (shut first ∷ second ∷ [])))
    ≡ (ok (some (answer_of second_id)), with_grants (shut first ∷ used second ∷ []))
unfolding perform_grants consume_finalization_handle validate_grant decide_protected_app_access
    decide_platform_app_access decide_app_access utf16_length ◌>>=◌
after_revocation_run = refl

with_grants-IsKeyed : (gs : List AccessValidationGrantRecord) → IsKeyed (with_grants gs)
with_grants-IsKeyed gs = record {
  user_ids = platform-IsKeyed.user_ids;
  session_ids = platform-IsKeyed.session_ids;
  workspace_ids = platform-IsKeyed.workspace_ids;
  membership_ids = platform-IsKeyed.membership_ids;
  membership_users = platform-IsKeyed.membership_users;
  app_ids = platform-IsKeyed.app_ids;
  app_keys = platform-IsKeyed.app_keys;
  entitlements = platform-IsKeyed.entitlements;
  launch_token_ids = platform-IsKeyed.launch_token_ids;
  launch_token_hashes = platform-IsKeyed.launch_token_hashes;
}

two_ids :
    (a b : AccessValidationGrantRecord) (k : String)
    → (a.id == b.id) ≡ false
    → count (λ (x : AccessValidationGrantRecord). x.id == k) (a ∷ b ∷ []) ≤ 1
two_ids a b k h = ground (arith, eq_iff a.id k, eq_iff b.id k, eq_iff a.id b.id)

register_handle-IsRegistered_example :
    IsRegistered "https://sqag.test" registration 45
      (with_grants (fresh ∷ []))
      (with_grants (first ∷ []))
register_handle-IsRegistered_example =
    register_handle-IsRegistered list_driver settings registration 45 (with_grants (fresh ∷ []))
      (with_grants (first ∷ [])) refl
      (λ k. one_row (λ (x : AccessValidationGrantRecord). x.id == k) fresh) register_run

consume_handle-once_example : (second_id == first_id) ≡ false
consume_handle-once_example =
    consume_handle-once list_driver handle_hash settings (asked first_handle) (answer_of first_id)
      (with_grants (first ∷ second ∷ [])) (with_grants (used first ∷ second ∷ []))
      (λ k. two_ids first second k refl) first_run [] settings (asked second_handle)
      (answer_of second_id) (with_grants (used first ∷ used second ∷ [])) second_run

validate_stored_grant-IsLive_example :
    (with_grants (used first ∷ []) ≡ with_grants (used first ∷ []))
    × IsLive "https://sqag.test" first_id "workspace-acme" "sqag"
        (at 60)
        context
        (with_grants (used first ∷ []))
validate_stored_grant-IsLive_example =
    validate_stored_grant-IsLive list_driver settings question context
      (with_grants (used first ∷ [])) (with_grants (used first ∷ []))
      (with_grants-IsKeyed (used first ∷ [])) validate_run

revoke_grant-validate_stored_grant_example :
    (validate_stored_grant list_driver settings question
      (perform_grants list_driver handle_hash [] (with_grants (shut first ∷ second ∷ [])))).0
    ≡ ok none
revoke_grant-validate_stored_grant_example =
    revoke_grant-validate_stored_grant list_driver handle_hash settings first_id (at 48)
      (with_grants (first ∷ second ∷ [])) (with_grants (shut first ∷ second ∷ [])) revoke_run []
      settings question refl

revoke_grant-consume_handle_example : (second_id == first_id) ≡ false
revoke_grant-consume_handle_example =
    revoke_grant-consume_handle list_driver handle_hash settings first_id (at 48)
      (with_grants (first ∷ second ∷ [])) (with_grants (shut first ∷ second ∷ [])) revoke_run []
      settings (asked second_handle) (answer_of second_id)
      (with_grants (shut first ∷ used second ∷ [])) after_revocation_run
