-- ===== src/Webhook.antt =====
-- internal/webhook/v1beta5: the admission webhooks of the custom resources. An answer carries the
-- error that its message is made of; the texts of the answers that allow are left out.
pub mod Scope
pub mod Handlers
pub mod ClusterWide
use Prim.Native.String.{◌++◌ as str_append}
use text.Mathlib.Text.{starts_with, find?}
use syngit.Common.{
  ℕ, String, Bool, true, false, ◌||◌, Option, none, some, List, [], ◌∷◌, ◌==◌, string_eq, contains,
  if◌then◌else◌,
}
use syngit.Common.Errors.{Error, Result, ok, err, cross_namespace_ref_denied}
use syngit.Api.{UserInfo, RemoteUser}
use syngit.Refs.{ObjectRef}

pub data Answer : Type 0 where
  allowed : Answer
  -- The object as it is to be stored instead.
  patched : RemoteUser → Answer
  denied : Error → Answer
  -- With the status of HTTP.
  errored : ℕ → Error → Answer

abbrev pub bad_request : ℕ
bad_request = 400

abbrev pub internal_server_error : ℕ
internal_server_error = 500

-- `doesUserBypassWebhook`
unfoldable pub does_user_bypass_webhook : UserInfo → String → Bool
does_user_bypass_webhook user manager =
    contains user.groups "system:masters"
    || starts_with user.username (str_append "system:serviceaccount:" manager)

-- `strings.Contains`
abbrev has_text : String → String → Bool
has_text s t = elim (find? s t) [ none ↦ false | some i ↦ true ]

-- `isInvalidCombinationError`, of the text of the error.
unfoldable pub is_invalid_combination_error : String → Bool
is_invalid_combination_error message =
    has_text message "no matches for kind"
    || has_text message "could not find the requested resource"

abbrev pub cross_namespace_denied : ObjectRef → Error
cross_namespace_denied ref =
    cross_namespace_ref_denied ref.field_path ref.resource ref.namespace ref.name

-- `denyRef`
unfoldable pub deny_ref : ObjectRef → String → Error → Answer
deny_ref ref owner_namespace same_namespace_err =
    if ref.namespace == owner_namespace
    then denied same_namespace_err
    else denied (cross_namespace_denied ref)
