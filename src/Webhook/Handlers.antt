-- ===== src/Webhook/Handlers.antt =====
-- internal/webhook/v1beta5: the handlers that check who creates, changes or deletes a resource.
pub mod Owned
pub mod Readable
use Prim.Native.String.{slice}
use syngit.Common.{
  String, Bool, true, false, ◌&&◌, Option, none, some, List, [], ◌∷◌, ◌==◌, string_eq,
  if◌then◌else◌,
}
use syngit.Common.Errors.{
  Error, Result, ok, err, ◌>>=◌, remote_user_denied, remote_target_denied, credentials_not_found,
  other,
}
use syngit.Api.{
  StringMap, get, put, ObjectMeta, RemoteUser, RemoteUserBinding, RemoteSyncer,
  ClusterWideRemoteSyncer, namespaced, cluster_wide, LabelSelector, UserInfo, k8s_user_label_key,
  rub_annotation_key_managed,
}
use syngit.Refs.{ObjectRef, remote_user_refs, remote_user_binding_refs}
use syngit.Rbac.{SubjectAccessReviewSpec, authorize_refs}
use syngit.Webhook.{
  Answer, allowed, patched, denied, errored, bad_request, internal_server_error, deny_ref,
  does_user_bypass_webhook,
}
use syngit.Webhook.Scope.{authorize_syncer}

-- What a handler reads of an admission request.
pub record Request : Type 0 where
  pub operation : String
  pub user : UserInfo
  pub object : String
  pub old_object : String

-- `DecodeObject` (pkg/webhooks/request.go): a deletion carries the object as the old one.
unfoldable pub decode_object {ℓ} : {T : Type ℓ} → (String → Result T) → Request → Result T
decode_object decode req =
    if req.operation == "DELETE" then decode req.old_object else decode req.object

unfoldable pub or_errored {ℓ} : {T : Type ℓ} → Result T → (T → Answer) → Answer
or_errored (ok a) next = next a
or_errored (err e) next = errored bad_request e

-- What a binding that may not be read is answered with.
unread_binding : ObjectRef → Error
unread_binding ref =
    if ref.resource == "remotetargets"
    then remote_target_denied ref.name
    else remote_user_denied ref.name

answer_denied : Option ObjectRef → (ObjectRef → Answer) → Answer
answer_denied none next = allowed
answer_denied (some ref) next = next ref

module _ (review : SubjectAccessReviewSpec → Result Bool) (req : Request) where
  -- `RemoteUserBindingPermissionsWebhookHandler.Handle`
  unfoldable pub remote_user_binding_permissions : (String → Result RemoteUserBinding) → Answer
  unfolding or_errored unread_binding answer_denied
  remote_user_binding_permissions decode = or_errored (decode_object decode req) λ rub.
      or_errored (remote_user_binding_refs rub.spec rub.meta.namespace) λ refs.
        or_errored (authorize_refs review req.user refs)
          λ d. answer_denied d λ ref. deny_ref ref rub.meta.namespace (unread_binding ref)

  -- `RemoteUserPermissionsWebhookHandler.Handle`
  unfoldable pub remote_user_permissions : (String → Result RemoteUser) → Answer
  unfolding or_errored answer_denied
  remote_user_permissions decode = or_errored (decode_object decode req) λ ru.
      or_errored (remote_user_refs ru.spec ru.meta.namespace) λ refs.
        or_errored (authorize_refs review req.user refs) λ d. answer_denied d λ ref.
          deny_ref ref ru.meta.namespace (
            credentials_not_found
              "the user is not allowed to get the secret for its own remote user"
              ru.spec.secret_ref.name)

  -- `RemoteSyncerWebhookHandler.Handle`; `manager` is the value of MANAGER_NAMESPACE.
  unfoldable pub remote_syncer_permissions :
      (Error → String) → String → (String → Result RemoteSyncer) → Answer
  unfolding or_errored
  remote_syncer_permissions error_text manager decode =
      if does_user_bypass_webhook req.user manager
      then allowed
      else or_errored (decode_object decode req) (λ rs.
        authorize_syncer review error_text req.user (namespaced rs) (rs.meta.namespace ∷ []))

-- The first twelve digits of a hash (pkg/naming/sanitize.go); `hex_sha256` prints that of a text.
unfoldable pub sanitize : (String → String) → String → String
sanitize hex_sha256 input = slice (hex_sha256 input) 0 12

-- The labels and the annotations of a managed RemoteUser are stamped with its author.
unfoldable pub stamp : (String → String) → UserInfo → RemoteUser → RemoteUser
stamp hex_sha256 user ru = record ru {
  meta = record ru.meta {
    labels = put ru.meta.labels k8s_user_label_key (sanitize hex_sha256 user.username);
    annotations = put ru.meta.annotations k8s_user_label_key user.username;
  };
}

abbrev pub is_managed : RemoteUser → Bool
is_managed ru = get ru.meta.annotations rub_annotation_key_managed == "true"

module _ (hex_sha256 : String → String) (decode : String → Result RemoteUser)
    (marshal : RemoteUser → Result String) (manager : String) (req : Request) where
  abbrev pub is_owner : RemoteUser → Bool
  is_owner old = get old.meta.labels k8s_user_label_key == sanitize hex_sha256 req.user.username

  -- The part that creates.
  answer_stamped : RemoteUser → Result String → Answer
  answer_stamped ru (ok raw) = patched ru
  answer_stamped ru (err e) = errored internal_server_error e

  create : RemoteUser → Answer
  unfolding answer_stamped
  create ru =
      if is_managed ru
      then answer_stamped (stamp hex_sha256 req.user ru) (marshal (stamp hex_sha256 req.user ru))
      else allowed

  delete : RemoteUser → Answer
  unfolding or_errored create
  delete ru =
      if does_user_bypass_webhook req.user manager
      then allowed
      else if is_managed ru
      then (or_errored (decode req.old_object) λ old.
          if is_owner old
          then allowed
          else denied (other "The user is not allowed to delete the RemoteUser of another user"))
      else create ru

  update : RemoteUser → Answer
  unfolding or_errored create
  update ru =
      if does_user_bypass_webhook req.user manager
      then allowed
      else or_errored (decode req.old_object) (λ old.
        if is_managed old
        then (if is_owner old
            then create ru
            else denied (other "The user is not allowed to update the RemoteUser of another user"))
        else create ru)

  -- `RemoteUserManagedWebhookHandler.Handle`
  unfoldable pub remote_user_managed : Answer
  unfolding or_errored create delete update
  remote_user_managed = or_errored (decode_object decode req) λ ru.
      if req.operation == "DELETE"
      then delete ru
      else if req.operation == "UPDATE"
      then update ru
      else create ru
