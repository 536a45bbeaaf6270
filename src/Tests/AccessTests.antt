-- ===== src/Tests/AccessTests.antt =====
-- References, access reviews and webhooks, on the sample resources.
use syngit.Common.{
  String, true, false, not, ◌||◌, none, some, [], ◌∷◌, ◌==◌, string_eq, ◌≡◌, refl, All, all, ◌⊎◌,
  ◌↔◌,
}
use syngit.Common.Errors.{ok}
use syngit.Api.{RemoteUser, namespaced, k8s_user_label_key}
use syngit.Refs.{ObjectRef, remote_syncer_refs, remote_user_binding_refs, remote_user_refs}
use syngit.Refs.Laws.{resolve_all, syncer_candidates, remote_syncer_refs-resolve_all}
use syngit.Refs.Totals.{is_ok, is_qualified, remote_syncer_refs-is_ok}
use syngit.Rbac.{authorize_cross_namespace_refs, is_exempt, check_access, get_attributes}
use syngit.Rbac.Laws.{Checked, authorize_cross_namespace_refs-none}
use syngit.Webhook.{Answer, allowed, patched}
use syngit.Webhook.Scope.{authorize_syncer, has_right_resources_permissions}
use syngit.Webhook.Scope.Sound.{IsPermittedRule, has_right_resources_permissions-IsPermittedRule}
use syngit.Webhook.Scope.Admitted.{IsAdmitted, authorize_syncer-IsAdmitted}
use syngit.Webhook.Handlers.{
  Request, decode_object, remote_user_binding_permissions, remote_user_permissions,
  remote_syncer_permissions, remote_user_managed, stamp,
}
use syngit.Webhook.Handlers.Owned.{is_refusal, remote_user_managed-refusal}
use syngit.Webhook.Handlers.Readable.{remote_syncer_permissions-IsAdmitted}
use syngit.Webhook.{does_user_bypass_webhook}
use syngit.Tests.Sample.{
  spec, syncer, refs, shared_ref, allow, refuse, error_text, alice, bob, binding, remote_user, rule,
}

remote_syncer_refs-resolve_all_example :
    remote_syncer_refs spec "team" ≡ resolve_all "team" (syncer_candidates spec)
remote_syncer_refs-resolve_all_example = remote_syncer_refs-resolve_all spec "team"

abbrev no_namespace : String
no_namespace = ""

remote_syncer_refs-is_ok_example :
    is_ok (remote_syncer_refs spec "")
    ≡ (not (no_namespace == "") || all is_qualified (syncer_candidates spec))
remote_syncer_refs-is_ok_example = remote_syncer_refs-is_ok spec ""

sample_refs : remote_syncer_refs spec "team" ≡ ok refs
unfolding remote_syncer_refs syngit.Refs.resolve_namespace
sample_refs = refl

authorize_cross_namespace_refs-none_example :
    (authorize_cross_namespace_refs allow alice refs "team" ("syngit" ∷ []) ≡ ok none)
    ↔ All (Checked allow alice "team" ("syngit" ∷ [])) refs
authorize_cross_namespace_refs-none_example =
    authorize_cross_namespace_refs-none allow alice refs "team" ("syngit" ∷ [])

refused : authorize_cross_namespace_refs refuse alice refs "team" [] ≡ ok (some shared_ref)
unfolding authorize_cross_namespace_refs syngit.Rbac.authorize_refs check_access
refused = refl

silent : has_right_resources_permissions allow error_text alice ("team" ∷ []) (rule ∷ []) ≡ ok []
unfolding has_right_resources_permissions syngit.Rbac.operation_to_verb check_access
silent = refl

has_right_resources_permissions-IsPermittedRule_example :
    All (IsPermittedRule allow error_text alice ("team" ∷ [])) (rule ∷ [])
has_right_resources_permissions-IsPermittedRule_example =
    has_right_resources_permissions-IsPermittedRule allow error_text alice ("team" ∷ []) (rule ∷ [])
      silent

admitted : authorize_syncer allow error_text alice (namespaced syncer) ("team" ∷ []) ≡ allowed
unfolding authorize_syncer has_right_resources_permissions syngit.Rbac.operation_to_verb
    check_access remote_syncer_refs syngit.Refs.resolve_namespace authorize_cross_namespace_refs
    syngit.Rbac.authorize_refs
admitted = refl

authorize_syncer-IsAdmitted_example :
    IsAdmitted allow error_text alice (namespaced syncer) ("team" ∷ [])
authorize_syncer-IsAdmitted_example =
    authorize_syncer-IsAdmitted allow error_text alice (namespaced syncer) ("team" ∷ []) admitted

abbrev creation : Request
creation = record { operation = "CREATE"; user = alice; object = "{}"; old_object = "" }

binding_decoded : decode_object (λ raw. ok binding) creation ≡ ok binding
unfolding decode_object
binding_decoded = refl

binding_allowed : remote_user_binding_permissions allow creation (λ raw. ok binding) ≡ allowed
unfolding remote_user_binding_permissions decode_object remote_user_binding_refs
    syngit.Refs.resolve_namespace syngit.Rbac.authorize_refs check_access
binding_allowed = refl

user_decoded : decode_object (λ raw. ok remote_user) creation ≡ ok remote_user
unfolding decode_object
user_decoded = refl

user_allowed : remote_user_permissions allow creation (λ raw. ok remote_user) ≡ allowed
unfolding remote_user_permissions decode_object remote_user_refs syngit.Refs.resolve_namespace
    syngit.Rbac.authorize_refs check_access
user_allowed = refl

syncer_decoded : decode_object (λ raw. ok syncer) creation ≡ ok syncer
unfolding decode_object
syncer_decoded = refl

syncer_allowed :
    remote_syncer_permissions allow creation error_text "syngit" (λ raw. ok syncer) ≡ allowed
unfolding remote_syncer_permissions does_user_bypass_webhook decode_object authorize_syncer
    has_right_resources_permissions syngit.Rbac.operation_to_verb check_access remote_syncer_refs
    syngit.Refs.resolve_namespace authorize_cross_namespace_refs syngit.Rbac.authorize_refs
syncer_allowed = refl

remote_syncer_permissions-IsAdmitted_example :
    (does_user_bypass_webhook alice "syngit" ≡ true)
    ⊎ IsAdmitted allow error_text alice (namespaced syncer) (syncer.meta.namespace ∷ [])
remote_syncer_permissions-IsAdmitted_example =
    remote_syncer_permissions-IsAdmitted allow creation error_text "syngit" (λ raw. ok syncer)
      syncer syncer_decoded syncer_allowed

-- A RemoteUser that syngit manages for another user.
abbrev managed_user : RemoteUser
managed_user = record remote_user {
  meta = record remote_user.meta {
    labels = (k8s_user_label_key, "0123456789ab") ∷ [];
    annotations = ("syngit.io/remoteuserbinding.managed", "true") ∷ [];
  };
}

abbrev hash : String → String
hash s = "ffffffffffffffff"

abbrev deletion : Request
deletion = record { operation = "DELETE"; user = bob; object = ""; old_object = "{}" }

no_bypass : does_user_bypass_webhook bob "syngit" ≡ false
unfolding does_user_bypass_webhook
no_bypass = refl

stranger :
    (syngit.Webhook.Handlers.is_owner hash
      (λ raw. ok managed_user)
      (λ ru. ok "")
      "syngit"
      deletion
      managed_user)
    ≡ false
unfolding syngit.Webhook.Handlers.sanitize
stranger = refl

remote_user_managed-refusal_example :
    is_refusal (remote_user_managed hash (λ raw. ok managed_user) (λ ru. ok "") "syngit" deletion)
    ≡ true
remote_user_managed-refusal_example =
    remote_user_managed-refusal hash (λ raw. ok managed_user) (λ ru. ok "") "syngit" deletion
      managed_user refl no_bypass refl refl stranger

managed_decoded : decode_object (λ raw. ok managed_user) creation ≡ ok managed_user
unfolding decode_object
managed_decoded = refl

stamped :
    remote_user_managed hash (λ raw. ok managed_user) (λ ru. ok "{}") "syngit" creation
    ≡ patched (stamp hash alice managed_user)
unfolding remote_user_managed decode_object
stamped = refl
