-- ===== src/Webhook/ClusterWide/Selected.antt =====
-- What the handler of cluster-wide syncers demands in the namespaces that the syncer selects
-- (internal/webhook/v1beta5/clusterwideremotesyncer_rules_permissions.go).
use syngit.Common.{String, Bool, true, List, ◌≡◌, ◌⊎◌, inl, inr, Bool-cases}
use syngit.Common.Errors.{Error, Result, ok, err}
use syngit.Api.{ClusterWideRemoteSyncer, cluster_wide, UserInfo}
use syngit.Rbac.{SubjectAccessReviewSpec}
use syngit.Webhook.{allowed, does_user_bypass_webhook}
use syngit.Webhook.Scope.{authorize_syncer}
use syngit.Webhook.Scope.Admitted.{if_false, IsAdmitted, authorize_syncer-IsAdmitted}
use syngit.Webhook.Handlers.{Request, decode_object}
use syngit.Webhook.Handlers.Readable.{or_errored-then}
use syngit.Webhook.ClusterWide.{
  Selectors, selected_namespaces, or_failed, cluster_wide_remote_syncer_permissions,
}

-- The author may do in the selected namespaces what the syncer scopes.
abbrev pub IsAdmittedIn :
    (SubjectAccessReviewSpec → Result Bool)
    → (Error → String)
    → UserInfo
    → ClusterWideRemoteSyncer
    → Result (List String)
    → Type 0
IsAdmittedIn review error_text user cwrs (ok namespaces) =
    IsAdmitted review error_text user (cluster_wide cwrs) namespaces
IsAdmittedIn review error_text user cwrs (err e) = ⊥

or_failed_allowed :
    (review : SubjectAccessReviewSpec → Result Bool) (error_text : Error → String) (user : UserInfo)
    (cwrs : ClusterWideRemoteSyncer) (selected : Result (List String))
    → or_failed selected
        (λ namespaces. authorize_syncer review error_text user (cluster_wide cwrs) namespaces)
      ≡ allowed
    → IsAdmittedIn review error_text user cwrs selected
unfolding or_failed
or_failed_allowed review error_text user cwrs (err e) h = absurd cc
or_failed_allowed review error_text user cwrs (ok namespaces) h =
    authorize_syncer-IsAdmitted review error_text user (cluster_wide cwrs) namespaces h

module _ {Selector : Type 0} (selectors : Selectors Selector)
    (review : SubjectAccessReviewSpec → Result Bool) (req : Request) where
  -- A ClusterWideRemoteSyncer is admitted only if its author bypasses the webhooks, or its
  -- namespaces could be selected and the author may perform every operation that it scopes in each
  -- of them, may list the bindings of its identity store, where that is set, and may get every
  -- object that it references. Operations without a verb, such as '*', and resources that the API
  -- server does not know are passed over.
  pub cluster_wide_remote_syncer_permissions-IsAdmitted :
      (error_text : Error → String) (manager : String)
      (decode : String → Result ClusterWideRemoteSyncer) (cwrs : ClusterWideRemoteSyncer)
      → decode_object decode req ≡ ok cwrs
      → cluster_wide_remote_syncer_permissions selectors review req error_text manager decode
        ≡ allowed
      → (does_user_bypass_webhook req.user manager ≡ true)
        ⊎ IsAdmittedIn review error_text req.user cwrs (selected_namespaces selectors cwrs)
  unfolding cluster_wide_remote_syncer_permissions
  cluster_wide_remote_syncer_permissions-IsAdmitted error_text manager decode cwrs decoded h =
      elim (Bool-cases (does_user_bypass_webhook req.user manager)) [
        | inl bypass ↦ inl bypass
        | inr other ↦ inr (
            or_failed_allowed review error_text req.user cwrs (selected_namespaces selectors cwrs)
              (or_errored-then _ decoded (if_false allowed _ other h)))
      ]
