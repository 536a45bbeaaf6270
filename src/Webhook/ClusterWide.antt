-- ===== src/Webhook/ClusterWide.antt =====
-- internal/webhook/v1beta5/clusterwideremotesyncer_rules_permissions.go: the handler of cluster-wide
-- syncers. Label selectors and the list of the namespaces are those of Kubernetes.
pub mod Selected
use syngit.Common.{String, Bool, Option, none, some, List, [], ◌∷◌, map, if◌then◌else◌}
use syngit.Common.Errors.{Error, Result, ok, err, ◌>>=◌}
use syngit.Api.{ObjectMeta, LabelSelector, ClusterWideRemoteSyncer, cluster_wide}
use syngit.Rbac.{SubjectAccessReviewSpec}
use syngit.Webhook.{Answer, allowed, errored, internal_server_error, does_user_bypass_webhook}
use syngit.Webhook.Scope.{authorize_syncer}
use syngit.Webhook.Handlers.{Request, decode_object, or_errored}

-- `LabelSelectorAsSelector`, `Empty`, and the namespaces that a selector matches.
pub record Selectors (Selector : Type 0) : Type 0 where
  pub as_selector : LabelSelector → Result Selector
  pub empty : Selector → Bool
  pub list_namespaces : Selector → Result (List ObjectMeta)

abbrev names : List ObjectMeta → List String
names = map (λ ns. ns.name)

module _ {Selector : Type 0} (selectors : Selectors Selector) where
  select_namespaces : Option LabelSelector → Result (List String)
  select_namespaces none = ok ("" ∷ [])
  select_namespaces (some namespace_selector) =
      selectors.as_selector namespace_selector >>= λ selector.
      if selectors.empty selector
      then ok ("" ∷ [])
      else (selectors.list_namespaces selector >>= λ ns_list. ok (names ns_list))

  -- `selectedNamespaces`; the name of all namespaces is empty.
  unfoldable pub selected_namespaces : ClusterWideRemoteSyncer → Result (List String)
  unfolding select_namespaces
  selected_namespaces cwrs = select_namespaces cwrs.spec.namespace_selector

or_failed : Result (List String) → (List String → Answer) → Answer
or_failed (ok namespaces) next = next namespaces
or_failed (err e) next = errored internal_server_error e

-- `ClusterWideRemoteSyncerWebhookHandler.Handle`; `manager` is the value of MANAGER_NAMESPACE.
module _ {Selector : Type 0} (selectors : Selectors Selector)
    (review : SubjectAccessReviewSpec → Result Bool) (req : Request) where
  unfoldable pub cluster_wide_remote_syncer_permissions :
      (Error → String) → String → (String → Result ClusterWideRemoteSyncer) → Answer
  unfolding or_errored or_failed
  cluster_wide_remote_syncer_permissions error_text manager decode =
      if does_user_bypass_webhook req.user manager
      then allowed
      else or_errored (decode_object decode req) (λ cwrs.
        or_failed (selected_namespaces selectors cwrs) (λ namespaces.
          authorize_syncer review error_text req.user (cluster_wide cwrs) namespaces))
