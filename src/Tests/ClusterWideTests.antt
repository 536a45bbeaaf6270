-- ===== src/Tests/ClusterWideTests.antt =====
-- Cluster-wide syncers, with a selector that matches one namespace.
use syngit.Common.{false, some, [], ◌∷◌, string_eq, ◌≡◌, ◌⊎◌, refl, true}
use syngit.Common.Errors.{ok}
use syngit.Api.{LabelSelector, ClusterWideRemoteSyncer}
use syngit.Webhook.{allowed, does_user_bypass_webhook}
use syngit.Webhook.Scope.{authorize_syncer, has_right_resources_permissions}
use syngit.Webhook.Handlers.{Request, decode_object}
use syngit.Webhook.ClusterWide.{
  Selectors, selected_namespaces, cluster_wide_remote_syncer_permissions,
}
use syngit.Webhook.ClusterWide.Selected.{
  IsAdmittedIn, cluster_wide_remote_syncer_permissions-IsAdmitted,
}
use syngit.Tests.Sample.{spec, name_of, meta_of, alice, allow, error_text}

abbrev selectors : Selectors LabelSelector
selectors = record {
  as_selector = ok;
  empty = λ selector. false;
  list_namespaces = λ selector. ok (meta_of "" "prod" ∷ []);
}

abbrev selector : LabelSelector
selector = record { match_labels = ("env", "prod") ∷ []; match_expressions = [] }

abbrev cluster_wide_syncer : ClusterWideRemoteSyncer
cluster_wide_syncer = record {
  meta = meta_of "" "syncer";
  spec = record {
    remote_syncer_spec = record spec {
      default_remote_user_ref = some (name_of "shared" "default-user");
    };
    namespace_selector = some selector;
    identity_store_namespace = "team";
  };
}

abbrev creation : Request
creation = record { operation = "CREATE"; user = alice; object = "{}"; old_object = "" }

cluster_wide_decoded :
    decode_object (λ raw. ok cluster_wide_syncer) creation ≡ ok cluster_wide_syncer
unfolding decode_object
cluster_wide_decoded = refl

selected : selected_namespaces selectors cluster_wide_syncer ≡ ok ("prod" ∷ [])
unfolding selected_namespaces
selected = refl

cluster_wide_allowed :
    cluster_wide_remote_syncer_permissions selectors allow creation error_text "syngit"
      (λ raw. ok cluster_wide_syncer)
    ≡ allowed
unfolding cluster_wide_remote_syncer_permissions selected_namespaces does_user_bypass_webhook
    decode_object authorize_syncer has_right_resources_permissions syngit.Rbac.operation_to_verb
    syngit.Rbac.check_access syngit.Refs.remote_syncer_refs syngit.Refs.resolve_namespace
    syngit.Rbac.authorize_cross_namespace_refs syngit.Rbac.authorize_refs
cluster_wide_allowed = refl

cluster_wide_remote_syncer_permissions-IsAdmitted_example :
    (does_user_bypass_webhook alice "syngit" ≡ true)
    ⊎ IsAdmittedIn allow error_text alice cluster_wide_syncer
        (selected_namespaces selectors cluster_wide_syncer)
cluster_wide_remote_syncer_permissions-IsAdmitted_example =
    cluster_wide_remote_syncer_permissions-IsAdmitted selectors allow creation error_text "syngit"
      (λ raw. ok cluster_wide_syncer) cluster_wide_syncer cluster_wide_decoded cluster_wide_allowed
