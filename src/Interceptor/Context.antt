-- ===== src/Interceptor/Context.antt =====
-- pkg/interceptor/syncer.go: what the pipeline knows of the syncer, resolved for one request.
use Prim.Native.String.{◌++◌}
use syngit.Common.{String, Bool, true, false, if◌then◌else◌}
use syngit.Api.{
  NamespacedName, StringMap, RemoteSyncerSpec, RemoteSyncer, ClusterWideRemoteSyncer, Syncer,
  namespaced, cluster_wide,
}

abbrev pub cluster_scoped_path_segment : String
cluster_scoped_path_segment = "_cluster"

pub record SyncerContext : Type 0 where
  pub spec : RemoteSyncerSpec
  pub ref : NamespacedName
  pub annotations : StringMap
  pub cluster_wide : Bool
  pub intercepted_namespace : String
  pub rub_namespace : String
  pub ref_owner_namespace : String

unfoldable pub new_remote_syncer_context : RemoteSyncer → String → SyncerContext
new_remote_syncer_context rs intercepted_namespace = record {
  spec = rs.spec;
  ref = record { namespace = rs.meta.namespace; name = rs.meta.name };
  annotations = rs.meta.annotations;
  cluster_wide = false;
  intercepted_namespace = intercepted_namespace;
  rub_namespace = rs.meta.namespace;
  ref_owner_namespace = rs.meta.namespace;
}

unfoldable pub new_cluster_wide_syncer_context : ClusterWideRemoteSyncer → String → SyncerContext
new_cluster_wide_syncer_context cwrs intercepted_namespace = record {
  spec = cwrs.spec.remote_syncer_spec;
  ref = record { namespace = ""; name = cwrs.meta.name };
  annotations = cwrs.meta.annotations;
  cluster_wide = true;
  intercepted_namespace = intercepted_namespace;
  rub_namespace = cwrs.spec.identity_store_namespace;
  ref_owner_namespace = "";
}

-- `syncerContext` of a handler (dynamic_webhook_handlers.go), which holds either kind.
unfoldable pub syncer_context : Syncer → String → SyncerContext
unfolding new_remote_syncer_context new_cluster_wide_syncer_context
syncer_context (namespaced rs) ns = new_remote_syncer_context rs ns
syncer_context (cluster_wide cwrs) ns = new_cluster_wide_syncer_context cwrs ns

-- `String`
unfoldable pub context_string : SyncerContext → String
context_string sc =
    if sc.cluster_wide then sc.ref.name else (sc.ref.namespace ++ "/") ++ sc.ref.name
