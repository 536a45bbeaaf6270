-- ===== src/Tests/Sample.antt =====
-- A small cluster for the runs: one syncer, one user with credentials, and one target.
use syngit.Common.{String, Bool, true, false, none, some, List, [], ◌∷◌, string_eq}
use syngit.Common.Errors.{Error, Result, ok, err, not_found, child}
use syngit.Api.{
  NamespacedName, ObjectMeta, RemoteSyncerSpec, RemoteSyncer, RemoteUser, RemoteTarget,
  RemoteUserBinding, UserInfo, commit_apply, one_target, use_default_user, pass, RuleWithOperations,
}
use syngit.Refs.{ObjectRef}
use syngit.Rbac.{SubjectAccessReviewSpec}
use syngit.Render.{Fields, end, field, text}
use syngit.Render.Manifest.{Codec}
use syngit.Interceptor.Context.{SyncerContext}
use syngit.Interceptor.Target.{Cluster, GitUserInfo, UserTargets}
use syngit.Interceptor.Tls.{TlsSecret}
use syngit.Interceptor.Push.{GitPushResponse, GitPushParameters}
use syngit.Interceptor.Response.{AdmissionRequest}
use syngit.Interceptor.Pipeline.{World}

abbrev pub name_of : String → String → NamespacedName
name_of namespace name = record { namespace = namespace; name = name }

abbrev pub meta_of : String → String → ObjectMeta
meta_of namespace name = record {
  name = name;
  namespace = namespace;
  labels = [];
  annotations = [];
  finalizers = [];
  deleting = false;
}

abbrev pub rule : RuleWithOperations
rule = record {
  operations = "CREATE" ∷ [];
  api_groups = "" ∷ [];
  api_versions = "v1" ∷ [];
  resources = "configmaps" ∷ [];
}

abbrev pub spec : RemoteSyncerSpec
spec = record {
  remote_repository = "https://git.example.com/team/repo.git";
  default_branch = "main";
  scoped_resources = record { object_selector = none; rules = rule ∷ [] };
  strategy = commit_apply;
  target_strategy = one_target;
  remote_target_selector = none;
  default_block_applied_message = "";
  excluded_fields = ".status" ∷ [];
  excluded_fields_config_maps_ref = [];
  root_path = "";
  resource_finder = false;
  remote_user_binding_selector = none;
  bypass_interception_subjects = record { kind = "User"; name = "flux" } ∷ [];
  bypass_all_service_accounts = false;
  default_unauthorized_user_mode = use_default_user;
  default_push_error_behavior = pass;
  push_error_retry_number = 0;
  default_remote_user_ref = some (name_of "" "default-user");
  default_remote_target_ref = some (name_of "shared" "target");
  insecure_skip_tls_verify = false;
  ca_bundle_secret_ref = name_of "" "";
  sops = record { enabled = false; secret_ref = name_of "" "" };
}

abbrev pub syncer : RemoteSyncer
syncer = record { meta = meta_of "team" "syncer"; spec = spec }

abbrev pub context : SyncerContext
context = record {
  spec = spec;
  ref = name_of "team" "syncer";
  annotations = [];
  cluster_wide = false;
  intercepted_namespace = "team";
  rub_namespace = "team";
  ref_owner_namespace = "team";
}

abbrev pub remote_user : RemoteUser
remote_user = record {
  meta = meta_of "team" "alice-user";
  spec = record {
    secret_ref = name_of "" "alice-secret";
    email = "alice@example.com";
    git_base_domain_fqdn = "git.example.com";
  };
}

abbrev pub target : RemoteTarget
target = record {
  meta = meta_of "team" "target";
  spec = record {
    upstream_repository = "https://git.example.com/team/repo.git";
    upstream_branch = "main";
    target_repository = "https://git.example.com/team/repo.git";
    target_branch = "main";
    merge_strategy = "";
  };
}

abbrev pub binding : RemoteUserBinding
binding = record {
  meta = record (meta_of "team" "associated-rub-alice") {
    labels = ("managed-by", "syngit.io") ∷ [];
  };
  spec = record {
    subject = record { kind = "User"; name = "alice" };
    remote_user_refs = name_of "" "alice-user" ∷ [];
    remote_target_refs = name_of "" "target" ∷ [];
  };
}

abbrev pub alice : UserInfo
alice = record { username = "alice"; uid = "1"; groups = [] }

abbrev pub bob : UserInfo
bob = record { username = "bob"; uid = "2"; groups = [] }

abbrev pub cluster : Cluster
cluster = record {
  get_remote_user = λ n. ok remote_user;
  get_remote_target = λ n. ok target;
  get_remote_user_binding = λ n. ok binding;
  get_secret = λ n. ok (record { username = "alice"; password = "token" });
  list_remote_user_bindings = λ ns selector. ok (binding ∷ []);
  as_selector = λ selector. ok (λ labels. true);
  url_host = λ url. ok "git.example.com";
}

abbrev pub fields : Fields
fields = field [] (text []) end

abbrev pub codec : Codec
codec = record {
  json_to_map = λ raw. ok fields;
  map_to_yaml = λ m. ok "kind: ConfigMap";
  yaml_to_list = λ s. ok [];
  get_config_map = λ n. err not_found;
  list_default_config_maps = λ ns. ok [];
}

abbrev pub tls_secret : NamespacedName → Result TlsSecret
tls_secret n = ok (record { type = "kubernetes.io/tls"; certificate = some "certificate" })

abbrev pub response : GitPushResponse
response = record {
  paths = "team/cm.yaml" ∷ [];
  commit_hash = "abc";
  url = "https://git.example.com";
}

-- Everything is allowed, and every push succeeds.
abbrev pub world : World
world = record {
  cluster = cluster;
  codec = codec;
  review = λ _. ok true;
  get_tls_secret = tls_secret;
  run_git_pipeline = λ calls call. ok response;
  json_to_yaml = λ raw. ok "kind: ConfigMap";
  manager_namespace_variable = "syngit";
  error_text = λ e. "error";
  denied_text = λ user ref. "denied";
}

abbrev pub request : AdmissionRequest
request = record {
  uid = "uid";
  user_info = alice;
  name = "cm";
  namespace = "team";
  resource = record { group = ""; version = "v1"; resource = "configmaps" };
  request_resource = record { group = ""; version = "v1"; resource = "configmaps" };
  operation = "CREATE";
  object_raw = "{}";
  old_object_raw = "";
}

-- The references of the syncer, the second one into another namespace.
abbrev pub own_ref : ObjectRef
own_ref = record {
  namespace = "team";
  name = "default-user";
  group = "syngit.io";
  version = "v1beta5";
  resource = "remoteusers";
  field_path = child "spec" ∷ child "defaultRemoteUserRef" ∷ [];
}

abbrev pub shared_ref : ObjectRef
shared_ref = record {
  namespace = "shared";
  name = "target";
  group = "syngit.io";
  version = "v1beta5";
  resource = "remotetargets";
  field_path = child "spec" ∷ child "defaultRemoteTargetRef" ∷ [];
}

abbrev pub refs : List ObjectRef
refs = own_ref ∷ shared_ref ∷ []

abbrev pub allow : SubjectAccessReviewSpec → Result Bool
allow _ = ok true

abbrev pub refuse : SubjectAccessReviewSpec → Result Bool
refuse _ = ok false

abbrev pub refusing_world : World
refusing_world = record world { review = refuse }

abbrev pub info : GitUserInfo
info = record { user = "alice"; email = "alice@example.com"; token = "token" }

abbrev pub targets : UserTargets
targets = (info, target ∷ []) ∷ []

abbrev pub error_text : Error → String
error_text e = "error"

abbrev pub parameters : GitPushParameters
parameters = record {
  user_targets = targets;
  syncer = context;
  intercepted_manifest = "kind: ConfigMap";
  deleted_manifest = "";
  metadata = record {
    gvr = record { group = ""; version = "v1"; resource = "configmaps" };
    name = "cm";
    namespace = "team";
  };
  operation = "CREATE";
  ca_bundle = none;
}
