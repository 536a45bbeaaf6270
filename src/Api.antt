-- ===== src/Api.antt =====
-- The custom resources (pkg/api/v1beta5/*_types.go, groupversion_info.go). A Go map from strings is
-- an association list, read by `get`; an enumeration that Go keeps as a string stays a string.
use syngit.Common.{ℕ, String, Bool, Option, List, [], ◌∷◌, ◌==◌, string_eq, if◌then◌else◌}

abbrev pub StringMap : Type 0
StringMap = List (String × String)

-- `m[key]`, the empty string where the key is missing.
abbrev pub get : StringMap → String → String
get [] key = ""
get ((k, v) ∷ m) key = if k == key then v else get m key

-- `m[key] = value`
abbrev pub put : StringMap → String → String → StringMap
put [] key value = (key, value) ∷ []
put ((k, v) ∷ m) key value = if k == key then (k, value) ∷ m else (k, v) ∷ put m key value

abbrev pub managed_by_label_key : String
managed_by_label_key = "managed-by"

abbrev pub managed_by_label_value : String
managed_by_label_value = "syngit.io"

abbrev pub k8s_user_label_key : String
k8s_user_label_key = "syngit.io/k8s-user"

abbrev pub rub_name_prefix : String
rub_name_prefix = "associated-rub"

abbrev pub rub_annotation_key_managed : String
rub_annotation_key_managed = "syngit.io/remoteuserbinding.managed"

abbrev pub commit_only : String
commit_only = "CommitOnly"

abbrev pub commit_apply : String
commit_apply = "CommitApply"

abbrev pub one_target : String
one_target = "OneTarget"

abbrev pub use_default_user : String
use_default_user = "UseDefaultUser"

abbrev pub block_default_user : String
block_default_user = "Block"

abbrev pub rt_annotation_key_user_specific : String
rt_annotation_key_user_specific = "syngit.io/remotetarget.policy.user-specific"

abbrev pub rt_annotation_key_one_or_many_branches : String
rt_annotation_key_one_or_many_branches = "syngit.io/remotetarget.policy.one-or-many-branches"

abbrev pub rt_annotation_value_one_user_one_branch : String
rt_annotation_value_one_user_one_branch = "one-user-one-branch"

abbrev pub rt_annotation_value_one_user_one_fork : String
rt_annotation_value_one_user_one_fork = "one-user-one-fork"

abbrev pub rt_label_key_allow_injection : String
rt_label_key_allow_injection = "syngit.io/remotetarget.allow-injection"

abbrev pub rt_label_key_branch : String
rt_label_key_branch = "syngit.io/remotetarget.branch"

abbrev pub rt_label_key_policy : String
rt_label_key_policy = "syngit.io/remotetarget.policy"

abbrev pub rt_label_value_one_or_many_branches : String
rt_label_value_one_or_many_branches = "one-or-many-branches"

abbrev pub rt_label_value_one_user_one_branch : String
rt_label_value_one_user_one_branch = "user-specific.one-user-one-branch"

abbrev pub try_fast_forward_or_hard_reset : String
try_fast_forward_or_hard_reset = "TryFastForwardOrHardReset"

abbrev pub pass : String
pass = "Pass"

pub record NamespacedName : Type 0 where
  pub namespace : String
  pub name : String

-- Of `ObjectReference` and `SecretReference` the program reads these two fields.
abbrev pub ObjectReference : Type 0
ObjectReference = NamespacedName

pub record ObjectMeta : Type 0 where
  pub name : String
  pub namespace : String
  pub labels : StringMap
  pub annotations : StringMap
  pub finalizers : List String
  -- Whether `deletionTimestamp` is set.
  pub deleting : Bool

pub record LabelRequirement : Type 0 where
  pub key : String
  pub operator : String
  pub values : List String

pub record LabelSelector : Type 0 where
  pub match_labels : StringMap
  pub match_expressions : List LabelRequirement

pub record Subject : Type 0 where
  pub kind : String
  pub name : String

pub record RuleWithOperations : Type 0 where
  pub operations : List String
  pub api_groups : List String
  pub api_versions : List String
  pub resources : List String

pub record ScopedResources : Type 0 where
  pub object_selector : Option LabelSelector
  pub rules : List RuleWithOperations

pub record SopsConfig : Type 0 where
  pub enabled : Bool
  pub secret_ref : ObjectReference

pub record RemoteSyncerSpec : Type 0 where
  pub remote_repository : String
  pub default_branch : String
  pub scoped_resources : ScopedResources
  pub strategy : String
  pub target_strategy : String
  pub remote_target_selector : Option LabelSelector
  pub default_block_applied_message : String
  pub excluded_fields : List String
  pub excluded_fields_config_maps_ref : List (Option ObjectReference)
  pub root_path : String
  pub resource_finder : Bool
  pub remote_user_binding_selector : Option LabelSelector
  pub bypass_interception_subjects : List Subject
  pub bypass_all_service_accounts : Bool
  pub default_unauthorized_user_mode : String
  pub default_push_error_behavior : String
  pub push_error_retry_number : ℕ
  pub default_remote_user_ref : Option ObjectReference
  pub default_remote_target_ref : Option ObjectReference
  pub insecure_skip_tls_verify : Bool
  pub ca_bundle_secret_ref : ObjectReference
  pub sops : SopsConfig

pub record RemoteSyncer : Type 0 where
  pub meta : ObjectMeta
  pub spec : RemoteSyncerSpec

pub record ClusterWideRemoteSyncerSpec : Type 0 where
  pub remote_syncer_spec : RemoteSyncerSpec
  pub namespace_selector : Option LabelSelector
  pub identity_store_namespace : String

pub record ClusterWideRemoteSyncer : Type 0 where
  pub meta : ObjectMeta
  pub spec : ClusterWideRemoteSyncerSpec

pub record RemoteUserSpec : Type 0 where
  pub secret_ref : ObjectReference
  pub email : String
  pub git_base_domain_fqdn : String

pub record RemoteUser : Type 0 where
  pub meta : ObjectMeta
  pub spec : RemoteUserSpec

pub record RemoteTargetSpec : Type 0 where
  pub upstream_repository : String
  pub upstream_branch : String
  pub target_repository : String
  pub target_branch : String
  pub merge_strategy : String

pub record RemoteTarget : Type 0 where
  pub meta : ObjectMeta
  pub spec : RemoteTargetSpec

pub record RemoteUserBindingSpec : Type 0 where
  pub subject : Subject
  pub remote_user_refs : List ObjectReference
  pub remote_target_refs : List ObjectReference

pub record RemoteUserBinding : Type 0 where
  pub meta : ObjectMeta
  pub spec : RemoteUserBindingSpec

-- `Syncer` (syncer.go): either kind of syncer, behind one interface.
pub data Syncer : Type 0 where
  namespaced : RemoteSyncer → Syncer
  cluster_wide : ClusterWideRemoteSyncer → Syncer

abbrev pub syncer_meta : Syncer → ObjectMeta
syncer_meta (namespaced rs) = rs.meta
syncer_meta (cluster_wide cwrs) = cwrs.meta

abbrev pub syncer_spec : Syncer → RemoteSyncerSpec
syncer_spec (namespaced rs) = rs.spec
syncer_spec (cluster_wide cwrs) = cwrs.spec.remote_syncer_spec

-- Where the syncer's bindings and policy-managed targets live.
abbrev pub identity_namespace : Syncer → String
identity_namespace (namespaced rs) = rs.meta.namespace
identity_namespace (cluster_wide cwrs) = cwrs.spec.identity_store_namespace

-- The author of a request, as the API server reports it.
pub record UserInfo : Type 0 where
  pub username : String
  pub uid : String
  pub groups : List String
