-- ===== src/Validation.antt =====
-- internal/webhook/v1beta5: the validation of syncers and targets (remotesyncer_webhook.go,
-- clusterwideremotesyncer_webhook.go, syncer_webhook.go, remotetarget_webhook.go).
pub mod WellFormed
pub mod Syncers
pub mod Targets
use syngit.Common.{
  ℕ, leb, nat_beq, String, Bool, true, false, not, ◌&&◌, ◌||◌, Option, none, some, List, [], ◌∷◌,
  ◌++◌, ◌==◌, string_eq, nat_eq, if◌then◌else◌, Text, codes, contains,
}
use syngit.Common.Errors.{Error, Result, ok, err, FieldPath, child, index}
use syngit.Api.{
  ObjectReference, LabelSelector, RemoteSyncerSpec, RemoteSyncer, ClusterWideRemoteSyncer, Syncer,
  namespaced, cluster_wide, syncer_meta, syncer_spec, RemoteTargetSpec, RemoteTarget, get,
  commit_only, commit_apply, block_default_user, use_default_user, rt_annotation_key_user_specific,
  rt_annotation_value_one_user_one_branch, rt_annotation_value_one_user_one_fork,
}
use syngit.Refs.{remote_syncer_refs}

-- `field.Error`, by its type; the offending value and the message are left out.
pub data FieldError : Type 0 where
  invalid : FieldPath → FieldError
  required : FieldPath → FieldError
  forbidden : FieldPath → FieldError

abbrev pub ErrorList : Type 0
ErrorList = List FieldError

-- `apierrors.NewInvalid`
pub record Invalid : Type 0 where
  pub kind : String
  pub name : String
  pub errors : ErrorList

abbrev pub is_some {ℓ} : {A : Type ℓ} → Option A → Bool
is_some none = false
is_some (some a) = true

-- `if test { errors = append(errors, e) }`, of the errors that are appended.
abbrev pub report : Bool → FieldError → ErrorList
report test e = if test then e ∷ [] else []

abbrev pub spec_path : String → FieldPath
spec_path field = child "spec" ∷ child field ∷ []

unfoldable pub strip_prefix : Text → Text → Option Text
strip_prefix [] s = some s
strip_prefix (p ∷ ps) [] = none
strip_prefix (p ∷ ps) (c ∷ cs) = if nat_beq p c then strip_prefix ps cs else none

-- `[^ ]+` up to the end
abbrev pub no_space : Text → Bool
no_space [] = true
no_space (c ∷ cs) = not (nat_beq c 32) && no_space cs

abbrev pub location : Option Text → Bool
location none = false
location (some []) = false
location (some (c ∷ cs)) = no_space (c ∷ cs)

-- `gitURIPattern`
unfoldable pub is_git_uri : Text → Bool
unfolding strip_prefix
is_git_uri s =
    location (strip_prefix (codes "http://") s)
    || location (strip_prefix (codes "https://") s)
    || location (strip_prefix (codes "git://") s)

-- `[a-zA-Z0-9_./:-]`
pub is_path_char : ℕ → Bool
is_path_char c =
    leb 97 c && leb c 122
    || leb 65 c && leb c 90
    || leb 48 c && leb c 57
    || contains (codes "_./:-") c

-- The match of the pattern of `isValidYAMLPath`, outside and inside a bracket.
pub matches_path : Bool → Text → Bool
unfolding is_path_char
matches_path inside [] = not inside
matches_path false (c ∷ cs) = elim (is_path_char c) [
  | true ↦ matches_path false cs
  | false ↦ elim (nat_beq c 91) [ true ↦ matches_path true cs | false ↦ false ]
]
matches_path true (c ∷ cs) = elim (is_path_char c || nat_beq c 42) [
  | true ↦ matches_path true cs
  | false ↦ elim (nat_beq c 93) [ true ↦ matches_path false cs | false ↦ false ]
]

-- `isValidYAMLPath`
unfoldable pub is_valid_yaml_path : Text → Bool
unfolding matches_path
is_valid_yaml_path = matches_path false

pub validate_excluded_fields : List String → ErrorList
unfolding is_valid_yaml_path
validate_excluded_fields [] = []
validate_excluded_fields (path ∷ paths) =
    report (not (is_valid_yaml_path (codes path))) (invalid (spec_path "excludedFields"))
    ++ validate_excluded_fields paths

-- `validateRemoteSyncerSpec`
pub validate_remote_syncer_spec : RemoteSyncerSpec → ErrorList
unfolding is_git_uri validate_excluded_fields
validate_remote_syncer_spec r =
    (if r.default_unauthorized_user_mode == block_default_user && is_some r.default_remote_user_ref
      then invalid (spec_path "defaultRemoteUserRef") ∷ []
      else report
          (r.default_unauthorized_user_mode == use_default_user
            && not (is_some r.default_remote_user_ref))
          (required (spec_path "defaultRemoteUserRef")))
    ++ (report (is_some r.default_remote_user_ref && not (is_some r.default_remote_target_ref))
          (invalid (spec_path "defaultRemoteTargetRef"))
        ++ (report (not (is_some r.default_remote_user_ref) && is_some r.default_remote_target_ref)
              (invalid (spec_path "defaultRemoteUserRef"))
            ++ (report
                  (not (r.default_block_applied_message == "") && not (r.strategy == commit_only))
                  (forbidden (spec_path "defaultBlockAppliedMessage"))
                ++ (report (not (r.strategy == commit_only) && not (r.strategy == commit_apply))
                      (invalid (spec_path "strategy"))
                    ++ (report (not (is_git_uri (codes r.remote_repository)))
                          (invalid (spec_path "remoteRepository"))
                        ++ (validate_excluded_fields r.excluded_fields
                            ++ report
                                (not (r.default_unauthorized_user_mode == block_default_user)
                                  && r.default_branch == "")
                                (required (spec_path "defaultBranch"))))))))

-- `validateSyncer`
pub validate_syncer : Syncer → ErrorList
unfolding validate_remote_syncer_spec
validate_syncer syncer =
    let value = get (syncer_meta syncer).annotations rt_annotation_key_user_specific in
    validate_remote_syncer_spec (syncer_spec syncer)
    ++ report
        (not (
          contains
            ("" ∷ rt_annotation_value_one_user_one_branch ∷ rt_annotation_value_one_user_one_fork
              ∷ [])
            value))
        (invalid
          (child "metadata" ∷ child "annotations" ∷ child rt_annotation_key_user_specific ∷ []))

new_invalid : String → String → ErrorList → Option Invalid
new_invalid kind name [] = none
new_invalid kind name (e ∷ es) = some (record { kind = kind; name = name; errors = e ∷ es })

-- `validateRemoteSyncer`, which ValidateCreate and ValidateUpdate return.
unfoldable pub validate_remote_syncer : RemoteSyncer → Option Invalid
unfolding validate_syncer new_invalid
validate_remote_syncer rs =
    new_invalid "RemoteSyncer" rs.meta.name (validate_syncer (namespaced rs))

failed : {A : Type 0} → Result A → Bool
failed (ok a) = false
failed (err e) = true

-- `LabelSelectorAsSelector`, of which a missing selector selects nothing.
selector_failed :
    {Selector : Type 0} → (LabelSelector → Result Selector) → Option LabelSelector → Bool
unfolding failed
selector_failed as_selector none = false
selector_failed as_selector (some selector) = failed (as_selector selector)

-- `validateClusterWideRemoteSyncer`
unfoldable pub validate_cluster_wide_remote_syncer :
    {Selector : Type 0}
    → (LabelSelector → Result Selector)
    → ClusterWideRemoteSyncer
    → Option Invalid
unfolding validate_syncer new_invalid failed selector_failed
validate_cluster_wide_remote_syncer as_selector cwrs =
    new_invalid "ClusterWideRemoteSyncer" cwrs.meta.name (
      validate_syncer (cluster_wide cwrs)
      ++ (report (failed (remote_syncer_refs cwrs.spec.remote_syncer_spec ""))
            (required (child "spec" ∷ []))
          ++ (report (cwrs.spec.identity_store_namespace == "")
                (required (spec_path "identityStoreNamespace"))
              ++ report (selector_failed as_selector cwrs.spec.namespace_selector)
                  (invalid (spec_path "namespaceSelector")))))

-- `validateRemoteTargetSpec`
pub validate_remote_target_spec : RemoteTargetSpec → ErrorList
validate_remote_target_spec r =
    report
      (r.upstream_branch == r.target_branch
        && r.upstream_repository == r.target_repository
        && not (r.merge_strategy == ""))
      (invalid (spec_path "mergeStrategy"))
    ++ report
        ((not (r.upstream_branch == r.target_branch)
            || not (r.upstream_repository == r.target_repository))
          && r.merge_strategy == "")
        (invalid (spec_path "mergeStrategy"))

-- `validateRemoteTarget`
unfoldable pub validate_remote_target : RemoteTarget → Option Invalid
unfolding validate_remote_target_spec new_invalid
validate_remote_target rt =
    new_invalid "RemoteTarget" rt.meta.name (validate_remote_target_spec rt.spec)
