-- ===== src/Tests/ValidationTests.antt =====
-- The validation of the sample syncer and of targets.
use syngit.Common.{Bool, true, false, none, ◌≡◌, ◌≢◌, ◌↔◌, refl, string_eq, codes}
use syngit.Common.Errors.{Result, ok}
use syngit.Api.{ClusterWideRemoteSyncer, LabelSelector, namespaced, cluster_wide}
use syngit.Refs.{remote_syncer_refs}
use syngit.Validation.{
  is_git_uri, is_valid_yaml_path, validate_remote_syncer, validate_cluster_wide_remote_syncer,
  validate_remote_target,
}
use syngit.Validation.Syncers.{
  validate_remote_syncer-none, validate_cluster_wide_remote_syncer-none, IsWellFormed,
  IsPolicyValue, IsParsed, is_ok,
}
use syngit.Validation.Targets.{validate_remote_target-none, IsUpstream}
use syngit.Tests.Sample.{spec, syncer, target, meta_of}

git_uri : is_git_uri (codes "https://git.example.com/team/repo.git") ≡ true
unfolding is_git_uri
git_uri = refl

other_uri : is_git_uri (codes "ftp://git.example.com") ≡ false
unfolding is_git_uri
other_uri = refl

yaml_path : is_valid_yaml_path (codes ".metadata.labels[a/b]") ≡ true
unfolding is_valid_yaml_path
yaml_path = refl

abbrev cluster_wide_syncer : ClusterWideRemoteSyncer
cluster_wide_syncer = record {
  meta = meta_of "" "everywhere";
  spec = record {
    remote_syncer_spec = spec;
    namespace_selector = none;
    identity_store_namespace = "team";
  };
}

abbrev parse_selector : LabelSelector → Result (Bool)
parse_selector selector = ok true

validate_remote_syncer-none_example :
    (validate_remote_syncer syncer ≡ none) ↔ (IsWellFormed spec × IsPolicyValue (namespaced syncer))
validate_remote_syncer-none_example = validate_remote_syncer-none syncer

validate_cluster_wide_remote_syncer-none_example :
    (validate_cluster_wide_remote_syncer parse_selector cluster_wide_syncer ≡ none) ↔ (
      (IsWellFormed spec × IsPolicyValue (cluster_wide cluster_wide_syncer))
      × ((is_ok (remote_syncer_refs spec "") ≡ true)
          × ((cluster_wide_syncer.spec.identity_store_namespace ≢ "")
              × IsParsed parse_selector none)))
validate_cluster_wide_remote_syncer-none_example =
    validate_cluster_wide_remote_syncer-none parse_selector cluster_wide_syncer

validate_remote_target-none_example :
    (validate_remote_target target ≡ none)
    ↔ (IsUpstream target.spec ↔ (target.spec.merge_strategy ≡ ""))
validate_remote_target-none_example = validate_remote_target-none target
