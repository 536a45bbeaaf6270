-- ===== src/Tests/InterceptorTests.antt =====
-- The interception of a request, run on the sample cluster.
use syngit.Common.{
  true, false, none, some, ◌≡◌, refl, All, if◌then◌else◌, ltb, any, length, ◌==◌, string_eq,
}
use syngit.Common.Errors.{ok, err, too_much_subject}
use syngit.Interceptor.Pipeline.{run_interception_pipeline}
use syngit.Interceptor.Pipeline.Allowed.{IsJustified, run_interception_pipeline-IsJustified}
use syngit.Interceptor.Pipeline.Authorized.{IsPermitted, run_interception_pipeline-IsPermitted}
use syngit.Interceptor.Push.{run_git_push_pipeline}
use syngit.Interceptor.Push.Complete.{IsComplete, run_git_push_pipeline-IsComplete}
use syngit.Interceptor.Association.{user_info_remote_targets}
use syngit.Interceptor.Association.Sound.{IsBound, user_info_remote_targets-IsBound}
use syngit.Interceptor.Association.Default.{IsDefault, user_info_remote_targets-IsDefault}
use syngit.Interceptor.Target.{binding_by_username}
use syngit.Interceptor.Tls.{IsTrusted, ca_bundle, ca_bundle-IsTrusted}
use syngit.Interceptor.Subject.{is_bypass_subject, names, is_bypass_subject-names}
use syngit.Refs.{remote_syncer_refs}
use syngit.Rbac.{check_access, get_attributes}
use syngit.Tests.Sample.{
  world, refusing_world, request, context, cluster, alice, bob, binding, targets, refs, shared_ref,
  parameters, tls_secret, spec, response,
}

run_allowed : (run_interception_pipeline world request context "syngit").response.allowed ≡ true
unfolding run_interception_pipeline is_bypass_subject remote_syncer_refs
    syngit.Refs.resolve_namespace syngit.Rbac.authorize_cross_namespace_refs
    syngit.Rbac.authorize_refs check_access user_info_remote_targets binding_by_username
    syngit.Interceptor.Target.resolve_refs syngit.Interceptor.Target.append_target
    syngit.Interceptor.Target.git_user_info syngit.Interceptor.Target.selector_of
    syngit.Interceptor.Target.git_user_info_by_binding run_git_push_pipeline
    syngit.Render.Manifest.object_to_yaml ca_bundle syngit.Render.contains_deletion_timestamp
    syngit.Interceptor.Tls.host_name syngit.Interceptor.Response.admission_review
    syngit.Interceptor.Pipeline.is_webhook_allowed
run_allowed = refl

run_interception_pipeline-IsJustified_example :
    IsJustified world request context "syngit"
      (run_interception_pipeline world request context "syngit")
run_interception_pipeline-IsJustified_example =
    run_interception_pipeline-IsJustified world request context "syngit" run_allowed

-- One push is made.
run_pushes : length (run_interception_pipeline world request context "syngit").calls ≡ 1
unfolding run_interception_pipeline is_bypass_subject remote_syncer_refs
    syngit.Refs.resolve_namespace syngit.Rbac.authorize_cross_namespace_refs
    syngit.Rbac.authorize_refs check_access user_info_remote_targets binding_by_username
    syngit.Interceptor.Target.resolve_refs syngit.Interceptor.Target.append_target
    syngit.Render.Manifest.object_to_yaml syngit.Render.contains_deletion_timestamp ca_bundle
    syngit.Interceptor.Tls.host_name run_git_push_pipeline
run_pushes = refl

run_interception_pipeline-IsPermitted_example :
    All
      (IsPermitted world request context "syngit")
      (run_interception_pipeline world request context "syngit").calls
run_interception_pipeline-IsPermitted_example =
    run_interception_pipeline-IsPermitted world request context "syngit"

spec_refs : remote_syncer_refs spec "team" ≡ ok refs
unfolding remote_syncer_refs syngit.Refs.resolve_namespace
spec_refs = refl

shared_refused :
    check_access refusing_world.review request.user_info (get_attributes shared_ref) ≡ ok false
unfolding check_access
shared_refused = refl

bound : binding_by_username cluster context "alice" "git.example.com" ≡ ok (some binding)
unfolding binding_by_username syngit.Refs.resolve_namespace
bound = refl

bound_targets_found : user_info_remote_targets cluster alice "git.example.com" context ≡ ok targets
unfolding user_info_remote_targets binding_by_username syngit.Refs.resolve_namespace
    syngit.Interceptor.Target.resolve_refs syngit.Interceptor.Target.append_target
bound_targets_found = refl

user_info_remote_targets-IsBound_example : IsBound cluster context binding targets
user_info_remote_targets-IsBound_example =
    user_info_remote_targets-IsBound cluster context alice "git.example.com" binding targets bound
      bound_targets_found

unbound : binding_by_username cluster context "bob" "git.example.com" ≡ ok none
unfolding binding_by_username
unbound = refl

default_targets_found : user_info_remote_targets cluster bob "git.example.com" context ≡ ok targets
unfolding user_info_remote_targets binding_by_username syngit.Refs.resolve_namespace
    syngit.Interceptor.Target.append_target
default_targets_found = refl

user_info_remote_targets-IsDefault_example : IsDefault cluster context "git.example.com" targets
user_info_remote_targets-IsDefault_example =
    user_info_remote_targets-IsDefault cluster context bob "git.example.com" targets unbound
      default_targets_found

run_git_push_pipeline-IsComplete_example :
    IsComplete
      (λ calls call. ok response)
      parameters
      (run_git_push_pipeline (λ calls call. ok response) parameters)
run_git_push_pipeline-IsComplete_example =
    run_git_push_pipeline-IsComplete (λ calls call. ok response) parameters

bundle : ca_bundle tls_secret "syngit" context "git.example.com:443" ≡ ok (some "certificate")
unfolding ca_bundle syngit.Interceptor.Tls.host_name
bundle = refl

is_bypass_subject-names_example : is_bypass_subject alice context ≡ (
    if ltb 1 (names "alice" spec.bypass_interception_subjects)
    then err (too_much_subject (names "alice" spec.bypass_interception_subjects))
    else ok (any (λ s. s.name == "alice") spec.bypass_interception_subjects))
is_bypass_subject-names_example = is_bypass_subject-names alice context
