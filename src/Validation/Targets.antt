-- ===== src/Validation/Targets.antt =====
-- Which targets pass the validation (internal/webhook/v1beta5/remotetarget_webhook.go).
use syngit.Common.{none, string_eq, ◌≡◌, ◌↔◌, arith, eq_iff}
use syngit.Api.{RemoteTarget, RemoteTargetSpec}
use syngit.Validation.{new_invalid, validate_remote_target_spec, validate_remote_target}

-- The target is the upstream itself.
abbrev pub IsUpstream : RemoteTargetSpec → Type 0
IsUpstream r = (r.upstream_branch ≡ r.target_branch) × (r.upstream_repository ≡ r.target_repository)

-- A RemoteTarget is accepted exactly if it has no merge strategy where it is the upstream itself,
-- and has one where it is not.
pub validate_remote_target-none :
    (rt : RemoteTarget)
    → (validate_remote_target rt ≡ none) ↔ (IsUpstream rt.spec ↔ (rt.spec.merge_strategy ≡ ""))
unfolding validate_remote_target validate_remote_target_spec new_invalid
validate_remote_target-none rt = ground (
  arith,
  eq_iff rt.spec.upstream_branch rt.spec.target_branch,
  eq_iff rt.spec.upstream_repository rt.spec.target_repository,
  eq_iff rt.spec.merge_strategy "",
)
