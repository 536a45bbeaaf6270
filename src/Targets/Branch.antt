-- ===== src/Targets/Branch.antt =====
-- internal/policy/branchtarget_policy.go: the targets of the branches that a syncer lists. The names
-- of the targets are those that `RemoteTargetName` (pkg/naming/remotetarget.go) derives.
pub mod Kept
pub mod Lookup
pub mod Created
pub mod Served
pub mod Cleaned
use Prim.Native.Char.{Char}
use syngit.Common.{
  String, Bool, true, false, not, ◌&&◌, ◌||◌, Option, none, some, List, [], ◌∷◌, ◌++◌, ◌==◌,
  string_eq, if◌then◌else◌, select, any, contains,
}
use syngit.Common.Errors.{Error, Result, ok, err, ◌>>=◌}
use syngit.Api.{
  get, Syncer, syncer_meta, syncer_spec, identity_namespace, RemoteTarget, managed_by_label_key,
  managed_by_label_value, rt_label_key_policy, rt_label_key_branch,
  rt_label_value_one_or_many_branches, rt_annotation_key_one_or_many_branches,
  try_fast_forward_or_hard_reset,
}
use syngit.Naming.Target.{remote_target_name}
use syngit.Targets.{
  Store, Call, attempt, create, delete, clear, or_exists, or_not_found, filter_by_upstream,
  get_other_syncers_with, list_policy_targets, put_target, find_target,
}
use syngit.Targets.Sweep.{sweep}
use syngit.Targets.Branches.{branches_from_annotation}

-- The branches that a syncer lists.
abbrev pub listed_branches : Syncer → List String
listed_branches syncer =
    branches_from_annotation
      (get (syncer_meta syncer).annotations rt_annotation_key_one_or_many_branches)

abbrev pub is_nonempty {ℓ} : {A : Type ℓ} → List A → Bool
is_nonempty [] = false
is_nonempty (x ∷ xs) = true

-- `BranchTargetPolicy.Applies`
unfoldable pub applies : Syncer → Bool
applies syncer = is_nonempty (listed_branches syncer)

-- `isBranchUsedByOtherSyncer`
abbrev pub uses_branch : String → String → String → Syncer → Bool
uses_branch branch repo upstream_branch other =
    (syncer_spec other).remote_repository == repo
    && ((syncer_spec other).default_branch == upstream_branch
        && contains (listed_branches other) branch)

unfoldable pub is_branch_used_by_other_syncer : String → String → String → List Syncer → Bool
is_branch_used_by_other_syncer branch repo upstream_branch =
    any (uses_branch branch repo upstream_branch)

-- The loop that collects the existing branches: of two targets with one branch the last one stays.
pub existing_branches :
    List RemoteTarget → List (String × RemoteTarget) → List (String × RemoteTarget)
unfolding put_target
existing_branches [] m = m
existing_branches (rt ∷ rts) m = existing_branches rts (put_target rt.spec.target_branch rt m)

abbrev pub repo : Syncer → String
repo syncer = (syncer_spec syncer).remote_repository

abbrev pub upstream : Syncer → String
upstream syncer = (syncer_spec syncer).default_branch

abbrev pub namespace : Syncer → String
namespace syncer = identity_namespace syncer

-- The target that a branch gets.
abbrev pub target_of : Syncer → String → String → RemoteTarget
target_of syncer name branch = record {
  meta = record {
    name = name;
    namespace = namespace syncer;
    labels =
        (managed_by_label_key, managed_by_label_value)
        ∷ (rt_label_key_branch, branch)
        ∷ (rt_label_key_policy, rt_label_value_one_or_many_branches)
        ∷ [];
    annotations = [];
    finalizers = [];
    deleting = false;
  };
  spec = record {
    upstream_repository = repo syncer;
    upstream_branch = upstream syncer;
    target_repository = repo syncer;
    target_branch = branch;
    merge_strategy = if upstream syncer == branch then "" else try_fast_forward_or_hard_reset;
  };
}

module _ (path_of : String → Result String) (to_lower : Char → Char)
    (fault : Call → Store → Option Error) (syncer : Syncer) where
  -- `buildRemoteTarget`
  unfoldable pub build_remote_target : String → Result RemoteTarget
  build_remote_target branch =
      remote_target_name path_of to_lower (repo syncer) (upstream syncer) (repo syncer) branch
      >>= λ name. ok (target_of syncer name branch)

  -- The loop that creates what is missing.
  pub create_missing : List String → List (String × RemoteTarget) → Store → Result Store
  unfolding build_remote_target create or_exists find_target
  create_missing [] existing s = ok s
  create_missing (branch ∷ branches) existing s = elim (find_target branch existing) [
    | some rt ↦ create_missing branches existing s
    | none ↦ build_remote_target branch >>= λ rt.
        or_exists fault s (create fault rt s) >>= λ s'. create_missing branches existing s'
  ]

  -- A target goes, and then the references to it.
  pub remove : RemoteTarget → Store → Result Store
  unfolding delete or_not_found clear
  remove rt s = or_not_found fault s (delete fault rt s) >>= λ s'. clear fault rt s'

  -- An existing branch that is not desired, and that no other syncer uses.
  abbrev pub is_orphaned : List String → List Syncer → String × RemoteTarget → Bool
  is_orphaned desired others (branch, rt) =
      not (contains desired branch)
      && not (is_branch_used_by_other_syncer branch (repo syncer) (upstream syncer) others)

  -- The loop that deletes the orphans.
  pub prune : List String → List Syncer → List (String × RemoteTarget) → Store → Result Store
  unfolding is_branch_used_by_other_syncer remove sweep
  prune desired others = sweep (λ e. e.1) remove (is_orphaned desired others)

  abbrev pub own_targets : Store → Result (List RemoteTarget)
  own_targets s =
      list_policy_targets fault rt_label_value_one_or_many_branches (namespace syncer) s >>= λ rts.
      ok (filter_by_upstream (repo syncer) (upstream syncer) rts)

  -- The branches without a target get one, and then the orphans go.
  abbrev pub settle : List (String × RemoteTarget) → Store → Result Store
  settle existing s = create_missing (listed_branches syncer) existing s >>= λ created.
      get_other_syncers_with fault syncer rt_annotation_key_one_or_many_branches created
      >>= λ others. prune (listed_branches syncer) others existing created

  -- `BranchTargetPolicy.Reconcile`
  unfoldable pub reconcile : Store → Result Store
  unfolding list_policy_targets filter_by_upstream existing_branches create_missing prune
      get_other_syncers_with
  reconcile s = own_targets s >>= λ matching. settle (existing_branches matching []) s

  abbrev pub is_unused : List Syncer → RemoteTarget → Bool
  is_unused others rt =
      not (
        is_branch_used_by_other_syncer rt.spec.target_branch (repo syncer) (upstream syncer) others)

  -- The loop of the clean-up.
  pub clean : List Syncer → List RemoteTarget → Store → Result Store
  unfolding is_branch_used_by_other_syncer remove sweep
  clean others = sweep (λ rt. rt) remove (is_unused others)

  -- `cleanupBranchTargets`, which Cleanup calls.
  unfoldable pub cleanup : Store → Result Store
  unfolding list_policy_targets filter_by_upstream clean get_other_syncers_with
  cleanup s = own_targets s >>= λ matching.
      get_other_syncers_with fault syncer rt_annotation_key_one_or_many_branches s >>= λ others.
      clean others matching s
