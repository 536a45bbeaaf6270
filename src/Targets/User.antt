-- ===== src/Targets/User.antt =====
-- internal/policy/userspecific_policy.go: the target of each user that has a managed binding, and the
-- references to it.
pub mod Grows
pub mod Kept
pub mod Cleaned
use Prim.Native.Char.{Char}
use syngit.Common.{
  String, Bool, true, false, not, ◌&&◌, ◌||◌, Option, none, some, List, [], ◌∷◌, ◌==◌, string_eq,
  if◌then◌else◌, select, any, contains,
}
use syngit.Common.Errors.{Error, Result, ok, err, ◌>>=◌}
use syngit.Api.{
  get, Syncer, syncer_meta, syncer_spec, identity_namespace, RemoteTarget, RemoteUserBinding,
  managed_by_label_key, managed_by_label_value, k8s_user_label_key, rt_label_key_policy,
  rt_label_key_allow_injection, rt_label_value_one_user_one_branch, rt_annotation_key_user_specific,
  rt_annotation_value_one_user_one_fork, try_fast_forward_or_hard_reset,
}
use syngit.Managed.{is_managed, add_remote_target_ref, mutate_or_delete}
use syngit.Naming.Target.{remote_target_name, soft_sanitize_text}
use syngit.Targets.{
  Store, Call, list_bindings, add_ref, attempt, create, delete, clear, or_exists, or_not_found,
  filter_by_upstream, get_other_syncers_with, list_policy_targets, put_target, find_target,
  with_bindings,
}
use syngit.Targets.Sweep.{sweep}

-- `UserSpecificPolicy.Applies`
unfoldable pub applies : Syncer → Bool
applies syncer = not (get (syncer_meta syncer).annotations rt_annotation_key_user_specific == "")

-- `isRTUsedByOtherSyncer`
unfoldable pub is_rt_used_by_other_syncer : List Syncer → RemoteTarget → Bool
is_rt_used_by_other_syncer others rt =
    any
      (λ other.
        (syncer_spec other).remote_repository == rt.spec.upstream_repository
        && (syncer_spec other).default_branch == rt.spec.upstream_branch)
      others

abbrev pub user_of_target : RemoteTarget → String
user_of_target rt = get rt.meta.labels k8s_user_label_key

abbrev pub user_of_binding : RemoteUserBinding → String
user_of_binding rub = get rub.meta.labels k8s_user_label_key

-- The map of the targets by their users: of two targets with one user the last one stays.
pub existing_by_user :
    List RemoteTarget → List (String × RemoteTarget) → List (String × RemoteTarget)
unfolding put_target
existing_by_user [] m = m
existing_by_user (rt ∷ rts) m =
    existing_by_user rts
      (if user_of_target rt == "" then m else put_target (user_of_target rt) rt m)

-- The keys that the loop puts into `activeUsers`.
pub active_users : List RemoteUserBinding → List String
active_users [] = []
active_users (rub ∷ rubs) =
    let users = active_users rubs in
    if user_of_binding rub == "" then users else user_of_binding rub ∷ users

module _ (path_of : String → Result String) (to_lower : Char → Char)
    (fault : Call → Store → Option Error) (syncer : Syncer) where
  abbrev pub user_specific : String
  user_specific = get (syncer_meta syncer).annotations rt_annotation_key_user_specific

  abbrev pub target_repo : String
  target_repo =
      if user_specific == rt_annotation_value_one_user_one_fork
      then ""
      else (syncer_spec syncer).remote_repository

  abbrev pub target_of : String → String → String → RemoteTarget
  target_of name raw_username sanitized_user = record {
    meta = record {
      name = name;
      namespace = identity_namespace syncer;
      labels =
          (managed_by_label_key, managed_by_label_value)
          ∷ (rt_label_key_policy, rt_label_value_one_user_one_branch)
          ∷ (k8s_user_label_key, sanitized_user)
          ∷ [];
      annotations = if target_repo == "" then (rt_label_key_allow_injection, "true") ∷ [] else [];
      finalizers = [];
      deleting = false;
    };
    spec = record {
      upstream_repository = (syncer_spec syncer).remote_repository;
      upstream_branch = (syncer_spec syncer).default_branch;
      target_repository = target_repo;
      target_branch = soft_sanitize_text to_lower raw_username;
      merge_strategy = try_fast_forward_or_hard_reset;
    };
  }

  -- `buildUserSpecificTarget`
  unfoldable pub build_user_specific_target : String → String → Result RemoteTarget
  build_user_specific_target raw_username sanitized_user =
      remote_target_name path_of to_lower (syncer_spec syncer).remote_repository
        (syncer_spec syncer).default_branch target_repo sanitized_user
      >>= λ name. ok (target_of name raw_username sanitized_user)

  -- `ensureRTRefInRUB`
  pub ensure_rt_ref_in_rub : RemoteUserBinding → String → Store → Result Store
  unfolding attempt
  ensure_rt_ref_in_rub rub rt_name s = attempt fault (add_ref rub) s (
      mutate_or_delete (λ fresh. ok (add_remote_target_ref rt_name fresh)) rub s.bindings
      >>= λ bindings. ok (with_bindings s bindings))

  -- The target of one binding's user.
  pub reconcile_user : List (String × RemoteTarget) → RemoteUserBinding → Store → Result Store
  unfolding build_user_specific_target ensure_rt_ref_in_rub create or_exists find_target
  reconcile_user existing rub s = elim (find_target (user_of_binding rub) existing) [
    | some rt ↦ ensure_rt_ref_in_rub rub rt.meta.name s
    | none ↦ build_user_specific_target rub.spec.subject.name (user_of_binding rub) >>= λ rt.
        or_exists fault s (create fault rt s) >>= λ s'. ensure_rt_ref_in_rub rub rt.meta.name s'
  ]

  -- `reconcileUserTargets`
  pub reconcile_user_targets :
      List RemoteUserBinding → List (String × RemoteTarget) → Store → Result Store
  unfolding reconcile_user
  reconcile_user_targets [] existing s = ok s
  reconcile_user_targets (rub ∷ rubs) existing s =
      (if user_of_binding rub == "" then ok s else reconcile_user existing rub s) >>= λ s'.
      reconcile_user_targets rubs existing s'

  -- The references to a target go, and then the target.
  pub remove : RemoteTarget → Store → Result Store
  unfolding delete or_not_found clear
  remove rt s = clear fault rt s >>= λ s'. or_not_found fault s' (delete fault rt s')

  -- The target of a user without a managed binding, that no other syncer uses.
  abbrev pub is_stale : List Syncer → List String → String × RemoteTarget → Bool
  is_stale others active (user, rt) =
      not (contains active user) && not (is_rt_used_by_other_syncer others rt)

  -- `pruneStaleTargets`
  unfoldable pub prune_stale_targets :
      List (String × RemoteTarget) → List String → Store → Result Store
  unfolding sweep get_other_syncers_with is_rt_used_by_other_syncer remove
  prune_stale_targets existing active s =
      get_other_syncers_with fault syncer rt_annotation_key_user_specific s >>= λ others.
      sweep (λ e. e.1) remove (is_stale others active) existing s

  -- `listManagedRUBs`
  pub list_managed_rubs : Store → Result (List RemoteUserBinding)
  unfolding attempt
  list_managed_rubs s =
      attempt fault list_bindings s
        (ok (select (is_managed (identity_namespace syncer)) s.bindings))

  -- `listUserSpecificTargets`
  pub list_user_specific_targets : Store → Result (List RemoteTarget)
  unfolding list_policy_targets filter_by_upstream
  list_user_specific_targets s =
      list_policy_targets fault rt_label_value_one_user_one_branch (identity_namespace syncer) s
      >>= λ rts. ok (
          filter_by_upstream (syncer_spec syncer).remote_repository
            (syncer_spec syncer).default_branch rts)

  -- The targets of the bindings' users, and then the deletion of the stale ones.
  abbrev pub settle : List RemoteUserBinding → List (String × RemoteTarget) → Store → Result Store
  settle rubs existing s = reconcile_user_targets rubs existing s >>= λ s'.
      prune_stale_targets existing (active_users rubs) s'

  -- `UserSpecificPolicy.Reconcile`
  unfoldable pub reconcile : Store → Result Store
  unfolding list_managed_rubs list_user_specific_targets existing_by_user reconcile_user_targets
      active_users prune_stale_targets
  reconcile s = list_managed_rubs s >>= λ rubs.
      list_user_specific_targets s >>= λ rts. settle rubs (existing_by_user rts []) s

  -- `cleanupUserSpecificTargets`, which Cleanup calls.
  unfoldable pub cleanup : Store → Result Store
  unfolding list_user_specific_targets get_other_syncers_with sweep is_rt_used_by_other_syncer
      remove
  cleanup s = list_user_specific_targets s >>= λ rts.
      get_other_syncers_with fault syncer rt_annotation_key_user_specific s >>= λ others.
      sweep (λ rt. rt) remove (λ rt. not (is_rt_used_by_other_syncer others rt)) rts s
