-- ===== src/Targets.antt =====
-- internal/policy/branchtarget_policy.go, userspecific_policy.go and syncers.go: the targets that
-- syngit manages for the syncers, over a store of the API server's objects. Any call may fail before
-- it has an effect, as `fault` says; the rest of the API server's answers follow from what is stored.
-- Delays are left out. An error ends the run, and what it stored by then plays no further part.
pub mod Branches
pub mod Branch
pub mod User
pub mod Association
pub mod Losses
pub mod Reads
pub mod Shrinks
pub mod Sweep
use syngit.Common.{
  String, Bool, true, false, not, ◌&&◌, ◌||◌, Option, none, some, List, [], ◌∷◌, ◌++◌, ◌==◌,
  string_eq, if◌then◌else◌, select, any, contains,
}
use syngit.Common.Errors.{Error, Result, ok, err, ◌>>=◌, not_found, already_exists}
use syngit.Api.{
  ObjectMeta, StringMap, get, RemoteSyncer, ClusterWideRemoteSyncer, Syncer, namespaced,
  cluster_wide, syncer_meta, syncer_spec, identity_namespace, RemoteTarget, RemoteTargetSpec,
  RemoteUserBinding, managed_by_label_key, managed_by_label_value, k8s_user_label_key,
  rt_label_key_policy, rt_label_key_branch, rt_label_key_allow_injection,
  rt_label_value_one_or_many_branches, rt_label_value_one_user_one_branch,
  rt_annotation_key_one_or_many_branches, rt_annotation_key_user_specific,
  rt_annotation_value_one_user_one_fork, try_fast_forward_or_hard_reset,
}
use syngit.Managed.{
  Bindings, is_managed, add_remote_target_ref, mutate_or_delete, remove_remote_target_ref_from_rubs,
}
use syngit.Targets.Branches.{branches_from_annotation}

pub record Store : Type 0 where
  pub remote_syncers : List RemoteSyncer
  pub cluster_wide_remote_syncers : List ClusterWideRemoteSyncer
  pub targets : List RemoteTarget
  pub bindings : Bindings

-- The calls of the API server.
pub data Call : Type 0 where
  list_targets : Call
  list_bindings : Call
  list_remote_syncers : Call
  list_cluster_wide_remote_syncers : Call
  create_target : RemoteTarget → Call
  delete_target : RemoteTarget → Call
  remove_refs : RemoteTarget → Call
  get_binding : RemoteUserBinding → Call
  create_binding : RemoteUserBinding → Call
  add_ref : RemoteUserBinding → Call

abbrev pub has_key : RemoteTarget → RemoteTarget → Bool
has_key rt other = other.meta.namespace == rt.meta.namespace && other.meta.name == rt.meta.name

abbrev pub with_targets : Store → List RemoteTarget → Store
with_targets s targets = record s { targets = targets }

abbrev pub with_bindings : Store → Bindings → Store
with_bindings s bindings = record s { bindings = bindings }

-- The managed targets of a policy, in a namespace.
abbrev pub is_policy_target : String → String → RemoteTarget → Bool
is_policy_target policy namespace rt =
    rt.meta.namespace == namespace
    && (get rt.meta.labels managed_by_label_key == managed_by_label_value
        && get rt.meta.labels rt_label_key_policy == policy)

abbrev pub has_upstream : String → String → RemoteTarget → Bool
has_upstream repo branch rt =
    rt.spec.upstream_repository == repo && rt.spec.upstream_branch == branch

-- `filterByUpstream`
unfoldable pub filter_by_upstream : String → String → List RemoteTarget → List RemoteTarget
filter_by_upstream repo branch = select (has_upstream repo branch)

-- `isSameSyncer`
abbrev pub is_same_meta : ObjectMeta → ObjectMeta → Bool
is_same_meta a b = a.namespace == b.namespace && a.name == b.name

abbrev pub is_same_syncer : Syncer → Syncer → Bool
is_same_syncer (namespaced a) (namespaced b) = is_same_meta a.meta b.meta
is_same_syncer (namespaced a) (cluster_wide b) = false
is_same_syncer (cluster_wide a) (namespaced b) = false
is_same_syncer (cluster_wide a) (cluster_wide b) = is_same_meta a.meta b.meta

-- Another syncer, with the annotation.
abbrev pub is_other : Syncer → String → Syncer → Bool
is_other self annotation_key other =
    not (is_same_syncer other self || get (syncer_meta other).annotations annotation_key == "")

-- The loop over the syncers of a namespace.
other_remote_syncers : Syncer → String → List RemoteSyncer → List Syncer
other_remote_syncers self annotation_key [] = []
other_remote_syncers self annotation_key (rs ∷ list) =
    let others = other_remote_syncers self annotation_key list in
    if rs.meta.namespace == identity_namespace self && is_other self annotation_key (namespaced rs)
    then namespaced rs ∷ others
    else others

other_cluster_wide : Syncer → String → List ClusterWideRemoteSyncer → List Syncer
other_cluster_wide self annotation_key [] = []
other_cluster_wide self annotation_key (cwrs ∷ list) =
    let others = other_cluster_wide self annotation_key list in
    if cwrs.spec.identity_store_namespace == identity_namespace self
      && is_other self annotation_key (cluster_wide cwrs)
    then cluster_wide cwrs ∷ others
    else others

-- The other syncers that `getOtherSyncersWith` collects.
unfoldable pub other_syncers : Syncer → String → Store → List Syncer
unfolding other_remote_syncers other_cluster_wide
other_syncers self annotation_key s =
    other_remote_syncers self annotation_key s.remote_syncers
    ++ other_cluster_wide self annotation_key s.cluster_wide_remote_syncers

-- `m[key] = rt`, and `_, exists := m[key]`. The order of the map stands for that of an iteration.
pub put_target : String → RemoteTarget → List (String × RemoteTarget) → List (String × RemoteTarget)
put_target key rt [] = (key, rt) ∷ []
put_target key rt ((k, old) ∷ m) =
    let rest = put_target key rt m in if k == key then (k, rt) ∷ m else (k, old) ∷ rest

pub find_target : String → List (String × RemoteTarget) → Option RemoteTarget
find_target key [] = none
find_target key ((k, rt) ∷ m) = if k == key then some rt else find_target key m

module _ (fault : Call → Store → Option Error) where
  pub attempt {ℓ} : {A : Type ℓ} → Call → Store → Result A → Result A
  attempt call s r = elim (fault call s) [ none ↦ r | some e ↦ err e ]

  pub create : RemoteTarget → Store → Result Store
  unfolding attempt
  create rt s = attempt (create_target rt) s (
      if any (has_key rt) s.targets
      then err already_exists
      else ok (with_targets s (s.targets ++ rt ∷ [])))

  pub delete : RemoteTarget → Store → Result Store
  unfolding attempt
  delete rt s = attempt (delete_target rt) s (
      if any (has_key rt) s.targets
      then ok (with_targets s (select (λ other. not (has_key rt other)) s.targets))
      else err not_found)

  -- `RemoveRemoteTargetRefFromRUBs`
  pub clear : RemoteTarget → Store → Result Store
  unfolding attempt
  clear rt s = attempt (remove_refs rt) s (
      remove_remote_target_ref_from_rubs rt.meta.namespace rt.meta.name s.bindings >>= λ bindings.
      ok (with_bindings s bindings))

  pub or_exists : Store → Result Store → Result Store
  or_exists s (ok s') = ok s'
  or_exists s (err already_exists) = ok s
  or_exists s (err e) = err e

  pub or_not_found : Store → Result Store → Result Store
  or_not_found s (ok s') = ok s'
  or_not_found s (err not_found) = ok s
  or_not_found s (err e) = err e

  -- `getOtherSyncersWith`
  unfoldable pub get_other_syncers_with : Syncer → String → Store → Result (List Syncer)
  unfolding attempt other_syncers
  get_other_syncers_with self annotation_key s =
      attempt list_remote_syncers s
        (attempt list_cluster_wide_remote_syncers s (ok (other_syncers self annotation_key s)))

  pub list_policy_targets : String → String → Store → Result (List RemoteTarget)
  unfolding attempt
  list_policy_targets policy namespace s =
      attempt list_targets s (ok (select (is_policy_target policy namespace) s.targets))
