-- ===== src/Interceptor/Association.antt =====
-- `GetUserInfoRemoteTargetsAssociation` (internal/interceptor/target.go).
pub mod Sound
pub mod Default
use syngit.Common.{
  ℕ, ltb, String, Bool, true, false, not, ◌&&◌, ◌||◌, Option, none, some, List, [], ◌∷◌, ◌==◌,
  string_eq, if◌then◌else◌,
}
use syngit.Common.Errors.{
  Error, Result, ok, err, ◌>>=◌, child, too_much_remote_target, remote_target_not_found,
  remote_user_not_found, remote_user_binding_not_found, wrong_remote_target_config,
  wrong_remote_syncer_config,
}
use syngit.Api.{
  NamespacedName, ObjectReference, StringMap, RemoteUser, RemoteTarget, RemoteUserBinding, UserInfo,
  one_target, use_default_user,
}
use syngit.Refs.{resolve_namespace}
use syngit.Interceptor.Context.{SyncerContext, context_string}
use syngit.Interceptor.Target.{
  Cluster, GitUserInfo, UserTargets, append_target, total_targets, resolve_refs, git_user_info,
  selector_of, binding_by_username,
}

-- A target of the syncer's upstream.
abbrev pub has_upstream : SyncerContext → RemoteTarget → Bool
has_upstream sc rt =
    rt.spec.upstream_repository == sc.spec.remote_repository
    && rt.spec.upstream_branch == sc.spec.default_branch

abbrev pub passes : Option (StringMap → Bool) → RemoteTarget → Bool
passes none rt = true
passes (some matches) rt = matches rt.meta.labels

non_empty : UserTargets → Result UserTargets
non_empty [] = err (remote_target_not_found "no matching remote target found")
non_empty (entry ∷ m) = ok (entry ∷ m)

check_totals : SyncerContext → UserTargets → Result UserTargets
unfolding non_empty
check_totals sc m =
    if sc.spec.target_strategy == one_target && ltb 1 (total_targets m)
    then err (too_much_remote_target (total_targets m))
    else non_empty m

-- A reference that is set and named.
abbrev named_ref : Option ObjectReference → Option ObjectReference
named_ref none = none
named_ref (some ref) = if ref.name == "" then none else some ref

or_error {ℓ} : {A : Type ℓ} → Result A → Error → Result A
or_error (ok a) e = ok a
or_error (err _) e = err e

module _ (cluster : Cluster) where
  open cluster use {get_remote_user, get_remote_target, url_host}

  -- The users whose git server hosts the target.
  associate_users : String → RemoteTarget → List RemoteUser → UserTargets → Result UserTargets
  associate_users host rt [] m = ok m
  associate_users host rt (ru ∷ rus) m = elim (host == ru.spec.git_base_domain_fqdn) [
    | true ↦
        git_user_info cluster ru >>= λ info. associate_users host rt rus (append_target info rt m)
    | false ↦ associate_users host rt rus m
  ]

  associate_targets :
      SyncerContext
      → Option (StringMap → Bool)
      → List RemoteUser
      → List RemoteTarget
      → UserTargets
      → Result UserTargets
  associate_targets sc selector rus [] m = ok m
  associate_targets sc selector rus (rt ∷ rts) m = elim (passes selector rt) [
    | false ↦ associate_targets sc selector rus rts m
    | true ↦ url_host rt.spec.target_repository >>= λ host. elim (has_upstream sc rt) [
      | true ↦ associate_users host rt rus m >>= λ m'. associate_targets sc selector rus rts m'
      | false ↦ associate_targets sc selector rus rts m
    ]
  ]

  bound_targets : SyncerContext → RemoteUserBinding → Result UserTargets
  unfolding associate_targets associate_users check_totals
  bound_targets sc rub = selector_of cluster sc.spec.remote_target_selector >>= λ selector.
      resolve_refs get_remote_target rub.meta.namespace "remoteTargetRefs" 0
        rub.spec.remote_target_refs
      >>= λ rts.
          resolve_refs get_remote_user rub.meta.namespace "remoteUserRefs" 0
            rub.spec.remote_user_refs
          >>= λ rus. associate_targets sc selector rus rts [] >>= check_totals sc

  default_target : SyncerContext → GitUserInfo → Option ObjectReference → Result UserTargets
  unfolding or_error
  default_target sc info none = err (remote_target_not_found "no default remote target is set")
  default_target sc info (some ref) =
      resolve_namespace ref.namespace sc.ref_owner_namespace
        (child "spec" ∷ child "defaultRemoteTargetRef" ∷ [])
      >>= λ namespace.
          or_error (get_remote_target (record { namespace = namespace; name = ref.name }))
            (remote_target_not_found ref.name)
          >>= λ rt.
              if has_upstream sc rt
              then ok (append_target info rt [])
              else err wrong_remote_syncer_config

  default_user : SyncerContext → String → ObjectReference → Result UserTargets
  unfolding or_error default_target
  default_user sc host ref =
      resolve_namespace ref.namespace sc.ref_owner_namespace
        (child "spec" ∷ child "defaultRemoteUserRef" ∷ [])
      >>= λ namespace.
          or_error (get_remote_user (record { namespace = namespace; name = ref.name }))
            (remote_user_not_found "the default RemoteUser is not found")
          >>= λ ru.
              if ru.spec.git_base_domain_fqdn == host
              then (git_user_info cluster ru >>= λ info.
                  default_target sc info (named_ref sc.spec.default_remote_target_ref))
              else err (wrong_remote_target_config (context_string sc))

  default_targets : UserInfo → SyncerContext → String → Result UserTargets
  unfolding default_user
  default_targets user sc host =
      if sc.spec.default_unauthorized_user_mode == use_default_user
      then elim (named_ref sc.spec.default_remote_user_ref) [
        | none ↦ err (remote_user_binding_not_found user.username)
        | some ref ↦ default_user sc host ref
      ]
      else err (remote_user_binding_not_found user.username)

  targets_of : UserInfo → SyncerContext → String → Option RemoteUserBinding → Result UserTargets
  unfolding bound_targets default_targets
  targets_of user sc host (some rub) = bound_targets sc rub
  targets_of user sc host none = default_targets user sc host

  -- `host` is that of the syncer's repository.
  unfoldable pub user_info_remote_targets : UserInfo → String → SyncerContext → Result UserTargets
  unfolding targets_of
  user_info_remote_targets user host sc =
      binding_by_username cluster sc user.username host >>= targets_of user sc host
