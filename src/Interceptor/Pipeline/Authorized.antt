-- ===== src/Interceptor/Pipeline/Authorized.antt =====
-- Whose credentials the pipeline pushes with, to where, and for whom.
use mathlib.Core.Path.{subst}
use syngit.Common.{
  String, ◌≡◌, sym, List, [], ◌∷◌, none, some, All, All-left, All-map, inl, inr, arith,
}
use syngit.Common.Errors.{ok, Result-cases}
use syngit.Api.{RemoteTarget, RemoteUserBinding}
use syngit.Refs.{ObjectRef, remote_syncer_refs}
use syngit.Rbac.Laws.{Checked, authorize_cross_namespace_refs-none}
use syngit.Interceptor.Context.{SyncerContext}
use syngit.Interceptor.Target.{GitUserInfo, UserTargets, binding_by_username}
use syngit.Interceptor.Target.Laws.{Entries}
use syngit.Interceptor.Association.{user_info_remote_targets}
use syngit.Interceptor.Target.Credentials.{IsBindingOf, binding_by_username-IsBindingOf}
use syngit.Interceptor.Association.Sound.{IsEntitled, user_info_remote_targets-IsBound}
use syngit.Interceptor.Association.Default.{IsDefault, user_info_remote_targets-IsDefault}
use syngit.Interceptor.Push.{GitPipelineParams}
use syngit.Interceptor.Push.Complete.{user_calls-All}
use syngit.Interceptor.Response.{AdmissionRequest}
use syngit.Interceptor.Pipeline.{World, run_interception_pipeline}
use syngit.Interceptor.Pipeline.Allowed.{nothing, prepared, run_interception_pipeline-IsPushed}

Entries-map :
    (P Q : GitUserInfo → RemoteTarget → Type 0) (m : UserTargets)
    → ((info : GitUserInfo) (rt : RemoteTarget) → P info rt → Q info rt)
    → Entries P m
    → Entries Q m
Entries-map P Q [] f h = tt
Entries-map P Q ((info, rts) ∷ m) f h =
    (All-map (P info) (Q info) rts (f info) h.0, Entries-map P Q m f h.1)

module _ (world : World) (request : AdmissionRequest) (sc : SyncerContext) (manager : String) where
  -- The credentials and the target come from a binding whose subject is the author, or are the
  -- syncer's defaults.
  pub data IsOwn (info : GitUserInfo) (rt : RemoteTarget) : Type 0 where
    bound :
        (rub : RemoteUserBinding)
        → IsBindingOf world.cluster sc request.user_info.username rub
        → IsEntitled world.cluster sc rub info rt
        → IsOwn info rt
    default :
        (host : String)
        → world.cluster.url_host sc.spec.remote_repository ≡ ok host
        → IsDefault world.cluster sc host ((info, rt ∷ []) ∷ [])
        → IsOwn info rt

  associated-IsOwn :
      (host : String) (m : UserTargets)
      → world.cluster.url_host sc.spec.remote_repository ≡ ok host
      → user_info_remote_targets world.cluster request.user_info host sc ≡ ok m
      → Entries IsOwn m
  unfolding user_info_remote_targets
  associated-IsOwn host m parsed h =
      let cluster = world.cluster in
      let username = request.user_info.username in
      elim (Result-cases (binding_by_username cluster sc username host)) [
        | inr (e, failed) ↦ absurd (ground (arith, failed))
        | inl (some rub, found) ↦
            let of_author = binding_by_username-IsBindingOf cluster sc username host rub found in
            Entries-map (IsEntitled cluster sc rub) IsOwn m
              (λ info rt entitled. bound rub of_author entitled)
              (user_info_remote_targets-IsBound cluster sc request.user_info host rub m found
                h).entitled
        | inl (none, found) ↦
            let defaults =
              user_info_remote_targets-IsDefault cluster sc request.user_info host m found h in
            subst (Entries IsOwn) (sym defaults.only) (
              (default host parsed (subst (IsDefault cluster sc host) defaults.only defaults), tt),
              tt,
            )
      ]

  -- The call pushes what `IsOwn` says, for an author who may get every object that the syncer
  -- references, those of the owner's and the manager's namespaces excepted.
  pub record IsPermitted (call : GitPipelineParams) : Type 0 where
    pub own : IsOwn call.git_user_info call.remote_target
    pub refs : List ObjectRef
    pub resolved : remote_syncer_refs sc.spec sc.ref_owner_namespace ≡ ok refs
    pub checked :
        All (Checked world.review request.user_info sc.ref_owner_namespace (manager ∷ [])) refs

  -- Every push is, first, to a target of the syncer's upstream that a binding references, with the
  -- credentials of a RemoteUser that this binding references and whose git server is the target's
  -- host, where the binding was listed in the syncer's namespace of bindings with the author as its
  -- subject; or it is to the syncer's default target, of its upstream, with the credentials of its
  -- default RemoteUser, whose git server is the host of the syncer's repository. And the author may
  -- get every object that the syncer references outside its own namespace and the manager's.
  pub run_interception_pipeline-IsPermitted :
      All IsPermitted (run_interception_pipeline world request sc manager).calls
  run_interception_pipeline-IsPermitted =
      elim (run_interception_pipeline-IsPushed world request sc manager) [
        | nothing empty ↦ subst (All IsPermitted) (sym empty) tt
        | prepared params rest p split ↦
            let calls = (run_interception_pipeline world request sc manager).calls in
            let own =
              user_calls-All params IsOwn params.user_targets
                (associated-IsOwn p.host params.user_targets p.parsed p.associated) in
            All-map (λ call. IsOwn call.git_user_info call.remote_target) IsPermitted calls
              (λ call o. record {
                own = o;
                refs = p.authorized.refs;
                resolved = p.authorized.resolved;
                checked =
                    (authorize_cross_namespace_refs-none world.review request.user_info
                        p.authorized.refs sc.ref_owner_namespace (manager ∷ [])).0
                      p.authorized.none_denied;
              })
              (All-left _ calls rest (subst (All _) split own))
      ]
