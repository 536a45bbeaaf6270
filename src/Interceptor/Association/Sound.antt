-- ===== src/Interceptor/Association/Sound.antt =====
-- What an association of users and targets (internal/interceptor/target.go) guarantees.
use syngit.Common.{
  ◌≤◌, ltb, String, Bool, true, Option, none, some, List, [], ◌∷◌, ◌==◌, string_eq, ◌≡◌, ◌≢◌, ap,
  ◌∙◌, arith, eq_iff, Bool-cases, ◌&&◌, &&-eq-true, All, refl, inl, inr,
}
use syngit.Common.Errors.{
  Result, ok, err, Result-cases, Returns, Returns-bind, Returns-ok, wrong_label_parsing,
}
use syngit.Api.{
  StringMap, LabelSelector, RemoteUser, RemoteTarget, RemoteUserBinding, UserInfo, one_target,
}
use syngit.Interceptor.Context.{SyncerContext}
use syngit.Interceptor.Target.{
  Cluster, GitUserInfo, git_user_info_eq, UserTargets, append_target, total_targets, resolve_refs,
  git_user_info, selector_of, binding_by_username,
}
use syngit.Interceptor.Target.Laws.{Entries, append_target-Entries}
use syngit.Interceptor.Target.Credentials.{
  IsReferenced, resolve_refs-IsReferenced, HasCredentials, git_user_info-HasCredentials,
}
use syngit.Interceptor.Association.{
  has_upstream, passes, associate_users, associate_targets, check_totals, bound_targets,
  user_info_remote_targets,
}

module _ (cluster : Cluster) (sc : SyncerContext) where
  open cluster use {get_remote_user, get_remote_target, url_host, as_selector}

  -- The target is one of the syncer's upstream repository and branch.
  abbrev pub IsOfUpstream : RemoteTarget → Type 0
  IsOfUpstream rt =
      (rt.spec.upstream_repository ≡ sc.spec.remote_repository)
      × (rt.spec.upstream_branch ≡ sc.spec.default_branch)

  -- The target passes the selector, if there is one.
  abbrev pub Selects : Option LabelSelector → RemoteTarget → Type 0
  Selects none rt = Unit
  Selects (some selector) rt =
      (matches : StringMap → Bool) × (as_selector selector ≡ ok matches)
      × (matches rt.meta.labels ≡ true)

  -- The binding references the user, whose credentials these are, and whose git server hosts the
  -- target's repository.
  pub record Hosts (rub : RemoteUserBinding) (info : GitUserInfo) (rt : RemoteTarget) : Type 0 where
    pub ru : RemoteUser
    pub referenced : IsReferenced get_remote_user rub.meta.namespace rub.spec.remote_user_refs ru
    pub credentials : HasCredentials cluster ru info
    pub host : url_host rt.spec.target_repository ≡ ok ru.spec.git_base_domain_fqdn

  -- The target is referenced by the binding, is one of the syncer's upstream, passes the selector, and
  -- is pushed to with credentials of its own host.
  pub record IsEntitled (rub : RemoteUserBinding) (info : GitUserInfo) (rt : RemoteTarget)
      : Type 0 where
    pub referenced :
        IsReferenced get_remote_target rub.meta.namespace rub.spec.remote_target_refs rt
    pub upstream : IsOfUpstream rt
    pub selected : Selects sc.spec.remote_target_selector rt
    pub hosts : Hosts rub info rt

  pub has_upstream-IsOfUpstream : (rt : RemoteTarget) → has_upstream sc rt ≡ true → IsOfUpstream rt
  has_upstream-IsOfUpstream rt h =
      let (repository, branch) = &&-eq-true _ _ h in
      (
        (string_eq.beq_iff rt.spec.upstream_repository sc.spec.remote_repository).0 repository,
        (string_eq.beq_iff rt.spec.upstream_branch sc.spec.default_branch).0 branch,
      )

  -- Whoever passes what the selector has become is selected.
  abbrev Picks : Option LabelSelector → Option (StringMap → Bool) → Type 0
  Picks selector chosen = (rt : RemoteTarget) → passes chosen rt ≡ true → Selects selector rt

  parsed-Picks :
      (selector : LabelSelector) (parsed : Result (StringMap → Bool))
      → as_selector selector ≡ parsed
      → Returns
          (Picks (some selector))
          (elim parsed [ ok matches ↦ ok (some matches) | err e ↦ err wrong_label_parsing ])
  parsed-Picks selector (ok matches) e = λ rt h. (matches, e, h)
  parsed-Picks selector (err x) e = tt

  selector_of-Picks :
      (selector : Option LabelSelector) → Returns (Picks selector) (selector_of cluster selector)
  unfolding selector_of
  selector_of-Picks none = λ rt h. tt
  selector_of-Picks (some selector) = parsed-Picks selector (as_selector selector) refl

  module _ (selector : Option (StringMap → Bool))
      (picks : Picks sc.spec.remote_target_selector selector) (rub : RemoteUserBinding) where
    abbrev AllEntitled : UserTargets → Type 0
    AllEntitled = Entries (IsEntitled rub)

    abbrev AreUsers : List RemoteUser → Type 0
    AreUsers = All (IsReferenced get_remote_user rub.meta.namespace rub.spec.remote_user_refs)

    abbrev AreTargets : List RemoteTarget → Type 0
    AreTargets = All (IsReferenced get_remote_target rub.meta.namespace rub.spec.remote_target_refs)

    associate_users-Entries :
        (host : String) (rt : RemoteTarget) (rus : List RemoteUser) (m : UserTargets)
        → IsReferenced get_remote_target rub.meta.namespace rub.spec.remote_target_refs rt
        → IsOfUpstream rt
        → Selects sc.spec.remote_target_selector rt
        → url_host rt.spec.target_repository ≡ ok host
        → AreUsers rus
        → AllEntitled m
        → Returns AllEntitled (associate_users cluster host rt rus m)
    unfolding associate_users
    associate_users-Entries host rt [] m target up sel at users h = h
    associate_users-Entries host rt (ru ∷ rus) m target up sel at (user, users) h =
        elim (Bool-cases (host == ru.spec.git_base_domain_fqdn)) [
          | inl same ↦
              rw (same, associate_users)
                (Returns-bind AllEntitled (git_user_info cluster ru)
                  (λ info. associate_users cluster host rt rus (append_target info rt m))
                  (λ info found.
                    associate_users-Entries host rt rus (append_target info rt m) target up sel at
                      users
                      (append_target-Entries (IsEntitled rub) info rt m
                        (record {
                          referenced = target;
                          upstream = up;
                          selected = sel;
                          hosts = record {
                            ru = ru;
                            referenced = user;
                            credentials =
                                Returns-ok _ (git_user_info cluster ru)
                                  (git_user_info-HasCredentials cluster ru) found;
                            host = at ∙ ap ok ((eq_iff host ru.spec.git_base_domain_fqdn).0 same);
                          };
                        })
                        h)))
          | inr other ↦
              rw (other, associate_users)
                (associate_users-Entries host rt rus m target up sel at users h)
        ]

    associate_targets-Entries :
        (rus : List RemoteUser) (rts : List RemoteTarget) (m : UserTargets)
        → AreUsers rus
        → AreTargets rts
        → AllEntitled m
        → Returns AllEntitled (associate_targets cluster sc selector rus rts m)
    unfolding associate_targets
    associate_targets-Entries rus [] m users targets h = h
    associate_targets-Entries rus (rt ∷ rts) m users (target, targets) h =
        elim (Bool-cases (passes selector rt)) [
          | inr out ↦
              rw (out, associate_targets) (associate_targets-Entries rus rts m users targets h)
          | inl sel ↦ elim (Result-cases (url_host rt.spec.target_repository)) [
            | inr (e, failed) ↦ rw (sel, associate_targets, failed) tt
            | inl (host, at) ↦ elim (Bool-cases (has_upstream sc rt)) [
              | inr away ↦
                  rw (sel, associate_targets, at, away)
                    (associate_targets-Entries rus rts m users targets h)
              | inl up ↦
                  rw (sel, associate_targets, at, up)
                    (Returns-bind AllEntitled (associate_users cluster host rt rus m)
                      (λ m'. associate_targets cluster sc selector rus rts m')
                      (λ m' done. associate_targets-Entries rus rts m' users targets (
                        Returns-ok AllEntitled (associate_users cluster host rt rus m)
                          (associate_users-Entries host rt rus m target
                            (has_upstream-IsOfUpstream rt up) (picks rt sel) at users h)
                          done)))
            ]
          ]
        ]

  -- What a binding's association returns: some entitled targets, and one only under `OneTarget`.
  pub record IsBound (rub : RemoteUserBinding) (m : UserTargets) : Type 0 where
    pub entitled : Entries (IsEntitled rub) m
    pub non_empty : m ≢ []
    pub single : sc.spec.target_strategy ≡ one_target → total_targets m ≤ 1

  check_totals-IsBound :
      (rub : RemoteUserBinding) (m : UserTargets)
      → Entries (IsEntitled rub) m
      → Returns (IsBound rub) (check_totals sc m)
  unfolding check_totals
  check_totals-IsBound rub [] h = ground arith
  check_totals-IsBound rub (entry ∷ m) h =
      elim (Bool-cases
        (sc.spec.target_strategy == one_target && ltb 1 (total_targets (entry ∷ m)))) [
          | inl many ↦ rw many tt
          | inr few ↦ rw few (record {
            entitled = h;
            non_empty = λ e. cc;
            single = λ one.
                let one' = (string_eq.beq_iff sc.spec.target_strategy one_target).1 one in
                ground (arith, one', few);
          })
        ]

  bound_targets-IsBound :
      (rub : RemoteUserBinding) → Returns (IsBound rub) (bound_targets cluster sc rub)
  unfolding bound_targets
  bound_targets-IsBound rub =
      let namespace = rub.meta.namespace in
      let targets =
        resolve_refs get_remote_target namespace "remoteTargetRefs" 0 rub.spec.remote_target_refs in
      let users =
        resolve_refs get_remote_user namespace "remoteUserRefs" 0 rub.spec.remote_user_refs in
      Returns-bind (IsBound rub) (selector_of cluster sc.spec.remote_target_selector) _
        λ selector chosen. Returns-bind (IsBound rub) targets _ λ rts read_targets.
          Returns-bind (IsBound rub) users _ λ rus read_users.
            Returns-bind (IsBound rub) (associate_targets cluster sc selector rus rts []) _
              λ m found. check_totals-IsBound rub m (
                Returns-ok (Entries (IsEntitled rub)) _
                  (associate_targets-Entries selector
                    (Returns-ok (Picks sc.spec.remote_target_selector) _
                      (selector_of-Picks sc.spec.remote_target_selector) chosen)
                    rub rus rts []
                    (Returns-ok _ users
                      (resolve_refs-IsReferenced get_remote_user namespace "remoteUserRefs" 0
                        rub.spec.remote_user_refs)
                      read_users)
                    (Returns-ok _ targets
                      (resolve_refs-IsReferenced get_remote_target namespace "remoteTargetRefs" 0
                        rub.spec.remote_target_refs)
                      read_targets)
                    tt)
                  found)

  -- Where the user has a binding, each target that is returned is referenced by the binding, is one
  -- of the syncer's upstream repository and branch, passes the syncer's selector, and comes with
  -- the name and the password of the Secret of a RemoteUser that the binding references and whose
  -- git server is the host of the target; there is at least one, and at most one under OneTarget.
  pub user_info_remote_targets-IsBound :
      (user : UserInfo) (host : String) (rub : RemoteUserBinding) (m : UserTargets)
      → binding_by_username cluster sc user.username host ≡ ok (some rub)
      → user_info_remote_targets cluster user host sc ≡ ok m
      → IsBound rub m
  unfolding user_info_remote_targets
  user_info_remote_targets-IsBound user host rub m found e =
      Returns-ok (IsBound rub) (bound_targets cluster sc rub) (bound_targets-IsBound rub)
        (rw found at e)
