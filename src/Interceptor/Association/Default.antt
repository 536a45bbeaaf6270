-- ===== src/Interceptor/Association/Default.antt =====
-- What an association without a binding guarantees (internal/interceptor/target.go).
use syngit.Common.{
  String, Option, none, some, [], ◌∷◌, ◌==◌, string_eq, if◌then◌else◌, ◌≡◌, ap, ◌∙◌, arith,
  Bool-cases, Option-cases, refl, sym, inl, inr,
}
use syngit.Common.Errors.{
  Error, Result, ok, err, ◌>>=◌, Returns, Returns-bind, Returns-ok, child, remote_target_not_found,
  remote_user_not_found, wrong_remote_syncer_config, wrong_remote_target_config,
}
use syngit.Api.{
  NamespacedName, ObjectReference, RemoteUser, RemoteTarget, UserInfo, use_default_user,
}
use syngit.Refs.{resolve_namespace}
use syngit.Interceptor.Context.{SyncerContext, context_string}
use syngit.Interceptor.Target.{
  Cluster, GitUserInfo, git_user_info_eq, UserTargets, append_target, git_user_info,
  binding_by_username,
}
use syngit.Interceptor.Target.Laws.{append_target_empty}
use syngit.Refs.Named.{key_of, resolve_namespace_lem}
use syngit.Interceptor.Target.Credentials.{HasCredentials, git_user_info-HasCredentials}
use syngit.Interceptor.Association.{
  has_upstream, default_targets, user_info_remote_targets, default_target, default_user, named_ref,
  or_error,
}
use syngit.Interceptor.Association.Sound.{IsOfUpstream, has_upstream-IsOfUpstream}

named_ref-some :
    (o : Option ObjectReference) {ref : ObjectReference} → named_ref o ≡ some ref → o ≡ some ref
named_ref-some none h = absurd cc
named_ref-some (some r) h = elim (Bool-cases (r.name == "")) [
  | inl unnamed ↦ absurd (ground (arith, h, unnamed))
  | inr named ↦ ground (arith, h, named)
]

or_error-ok {ℓ} : {A : Type ℓ} (r : Result A) (e : Error) {a : A} → or_error r e ≡ ok a → r ≡ ok a
unfolding or_error
or_error-ok (ok a) e h = h
or_error-ok (err _) e h = absurd cc

module _ (cluster : Cluster) (sc : SyncerContext) where
  open cluster use {get_remote_user, get_remote_target}

  -- The fallback: the default target of the syncer, which is of its upstream, alone, with the
  -- credentials of its default user, where the syncer allows it and the user belongs to the git server
  -- of the host.
  pub record IsDefault (host : String) (m : UserTargets) : Type 0 where
    pub mode : sc.spec.default_unauthorized_user_mode ≡ use_default_user
    pub user_ref : ObjectReference
    pub user_set : sc.spec.default_remote_user_ref ≡ some user_ref
    pub ru : RemoteUser
    pub user :
        get_remote_user (key_of sc.ref_owner_namespace user_ref.namespace user_ref.name) ≡ ok ru
    pub server : ru.spec.git_base_domain_fqdn ≡ host
    pub info : GitUserInfo
    pub credentials : HasCredentials cluster ru info
    pub target_ref : ObjectReference
    pub target_set : sc.spec.default_remote_target_ref ≡ some target_ref
    pub rt : RemoteTarget
    pub target :
        get_remote_target (key_of sc.ref_owner_namespace target_ref.namespace target_ref.name)
        ≡ ok rt
    pub upstream : IsOfUpstream cluster sc rt
    pub only : m ≡ (info, rt ∷ []) ∷ []

  -- The object that a default reference names.
  read_default {ℓ} :
      {T : Type ℓ} (get : NamespacedName → Result T) (ref : ObjectReference) (namespace : String)
      (field : String) (e : Error) {object : T}
      → resolve_namespace ref.namespace sc.ref_owner_namespace (child "spec" ∷ child field ∷ [])
        ≡ ok namespace
      → or_error (get (record { namespace = namespace; name = ref.name })) e ≡ ok object
      → get (key_of sc.ref_owner_namespace ref.namespace ref.name) ≡ ok object
  read_default get ref namespace field e resolved read =
      let path = child "spec" ∷ child field ∷ [] in
      let at =
        Returns-ok _ (resolve_namespace ref.namespace sc.ref_owner_namespace path)
          (resolve_namespace_lem ref.namespace sc.ref_owner_namespace path) resolved in
      ap (λ ns. get (record { namespace = ns; name = ref.name })) (sym at)
      ∙ or_error-ok (get (record { namespace = namespace; name = ref.name })) e read

  default_target-IsDefault :
      (host : String) (user_ref : ObjectReference) (ru : RemoteUser) (info : GitUserInfo)
      (ref : Option ObjectReference)
      → sc.spec.default_unauthorized_user_mode ≡ use_default_user
      → sc.spec.default_remote_user_ref ≡ some user_ref
      → get_remote_user (key_of sc.ref_owner_namespace user_ref.namespace user_ref.name) ≡ ok ru
      → ru.spec.git_base_domain_fqdn ≡ host
      → HasCredentials cluster ru info
      → named_ref sc.spec.default_remote_target_ref ≡ ref
      → Returns (IsDefault host) (default_target cluster sc info ref)
  unfolding default_target
  default_target-IsDefault host user_ref ru info none mode set user server credentials target = tt
  default_target-IsDefault host user_ref ru info (some ref) mode set user server credentials
        target =
      Returns-bind (IsDefault host)
        (resolve_namespace ref.namespace sc.ref_owner_namespace
          (child "spec" ∷ child "defaultRemoteTargetRef" ∷ []))
        _
        λ namespace resolved.
          Returns-bind (IsDefault host)
            (or_error (get_remote_target (record { namespace = namespace; name = ref.name }))
              (remote_target_not_found ref.name))
            (λ rt.
              if has_upstream sc rt
              then ok (append_target info rt [])
              else err wrong_remote_syncer_config)
            λ rt read. elim (Bool-cases (has_upstream sc rt)) [
              | inl up ↦ rw up (record {
                mode = mode;
                user_ref = user_ref;
                user_set = set;
                ru = ru;
                user = user;
                server = server;
                info = info;
                credentials = credentials;
                target_ref = ref;
                target_set = named_ref-some sc.spec.default_remote_target_ref target;
                rt = rt;
                target =
                    read_default get_remote_target ref namespace "defaultRemoteTargetRef"
                      (remote_target_not_found ref.name) resolved read;
                upstream = has_upstream-IsOfUpstream cluster sc rt up;
                only = append_target_empty info rt;
              })
              | inr away ↦ rw away tt
            ]

  default_user-IsDefault :
      (host : String) (ref : ObjectReference)
      → sc.spec.default_unauthorized_user_mode ≡ use_default_user
      → sc.spec.default_remote_user_ref ≡ some ref
      → Returns (IsDefault host) (default_user cluster sc host ref)
  unfolding default_user
  default_user-IsDefault host ref mode set =
      let missing = remote_user_not_found "the default RemoteUser is not found" in
      Returns-bind (IsDefault host)
        (resolve_namespace ref.namespace sc.ref_owner_namespace
          (child "spec" ∷ child "defaultRemoteUserRef" ∷ []))
        _
        λ namespace resolved.
          Returns-bind (IsDefault host)
            (or_error (get_remote_user (record { namespace = namespace; name = ref.name })) missing)
            (λ ru.
              if ru.spec.git_base_domain_fqdn == host
              then (git_user_info cluster ru >>= λ info.
                  default_target cluster sc info (named_ref sc.spec.default_remote_target_ref))
              else err (wrong_remote_target_config (context_string sc)))
            λ ru read. elim (Bool-cases (ru.spec.git_base_domain_fqdn == host)) [
              | inl server ↦ rw server (
                  Returns-bind (IsDefault host) (git_user_info cluster ru) _ λ info found.
                    default_target-IsDefault host ref ru info
                      (named_ref sc.spec.default_remote_target_ref) mode set
                      (read_default get_remote_user ref namespace "defaultRemoteUserRef" missing
                        resolved read)
                      ((string_eq.beq_iff ru.spec.git_base_domain_fqdn host).0 server)
                      (Returns-ok _ (git_user_info cluster ru)
                        (git_user_info-HasCredentials cluster ru) found)
                      refl)
              | inr away ↦ rw away tt
            ]

  default_targets-IsDefault :
      (user : UserInfo) (host : String)
      → Returns (IsDefault host) (default_targets cluster user sc host)
  unfolding default_targets
  default_targets-IsDefault user host =
      elim (Bool-cases (sc.spec.default_unauthorized_user_mode == use_default_user)) [
        | inr blocked ↦ rw blocked tt
        | inl mode ↦ elim (Option-cases (named_ref sc.spec.default_remote_user_ref)) [
          | inl unset ↦ rw (mode, unset) tt
          | inr (ref, set) ↦
              rw (mode, set)
                (default_user-IsDefault host ref
                  ((string_eq.beq_iff sc.spec.default_unauthorized_user_mode use_default_user).0
                    mode)
                  (named_ref-some sc.spec.default_remote_user_ref set))
        ]
      ]

  -- Without a binding the association returns nothing but the target that the syncer's default
  -- reference names, which is one of its upstream, with the name and the password of the Secret of
  -- the RemoteUser that its default reference names and whose git server is the given host; and
  -- only in the mode UseDefaultUser.
  pub user_info_remote_targets-IsDefault :
      (user : UserInfo) (host : String) (m : UserTargets)
      → binding_by_username cluster sc user.username host ≡ ok none
      → user_info_remote_targets cluster user host sc ≡ ok m
      → IsDefault host m
  unfolding user_info_remote_targets
  user_info_remote_targets-IsDefault user host m found e =
      Returns-ok (IsDefault host) (default_targets cluster user sc host)
        (default_targets-IsDefault user host) (rw found at e)
