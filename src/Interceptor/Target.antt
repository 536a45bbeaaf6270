-- ===== src/Interceptor/Target.antt =====
-- internal/interceptor/target.go and k8s_references.go: whose credentials push to which targets.
pub mod Laws
pub mod Credentials
use Prim.Native.String.{◌++◌ as str_append}
use syngit.Common.{
  ℕ, zero, suc, ◌+◌, ltb, nat_beq, String, Bool, true, false, not, ◌&&◌, ◌||◌, Option, none, some,
  List, [], ◌∷◌, ◌++◌, ◌==◌, string_eq, Eq, if◌then◌else◌, ◌≡◌, ◌↔◌, arith, eq_iff, length,
}
use syngit.Common.Errors.{
  Error, Result, ok, err, ◌>>=◌, FieldPath, child, index, not_found, credentials_not_found,
  remote_user_not_found, too_much_remote_user, too_much_remote_user_binding, too_much_remote_target,
  remote_target_not_found, remote_user_binding_not_found, wrong_label_parsing,
  wrong_remote_target_config, wrong_remote_syncer_config,
}
use syngit.Api.{
  NamespacedName, ObjectReference, StringMap, LabelSelector, RemoteUser, RemoteTarget,
  RemoteUserBinding, UserInfo, one_target, use_default_user,
}
use syngit.Refs.{resolve_namespace}
use syngit.Interceptor.Context.{SyncerContext, context_string}

-- The keys of a basic-auth secret that are read.
pub record Secret : Type 0 where
  pub username : String
  pub password : String

-- The reads of the Kubernetes client, and the parsers of the libraries: any functions.
pub record Cluster : Type 0 where
  pub get_remote_user : NamespacedName → Result RemoteUser
  pub get_remote_target : NamespacedName → Result RemoteTarget
  pub get_remote_user_binding : NamespacedName → Result RemoteUserBinding
  pub get_secret : NamespacedName → Result Secret
  -- The bindings of a namespace whose labels pass the selector.
  pub list_remote_user_bindings :
      String → Option (StringMap → Bool) → Result (List RemoteUserBinding)
  -- `LabelSelectorAsSelector`, and `Matches` of what it returns.
  pub as_selector : LabelSelector → Result (StringMap → Bool)
  -- The host of a parsed URL.
  pub url_host : String → Result String

pub record GitUserInfo : Type 0 where
  pub user : String
  pub email : String
  pub token : String

abbrev same_info : GitUserInfo → GitUserInfo → Bool
same_info a b = a.user == b.user && (a.email == b.email && a.token == b.token)

pub same_info_iff : (a b : GitUserInfo) → (same_info a b ≡ true) ↔ (a ≡ b)
same_info_iff a b =
    ground (arith, eq_iff a.user b.user, eq_iff a.email b.email, eq_iff a.token b.token)

instance abbrev pub git_user_info_eq : Eq GitUserInfo
git_user_info_eq = record { beq = same_info; beq_iff = same_info_iff }

-- The targets of each user; a Go map, whose order plays no part.
abbrev pub UserTargets : Type 0
UserTargets = List (GitUserInfo × List RemoteTarget)

-- `m[key] = append(m[key], target)`
unfoldable pub append_target : GitUserInfo → RemoteTarget → UserTargets → UserTargets
append_target key rt [] = (key, rt ∷ []) ∷ []
append_target key rt ((k, rts) ∷ m) =
    if k == key then (k, rts ++ rt ∷ []) ∷ m else (k, rts) ∷ append_target key rt m

abbrev pub total_targets : UserTargets → ℕ
total_targets [] = 0
total_targets ((k, rts) ∷ m) = length rts + total_targets m

abbrev is_not_found : Error → Bool
is_not_found not_found = true
is_not_found _ = false

abbrev spec_index : String → ℕ → FieldPath
spec_index field i = child "spec" ∷ child field ∷ index i ∷ []

-- A dangling reference contributes nothing; any other failure ends the loop.
keep_found {ℓ} : {T : Type ℓ} → Result T → Result (List T) → Result (List T)
keep_found (ok object) rest = rest >>= λ objects. ok (object ∷ objects)
keep_found (err e) rest = if is_not_found e then rest else err e

unfoldable pub resolve_refs {ℓ} :
    {T : Type ℓ}
    → (NamespacedName → Result T)
    → String
    → String
    → ℕ
    → List ObjectReference
    → Result (List T)
unfolding keep_found
resolve_refs get owner field i [] = ok []
resolve_refs get owner field i (ref ∷ refs) =
    let rest = resolve_refs get owner field (suc i) refs in
    if ref.name == ""
    then rest
    else resolve_namespace ref.namespace owner (spec_index field i) >>= λ namespace.
        keep_found (get (record { namespace = namespace; name = ref.name })) rest

module _ (cluster : Cluster) where
  open cluster use {
    get_remote_user, get_remote_target, get_remote_user_binding, get_secret,
    list_remote_user_bindings, as_selector, url_host,
  }

  read_secret : RemoteUser → String → Result Secret → Result GitUserInfo
  read_secret ru name (err e) =
      if is_not_found e
      then err (
          credentials_not_found (str_append "secret not found for remote user: " ru.meta.name) name)
      else err (credentials_not_found "connection error" name)
  read_secret ru name (ok secret) =
      if secret.password == ""
      then err (credentials_not_found "token not found" name)
      else ok (record { user = secret.username; email = ru.spec.email; token = secret.password })

  -- `GetGitUserInfoByRemoteUser`
  unfoldable pub git_user_info : RemoteUser → Result GitUserInfo
  unfolding read_secret
  git_user_info ru =
      resolve_namespace ru.spec.secret_ref.namespace ru.meta.namespace
        (child "spec" ∷ child "secretRef" ∷ [])
      >>= λ namespace.
          read_secret ru ru.spec.secret_ref.name
            (get_secret (record { namespace = namespace; name = ru.spec.secret_ref.name }))

  -- The loop of `GetGitUserInfoByRemoteUserBinding`: the last credentials for the host, and how many.
  binding_users :
      String
      → String
      → ℕ
      → List ObjectReference
      → Option GitUserInfo
      → ℕ
      → Result (Option GitUserInfo × ℕ)
  binding_users owner fqdn i [] info n = ok (info, n)
  binding_users owner fqdn i (ref ∷ refs) info n =
      resolve_namespace ref.namespace owner (spec_index "remoteUserRefs" i) >>= λ namespace.
      elim (get_remote_user (record { namespace = namespace; name = ref.name })) [
        | err e ↦ binding_users owner fqdn (suc i) refs info n
        | ok ru ↦ elim (ru.spec.git_base_domain_fqdn == fqdn) [
          | true ↦ git_user_info ru >>= λ found.
              binding_users owner fqdn (suc i) refs (some found) (n + 1)
          | false ↦ binding_users owner fqdn (suc i) refs info n
        ]
      ]

  one_user : String → Option GitUserInfo × ℕ → Result (Option GitUserInfo)
  one_user fqdn (info, n) =
      if nat_beq n 0
      then err (remote_user_not_found fqdn)
      else if ltb 1 n
      then err (too_much_remote_user n)
      else ok info

  -- `GetGitUserInfoByRemoteUserBinding`
  unfoldable pub git_user_info_by_binding : RemoteUserBinding → String → Result (Option GitUserInfo)
  unfolding binding_users one_user git_user_info
  git_user_info_by_binding rub fqdn =
      binding_users rub.meta.namespace fqdn 0 rub.spec.remote_user_refs none 0 >>= one_user fqdn

  -- The loop of `GetRemoteUserBindingByUsername`: the last binding of the user, and how many.
  user_bindings :
      String
      → String
      → List RemoteUserBinding
      → Option RemoteUserBinding
      → ℕ
      → Result (Option RemoteUserBinding × ℕ)
  user_bindings username fqdn [] rub n = ok (rub, n)
  user_bindings username fqdn (item ∷ items) rub n = elim (item.spec.subject.name == username) [
    | true ↦ git_user_info_by_binding item fqdn >>= λ _.
        user_bindings username fqdn items (some item) (n + 1)
    | false ↦ user_bindings username fqdn items rub n
  ]

  fresh_binding : Option RemoteUserBinding → Result (Option RemoteUserBinding)
  fresh_binding none = ok none
  fresh_binding (some rub) =
      get_remote_user_binding (record { namespace = rub.meta.namespace; name = rub.meta.name })
      >>= λ fresh. ok (some fresh)

  one_binding : Option RemoteUserBinding × ℕ → Result (Option RemoteUserBinding)
  one_binding (rub, n) =
      if ltb 1 n
      then err (too_much_remote_user_binding n)
      else if nat_beq n 0
      then ok none
      else fresh_binding rub

  unfoldable pub selector_of : Option LabelSelector → Result (Option (StringMap → Bool))
  selector_of none = ok none
  selector_of (some selector) = elim (as_selector selector) [
    | ok matches ↦ ok (some matches)
    | err e ↦ err wrong_label_parsing
  ]

  -- `GetRemoteUserBindingByUsername`
  unfoldable pub binding_by_username :
      SyncerContext → String → String → Result (Option RemoteUserBinding)
  unfolding selector_of user_bindings one_binding fresh_binding git_user_info_by_binding
  binding_by_username sc username fqdn =
      selector_of sc.spec.remote_user_binding_selector >>= λ selector.
      list_remote_user_bindings sc.rub_namespace selector >>= λ items.
      user_bindings username fqdn items none 0 >>= one_binding
