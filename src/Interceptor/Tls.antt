-- ===== src/Interceptor/Tls.antt =====
-- pkg/interceptor/tls.go: the certificate authorities that a push trusts.
use Prim.Native.Char.{code}
use Prim.Native.String.{◌++◌ as str_append}
use syngit.Common.{
  nat_beq, String, Bool, true, false, Option, none, some, [], ◌∷◌, ◌==◌, string_eq, if◌then◌else◌,
  ◌≡◌, refl, inl, inr, Bool-cases,
}
use syngit.Common.Errors.{
  Error, Result, ok, err, ◌>>=◌, child, ca_secret_wrong_type, Returns, Returns-bind, Returns-if,
  Returns-ok,
}
use syngit.Api.{NamespacedName}
use syngit.Refs.{resolve_namespace}
use syngit.Interceptor.Context.{SyncerContext}

-- The type of a Secret, and its key `tls.crt`; `none` is the nil slice.
pub record TlsSecret : Type 0 where
  pub type : String
  pub certificate : Option String

-- `strings.Split(host, ":")[0]`
unfoldable pub host_name : String → String
host_name String.[] = ""
host_name (String.◌∷◌ c host) =
    let rest = host_name host in if nat_beq (code c) b':' then "" else String.◌∷◌ c rest

tls_certificate : TlsSecret → Result (Option String)
tls_certificate secret =
    if secret.type == "kubernetes.io/tls" then ok secret.certificate else err ca_secret_wrong_type

-- `errors.Is(err, ErrCaSecretWrongType)`
abbrev is_wrong_type : Error → Bool
is_wrong_type ca_secret_wrong_type = true
is_wrong_type _ = false

-- What the caller keeps of the global bundle: any failure but the wrong type is as if there were none.
global_or_none : Result (Option String) → Result (Option String)
global_or_none (ok bundle) = ok bundle
global_or_none (err e) = if is_wrong_type e then err e else ok none

first_of : Option String → Option String → Option String
first_of (some a) b = some a
first_of none b = b

-- `get_secret` reads a Secret of the cluster; `manager` is the value of MANAGER_NAMESPACE.
module _ (get_secret : NamespacedName → Result TlsSecret) (manager : String) where
  find_ca_bundle : String → String → Result (Option String)
  unfolding tls_certificate
  find_ca_bundle namespace name =
      if name == ""
      then ok none
      else get_secret (record { namespace = namespace; name = name }) >>= tls_certificate

  find_global_ca_bundle : String → Result (Option String)
  unfolding find_ca_bundle
  find_global_ca_bundle host = find_ca_bundle manager (str_append host "-ca-cert")

  referenced_ca_bundle : SyncerContext → Option String → Result (Option String)
  unfolding find_ca_bundle first_of
  referenced_ca_bundle sc global =
      resolve_namespace sc.spec.ca_bundle_secret_ref.namespace sc.ref_owner_namespace
        (child "spec" ∷ child "caBundleSecretRef" ∷ [])
      >>= λ namespace. find_ca_bundle namespace sc.spec.ca_bundle_secret_ref.name >>= λ bundle.
          ok (first_of bundle global)

  syncer_ca_bundle : SyncerContext → Option String → Result (Option String)
  unfolding referenced_ca_bundle
  syncer_ca_bundle sc global =
      if sc.spec.ca_bundle_secret_ref.name == "" then ok global else referenced_ca_bundle sc global

  -- `CABundleBuilder`; `host` is that of the syncer's repository.
  unfoldable pub ca_bundle : SyncerContext → String → Result (Option String)
  unfolding find_global_ca_bundle global_or_none syncer_ca_bundle
  ca_bundle sc host =
      global_or_none (find_global_ca_bundle (host_name host)) >>= syncer_ca_bundle sc

  -- The certificate stands in a Secret of type kubernetes.io/tls with that name.
  pub record IsHeld (namespace name certificate : String) : Type 0 where
    pub secret : TlsSecret
    pub read : get_secret (record { namespace = namespace; name = name }) ≡ ok secret
    pub tls : (secret.type == "kubernetes.io/tls") ≡ true
    pub held : secret.certificate ≡ some certificate

  -- The certificate of the host in the manager's namespace, or of the Secret that the syncer names.
  pub data IsTrusted (sc : SyncerContext) (host : String) : Option String → Type 0 where
    no_bundle : IsTrusted sc host none
    global :
        {certificate : String}
        → IsHeld manager (str_append (host_name host) "-ca-cert") certificate
        → IsTrusted sc host (some certificate)
    referenced :
        {namespace certificate : String}
        → resolve_namespace sc.spec.ca_bundle_secret_ref.namespace sc.ref_owner_namespace
            (child "spec" ∷ child "caBundleSecretRef" ∷ [])
          ≡ ok namespace
        → IsHeld namespace sc.spec.ca_bundle_secret_ref.name certificate
        → IsTrusted sc host (some certificate)

  data IsFound (namespace name : String) : Option String → Type 0 where
    nothing : IsFound namespace name none
    held :
        {certificate : String}
        → IsHeld namespace name certificate
        → IsFound namespace name (some certificate)

  certificate-IsFound :
      (namespace name : String) (secret : TlsSecret) (bundle : Option String)
      → get_secret (record { namespace = namespace; name = name }) ≡ ok secret
      → (secret.type == "kubernetes.io/tls") ≡ true
      → secret.certificate ≡ bundle
      → IsFound namespace name bundle
  certificate-IsFound namespace name secret none read tls e = nothing
  certificate-IsFound namespace name secret (some certificate) read tls e =
      held (record { secret = secret; read = read; tls = tls; held = e })

  find_ca_bundle-IsFound :
      (namespace name : String) → Returns (IsFound namespace name) (find_ca_bundle namespace name)
  unfolding find_ca_bundle tls_certificate
  find_ca_bundle-IsFound namespace name = elim (Bool-cases (name == "")) [
    | inl empty ↦ rw empty nothing
    | inr named ↦ rw named (
        Returns-bind (IsFound namespace name)
          (get_secret (record { namespace = namespace; name = name })) tls_certificate
          λ secret read. elim (Bool-cases (secret.type == "kubernetes.io/tls")) [
            | inl tls ↦
                rw tls (certificate-IsFound namespace name secret secret.certificate read tls refl)
            | inr other ↦ rw other tt
          ])
  ]

  global-IsTrusted :
      (sc : SyncerContext) (host : String) (r : Result (Option String))
      → Returns (IsFound manager (str_append (host_name host) "-ca-cert")) r
      → Returns (IsTrusted sc host) (global_or_none r)
  unfolding global_or_none
  global-IsTrusted sc host (ok none) h = no_bundle
  global-IsTrusted sc host (ok (some certificate)) (held h) = global h
  global-IsTrusted sc host (err e) h = elim (Bool-cases (is_wrong_type e)) [
    | inl wrong ↦ rw wrong tt
    | inr other ↦ rw other no_bundle
  ]

  first_of-IsTrusted :
      (sc : SyncerContext) (host namespace : String) (bundle below : Option String)
      → resolve_namespace sc.spec.ca_bundle_secret_ref.namespace sc.ref_owner_namespace
          (child "spec" ∷ child "caBundleSecretRef" ∷ [])
        ≡ ok namespace
      → IsFound namespace sc.spec.ca_bundle_secret_ref.name bundle
      → IsTrusted sc host below
      → IsTrusted sc host (first_of bundle below)
  unfolding first_of
  first_of-IsTrusted sc host namespace none below at f h = h
  first_of-IsTrusted sc host namespace (some certificate) below at (held f) h = referenced at f

  referenced_ca_bundle-IsTrusted :
      (sc : SyncerContext) (host : String) (below : Option String)
      → IsTrusted sc host below
      → Returns (IsTrusted sc host) (referenced_ca_bundle sc below)
  unfolding referenced_ca_bundle
  referenced_ca_bundle-IsTrusted sc host below h =
      let name = sc.spec.ca_bundle_secret_ref.name in
      let P = IsTrusted sc host in
      Returns-bind P
        (resolve_namespace sc.spec.ca_bundle_secret_ref.namespace sc.ref_owner_namespace
          (child "spec" ∷ child "caBundleSecretRef" ∷ []))
        _
        λ namespace at. Returns-bind P (find_ca_bundle namespace name) _ λ bundle found.
          first_of-IsTrusted sc host namespace bundle below at
            (Returns-ok (IsFound namespace name) _ (find_ca_bundle-IsFound namespace name) found) h

  syncer_ca_bundle-IsTrusted :
      (sc : SyncerContext) (host : String) (below : Option String)
      → IsTrusted sc host below
      → Returns (IsTrusted sc host) (syncer_ca_bundle sc below)
  unfolding syncer_ca_bundle
  syncer_ca_bundle-IsTrusted sc host below h =
      Returns-if (IsTrusted sc host) (sc.spec.ca_bundle_secret_ref.name == "") (ok below)
        (referenced_ca_bundle sc below) h (referenced_ca_bundle-IsTrusted sc host below h)

  -- A certificate that CABundleBuilder returns stands in a Secret of type kubernetes.io/tls: the
  -- one that the syncer names, or the one of the repository's host in the manager's namespace.
  pub ca_bundle-IsTrusted :
      (sc : SyncerContext) (host : String) (bundle : Option String)
      → ca_bundle sc host ≡ ok bundle
      → IsTrusted sc host bundle
  unfolding ca_bundle find_global_ca_bundle
  ca_bundle-IsTrusted sc host bundle e =
      let P = IsTrusted sc host in
      let found = find_ca_bundle manager (str_append (host_name host) "-ca-cert") in
      Returns-ok P (global_or_none found >>= syncer_ca_bundle sc)
        (Returns-bind P (global_or_none found) _ λ below at.
          syncer_ca_bundle-IsTrusted sc host below (
            Returns-ok P (global_or_none found)
              (global-IsTrusted sc host found
                (find_ca_bundle-IsFound manager (str_append (host_name host) "-ca-cert")))
              at))
        e
