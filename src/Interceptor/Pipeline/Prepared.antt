-- ===== src/Interceptor/Pipeline/Prepared.antt =====
-- What the pipeline has done before it pushes (internal/interceptor/pipeline.go).
use syngit.Common.{
  String, Bool, true, false, ◌&&◌, Option, none, some, List, [], ◌∷◌, ◌==◌, string_eq, ◌≡◌, refl,
  ap, ◌∙◌, inl, inr, Bool-cases, &&-eq-true,
}
use syngit.Common.Errors.{Error, Result, ok, err}
use syngit.Refs.{ObjectRef, remote_syncer_refs}
use syngit.Rbac.{authorize_cross_namespace_refs}
use syngit.Render.{Fields, contains_deletion_timestamp}
use syngit.Render.Manifest.{object_to_yaml}
use syngit.Interceptor.Context.{SyncerContext}
use syngit.Interceptor.Subject.{is_bypass_subject, is_service_account}
use syngit.Interceptor.Association.{user_info_remote_targets}
use syngit.Interceptor.Tls.{ca_bundle}
use syngit.Interceptor.Push.{GitPushParameters}
use syngit.Interceptor.Response.{AdmissionRequest, Verdict}
use syngit.Interceptor.Pipeline.{
  World, Stage, stop, continue, ◌>=>◌, or_stop, stop_if, Manifests, check_bypass, stop_if_denied,
  check_refs, manifests, check_deletion, prepare,
}

-- `P` of the verdict of a stage that stops, `Q` of the value of one that continues.
abbrev pub Both {ℓ} : {A : Type ℓ} → (Verdict → Type 0) → (A → Type 0) → Stage A → Type 0
Both P Q (stop v) = P v
Both P Q (continue a) = Q a

Both-bind {ℓ κ} :
    {A : Type ℓ} {B : Type κ} (P : Verdict → Type 0) (R : A → Type 0) (Q : B → Type 0) (m : Stage A)
    (f : A → Stage B)
    → Both P R m
    → ((a : A) → R a → Both P Q (f a))
    → Both P Q (m >=> f)
Both-bind P R Q (stop v) f p q = p
Both-bind P R Q (continue a) f r q = q a r

module _ (world : World) (request : AdmissionRequest) (sc : SyncerContext) (manager : String) where
  -- Why a request is allowed without a push.
  pub data Bypasses : Type 0 where
    service_account :
        sc.spec.bypass_all_service_accounts ≡ true
        → is_service_account request.user_info ≡ true
        → Bypasses
    bypass_subject : is_bypass_subject request.user_info sc ≡ ok true → Bypasses
    being_deleted :
        (object : Fields)
        → world.codec.json_to_map request.object_raw ≡ ok object
        → contains_deletion_timestamp object ≡ true
        → Bypasses

  -- The author is none that bypasses.
  pub record IsIntercepted : Type 0 where
    pub account :
        (sc.spec.bypass_all_service_accounts && is_service_account request.user_info) ≡ false
    pub subject : is_bypass_subject request.user_info sc ≡ ok false

  -- The author may get every object that the syncer references elsewhere.
  pub record IsAuthorized : Type 0 where
    pub refs : List ObjectRef
    pub resolved : remote_syncer_refs sc.spec sc.ref_owner_namespace ≡ ok refs
    pub none_denied :
        authorize_cross_namespace_refs world.review request.user_info refs sc.ref_owner_namespace
          (manager ∷ [])
        ≡ ok none

  -- The manifest of the object, without what is excluded, or that of the deleted object.
  pub data IsRendered : Manifests → Type 0 where
    deletion :
        {yaml : String}
        → (request.operation == "DELETE") ≡ true
        → world.json_to_yaml request.old_object_raw ≡ ok yaml
        → IsRendered (record { intercepted = ""; deleted = yaml })
    change :
        {yaml : String}
        → (request.operation == "DELETE") ≡ false
        → object_to_yaml world.codec request.object_raw manager sc.spec sc.ref_owner_namespace
          ≡ ok yaml
        → IsRendered (record { intercepted = yaml; deleted = "" })

  -- What holds of the parameters of the push.
  pub record IsPrepared (params : GitPushParameters) : Type 0 where
    pub host : String
    pub parsed : world.cluster.url_host sc.spec.remote_repository ≡ ok host
    pub intercepted : IsIntercepted
    pub authorized : IsAuthorized
    pub associated :
        user_info_remote_targets world.cluster request.user_info host sc ≡ ok params.user_targets
    pub rendered :
        IsRendered
          (record { intercepted = params.intercepted_manifest; deleted = params.deleted_manifest })
    pub trusted :
        ca_bundle world.get_tls_secret world.manager_namespace_variable sc host
        ≡ ok params.ca_bundle

  abbrev pub Stops : Verdict → Type 0
  Stops v = v.allowed ≡ true → Bypasses

  or_stop-then {ℓ κ} :
      {A : Type ℓ} {B : Type κ} (text : Error → String) (r : Result A) (Q : B → Type 0)
      (f : A → Stage B)
      → ((a : A) → r ≡ ok a → Both Stops Q (f a))
      → Both Stops Q (or_stop text r >=> f)
  unfolding or_stop
  or_stop-then text (ok a) Q f h = h a refl
  or_stop-then text (err e) Q f h = λ allowed. cc

  stop_if-then {κ} :
      {B : Type κ} (b : Bool) (v : Verdict) (Q : B → Type 0) (f : Unit {0} → Stage B)
      → (b ≡ true → Bypasses)
      → (b ≡ false → Both Stops Q (f tt))
      → Both Stops Q (stop_if b v >=> f)
  unfolding stop_if
  stop_if-then true v Q f h k = λ _. h refl
  stop_if-then false v Q f h k = k refl

  stop_if-Both :
      (b : Bool) (v : Verdict) (Q : Unit {0} → Type 0)
      → (b ≡ true → Bypasses)
      → (b ≡ false → Q tt)
      → Both Stops Q (stop_if b v)
  unfolding stop_if
  stop_if-Both true v Q h k = λ _. h refl
  stop_if-Both false v Q h k = k refl

  service_account-Bypasses :
      (sc.spec.bypass_all_service_accounts && is_service_account request.user_info) ≡ true
      → Bypasses
  service_account-Bypasses h =
      let both =
        &&-eq-true sc.spec.bypass_all_service_accounts (is_service_account request.user_info) h in
      service_account both.0 both.1

  check_bypass-Both : Both Stops (λ _. IsIntercepted) (check_bypass world request sc manager)
  unfolding check_bypass
  check_bypass-Both =
      let Q = λ (_ : Unit {0}). IsIntercepted in
      stop_if-then (sc.spec.bypass_all_service_accounts && is_service_account request.user_info) _ Q
        _ service_account-Bypasses
        λ account. or_stop-then _ (is_bypass_subject request.user_info sc) Q _ λ bypass e.
          stop_if-Both bypass _ Q (λ so. bypass_subject (e ∙ ap ok so))
            (λ otherwise. record { account = account; subject = e ∙ ap ok otherwise })

  stop_if_denied-Both :
      (denied : Option ObjectRef) (Q : Unit {0} → Type 0)
      → (denied ≡ none → Q tt)
      → Both Stops Q (stop_if_denied world request sc manager denied)
  unfolding stop_if_denied
  stop_if_denied-Both none Q h = h refl
  stop_if_denied-Both (some ref) Q h = λ allowed. cc

  check_refs-Both : Both Stops (λ _. IsAuthorized) (check_refs world request sc manager)
  unfolding check_refs
  check_refs-Both =
      let Q = λ (_ : Unit {0}). IsAuthorized in
      or_stop-then _ (remote_syncer_refs sc.spec sc.ref_owner_namespace) Q _ λ refs resolved.
        or_stop-then _
          (authorize_cross_namespace_refs world.review request.user_info refs sc.ref_owner_namespace
            (manager ∷ []))
          Q _
          λ denied e. stop_if_denied-Both denied Q (λ otherwise. record {
            refs = refs;
            resolved = resolved;
            none_denied = e ∙ ap ok otherwise;
          })

  manifests-Both : Both Stops IsRendered (manifests world request sc manager)
  unfolding manifests
  manifests-Both = elim (Bool-cases (request.operation == "DELETE")) [
    | inl deleted ↦ rw deleted (
        or_stop-then _ (world.json_to_yaml request.old_object_raw) IsRendered _
          λ yaml e. deletion deleted e)
    | inr changed ↦ rw changed (
        or_stop-then _
          (object_to_yaml world.codec request.object_raw manager sc.spec sc.ref_owner_namespace)
          IsRendered _ λ yaml e. change changed e)
  ]

  check_deletion-Both : Both Stops (λ _. Unit {0}) (check_deletion world request sc manager)
  unfolding check_deletion
  check_deletion-Both = elim (Bool-cases (request.object_raw == "")) [
    | inl empty ↦ rw empty tt
    | inr raw ↦ rw raw (
        or_stop-then _ (world.codec.json_to_map request.object_raw) (λ _. Unit {0}) _
          λ object e.
            stop_if-Both (contains_deletion_timestamp object) _ (λ _. Unit {0})
              (λ so. being_deleted object e so) (λ _. tt))
  ]

  -- The stages before the push stop with a justified verdict, or prepare its parameters.
  pub prepare-Both : Both Stops IsPrepared (prepare world request sc manager)
  unfolding prepare
  prepare-Both =
      or_stop-then _ (world.cluster.url_host sc.spec.remote_repository) IsPrepared _ λ host parsed.
        Both-bind Stops (λ _. IsIntercepted) IsPrepared _ _ check_bypass-Both
          λ _ intercepted.
            Both-bind Stops (λ _. IsAuthorized) IsPrepared _ _ check_refs-Both
              λ _ authorized.
                or_stop-then _ (user_info_remote_targets world.cluster request.user_info host sc)
                  IsPrepared _
                  λ targets associated.
                    Both-bind Stops IsRendered IsPrepared _ _ manifests-Both λ m rendered.
                      Both-bind Stops (λ _. Unit {0}) IsPrepared _ _ check_deletion-Both
                        λ _ _.
                          or_stop-then _
                            (ca_bundle world.get_tls_secret world.manager_namespace_variable sc
                              host)
                            IsPrepared _
                            λ bundle trusted. record {
                              host = host;
                              parsed = parsed;
                              intercepted = intercepted;
                              authorized = authorized;
                              associated = associated;
                              rendered = rendered;
                              trusted = trusted;
                            }
