-- ===== src/Interceptor/Pipeline.antt =====
-- RunInterceptionPipeline (internal/interceptor/pipeline.go).
pub mod Prepared
pub mod Allowed
pub mod Authorized
use Prim.Native.String.{◌++◌ as str_append}
use syngit.Common.{
  String, Bool, true, false, not, ◌&&◌, Option, none, some, List, [], ◌∷◌, ◌++◌, ◌==◌, string_eq,
  if◌then◌else◌,
}
use syngit.Common.Errors.{Error, Result, ok, err}
use syngit.Api.{NamespacedName, UserInfo, commit_apply, pass}
use syngit.Refs.{ObjectRef, remote_syncer_refs}
use syngit.Rbac.{SubjectAccessReviewSpec, authorize_cross_namespace_refs}
use syngit.Render.{Fields, contains_deletion_timestamp}
use syngit.Render.Manifest.{Codec, object_to_yaml}
use syngit.Interceptor.Context.{SyncerContext}
use syngit.Interceptor.Subject.{is_bypass_subject, is_service_account}
use syngit.Interceptor.Target.{Cluster, UserTargets}
use syngit.Interceptor.Association.{user_info_remote_targets}
use syngit.Interceptor.Tls.{TlsSecret, ca_bundle}
use syngit.Interceptor.Push.{
  ObjectMetadata, GitPushParameters, GitPipelineParams, GitPushResponse, GitPipeline, Pushes,
  run_git_push_pipeline,
}
use syngit.Interceptor.Response.{
  AdmissionRequest, AdmissionResponse, StatusUpdate, update_pushed, Verdict, Review,
  admission_review,
}

-- What the pipeline calls: the cluster, the codecs, the git pipeline and the texts of errors.
pub record World : Type 0 where
  pub cluster : Cluster
  pub codec : Codec
  pub review : SubjectAccessReviewSpec → Result Bool
  pub get_tls_secret : NamespacedName → Result TlsSecret
  pub run_git_pipeline : GitPipeline
  pub json_to_yaml : String → Result String
  -- The value of MANAGER_NAMESPACE.
  pub manager_namespace_variable : String
  pub error_text : Error → String
  pub denied_text : UserInfo → ObjectRef → String

pub record Outcome : Type 0 where
  pub response : AdmissionResponse
  pub calls : List GitPipelineParams
  pub updates : List StatusUpdate

-- A step of the pipeline either returns from it or continues.
pub data Stage {ℓ} (A : Type ℓ) : Type ℓ where
  stop : Verdict → Stage A
  continue : A → Stage A

infixl 5 ◌>=>◌
abbrev pub ◌>=>◌ {ℓ κ} : {A : Type ℓ} {B : Type κ} → Stage A → (A → Stage B) → Stage B
stop v >=> f = stop v
continue a >=> f = f a

-- `BuildInterceptorPipelineErr`
unfoldable pub interceptor_pipeline_err : String → String
interceptor_pipeline_err = str_append "interceptor pipeline processing error: "

abbrev pub refused : String → Verdict
refused message = record { message = message; allowed = false; errored = true }

abbrev pub passed : String → Verdict
passed message = record { message = message; allowed = true; errored = false }

-- An error ends the pipeline, with a message made of it.
or_stop {ℓ} : {A : Type ℓ} → (Error → String) → Result A → Stage A
or_stop text (ok a) = continue a
or_stop text (err e) = stop (refused (text e))

stop_if : Bool → Verdict → Stage {0} Unit
stop_if b v = if b then stop v else continue tt

-- `ExtractObjectMetadata`
abbrev pub extract_object_metadata : AdmissionRequest → ObjectMetadata
extract_object_metadata request = record {
  gvr = request.request_resource;
  name = request.name;
  namespace = request.namespace;
}

-- The intercepted and the deleted manifest.
pub record Manifests : Type 0 where
  pub intercepted : String
  pub deleted : String

-- `IsWebhookAllowed`
unfoldable pub is_webhook_allowed : SyncerContext → Bool → Bool
is_webhook_allowed sc pipeline_errored = not pipeline_errored && sc.spec.strategy == commit_apply

paths_text : List String → String
paths_text [] = ""
paths_text (path ∷ paths) = str_append (str_append "    " (str_append path "\n")) (paths_text paths)

responses_text : List GitPushResponse → String
unfolding paths_text
responses_text [] = ""
responses_text (r ∷ rs) =
    str_append
      (str_append (str_append "- repo: " (str_append r.url "\n  paths:"))
        (str_append (paths_text r.paths) (str_append "  commit hash: " r.commit_hash)))
      (responses_text rs)

-- `BuildWebhookSuccessMessage`
unfoldable pub build_webhook_success_message : List GitPushResponse → String
unfolding responses_text
build_webhook_success_message responses =
    str_append "The resource has been push to:\n" (responses_text responses)

module _ (world : World) (request : AdmissionRequest) (sc : SyncerContext) (manager : String) where
  abbrev pub plain : Error → String
  plain = world.error_text

  wrapped : Error → String
  wrapped e = interceptor_pipeline_err (world.error_text e)

  -- The author does not bypass the interception.
  check_bypass : Stage {0} Unit
  unfolding or_stop stop_if
  check_bypass =
      stop_if (sc.spec.bypass_all_service_accounts && is_service_account request.user_info)
        (passed (interceptor_pipeline_err "service account bypasses the interception"))
      >=> λ _. or_stop plain (is_bypass_subject request.user_info sc) >=> λ bypass.
          stop_if bypass (passed (interceptor_pipeline_err "subject bypasses the interception"))

  stop_if_denied : Option ObjectRef → Stage {0} Unit
  stop_if_denied none = continue tt
  stop_if_denied (some ref) = stop (refused (world.denied_text request.user_info ref))

  -- The author may get every object that the syncer references in another namespace.
  check_refs : Stage {0} Unit
  unfolding or_stop wrapped stop_if_denied
  check_refs = or_stop plain (remote_syncer_refs sc.spec sc.ref_owner_namespace) >=> λ refs.
      or_stop wrapped (
        authorize_cross_namespace_refs world.review request.user_info refs sc.ref_owner_namespace
          (manager ∷ []))
      >=> stop_if_denied

  manifests : Stage Manifests
  unfolding or_stop wrapped
  manifests =
      if request.operation == "DELETE"
      then (or_stop wrapped (world.json_to_yaml request.old_object_raw) >=> λ deleted.
          continue (record { intercepted = ""; deleted = deleted }))
      else (or_stop wrapped
            (object_to_yaml world.codec request.object_raw manager sc.spec sc.ref_owner_namespace)
          >=> λ yaml. continue (record { intercepted = yaml; deleted = "" }))

  check_deletion : Stage {0} Unit
  unfolding or_stop stop_if
  check_deletion =
      if request.object_raw == ""
      then continue tt
      else (or_stop plain (world.codec.json_to_map request.object_raw) >=> λ object.
          stop_if (contains_deletion_timestamp object) (
            passed (
              interceptor_pipeline_err
                "object is being deleted and the interception already happened")))

  -- Everything before the push.
  pub prepare : Stage GitPushParameters
  unfolding or_stop wrapped check_bypass check_refs manifests check_deletion
  prepare =
      or_stop (λ _. interceptor_pipeline_err "cannot parse the RemoteSyncer's upstream URL")
        (world.cluster.url_host sc.spec.remote_repository)
      >=> λ host. check_bypass >=> λ _. check_refs >=> λ _.
          or_stop plain (user_info_remote_targets world.cluster request.user_info host sc)
          >=> λ targets. manifests >=> λ m. check_deletion >=> λ _.
              or_stop wrapped
                (ca_bundle world.get_tls_secret world.manager_namespace_variable sc host)
              >=> λ bundle. continue (record {
                user_targets = targets;
                syncer = sc;
                intercepted_manifest = m.intercepted;
                deleted_manifest = m.deleted;
                metadata = extract_object_metadata request;
                operation = request.operation;
                ca_bundle = bundle;
              })

  pushed_verdict : Result (List GitPushResponse) → Verdict
  unfolding wrapped
  pushed_verdict (err e) = record {
    message = wrapped e;
    allowed = sc.spec.strategy == commit_apply && sc.spec.default_push_error_behavior == pass;
    errored = true;
  }
  pushed_verdict (ok responses) =
      if is_webhook_allowed sc false
      then passed (build_webhook_success_message responses)
      else record {
        message = interceptor_pipeline_err "the remote syncer is in CommitOnly mode";
        allowed = false;
        errored = false;
      }

  pushed_updates : Result (List GitPushResponse) → List StatusUpdate
  pushed_updates (err e) = []
  pushed_updates (ok responses) = update_pushed request responses "" ∷ []

  finish : List GitPipelineParams → List StatusUpdate → Verdict → Outcome
  finish calls updates v =
      let review = admission_review request sc v in
      record { response = review.response; calls = calls; updates = updates ++ review.updates }

  push : Stage GitPushParameters → Outcome
  unfolding finish pushed_verdict pushed_updates
  push (stop v) = finish [] [] v
  push (continue params) =
      let pushes = run_git_push_pipeline world.run_git_pipeline params in
      finish pushes.calls (pushed_updates pushes.result) (pushed_verdict pushes.result)

  unfoldable pub run_interception_pipeline : Outcome
  unfolding prepare push
  run_interception_pipeline = push prepare
