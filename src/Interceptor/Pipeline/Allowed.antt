-- ===== src/Interceptor/Pipeline/Allowed.antt =====
-- When the pipeline allows a request, and what it has pushed (internal/interceptor/pipeline.go).
use syngit.Common.{
  String, true, List, [], ◌==◌, string_eq, ◌≡◌, refl, sym, ap, ◌∙◌, append-nil, ◌++◌, All, length,
  &&-eq-true, arith,
}
use syngit.Common.Errors.{Error, Result, ok, err}
use syngit.Api.{commit_apply, pass}
use syngit.Interceptor.Context.{SyncerContext}
use syngit.Interceptor.Push.{
  GitPushParameters, GitPushResponse, GitPipelineParams, run_git_push_pipeline,
}
use syngit.Interceptor.Push.Complete.{
  user_calls, HasCommit, pushed_all, stopped, run_git_push_pipeline-IsComplete,
}
use syngit.Interceptor.Response.{admission_review, StatusUpdate, AdmissionRequest, Verdict}
use syngit.Interceptor.Pipeline.{
  World, Outcome, Stage, stop, continue, prepare, run_interception_pipeline, push, finish,
  pushed_verdict, is_webhook_allowed,
}
use syngit.Interceptor.Pipeline.Prepared.{Both, Bypasses, IsPrepared, Stops, prepare-Both}

module _ (world : World) (request : AdmissionRequest) (sc : SyncerContext) (manager : String) where
  -- Why a request is allowed: without a push; after a push to every target of every user, each
  -- with a commit; or after a failed push, where the syncer passes such errors. The last two need
  -- the strategy `CommitApply`.
  pub data IsJustified (o : Outcome) : Type 0 where
    bypassed : o.calls ≡ [] → Bypasses world request sc manager → IsJustified o
    applied :
        (params : GitPushParameters) (responses : List GitPushResponse)
        → IsPrepared world request sc manager params
        → (sc.spec.strategy == commit_apply) ≡ true
        → o.calls ≡ user_calls params params.user_targets
        → length responses ≡ length o.calls
        → All HasCommit responses
        → IsJustified o
    tolerated :
        (params : GitPushParameters) {e : Error}
        → IsPrepared world request sc manager params
        → (sc.spec.strategy == commit_apply) ≡ true
        → (sc.spec.default_push_error_behavior == pass) ≡ true
        → (run_git_push_pipeline world.run_git_pipeline params).result ≡ err e
        → IsJustified o

  finish-allowed :
      (calls : List GitPipelineParams) (updates : List StatusUpdate) (v : Verdict)
      → (finish world request sc manager calls updates v).response.allowed ≡ v.allowed
  unfolding finish admission_review
  finish-allowed calls updates v = refl

  finish-calls :
      (calls : List GitPipelineParams) (updates : List StatusUpdate) (v : Verdict)
      → (finish world request sc manager calls updates v).calls ≡ calls
  unfolding finish
  finish-calls calls updates v = refl

  verdict_of : Result (List GitPushResponse) → Verdict
  unfolding pushed_verdict
  verdict_of = pushed_verdict world request sc manager

  verdict_ok-allowed :
      (responses : List GitPushResponse)
      → (verdict_of (ok responses)).allowed ≡ true
      → (sc.spec.strategy == commit_apply) ≡ true
  unfolding verdict_of is_webhook_allowed
  verdict_ok-allowed responses h = ground arith

  pushed-IsJustified :
      (params : GitPushParameters)
      → IsPrepared world request sc manager params
      → (push world request sc manager (continue params)).response.allowed ≡ true
      → IsJustified (push world request sc manager (continue params))
  unfolding push finish verdict_of run_git_push_pipeline admission_review
  pushed-IsJustified params prepared allowed =
      let p = run_git_push_pipeline world.run_git_pipeline params in
      elim (run_git_push_pipeline-IsComplete world.run_git_pipeline params) [
        | stopped rest failed_with split ↦
            let both =
              &&-eq-true (sc.spec.strategy == commit_apply)
                (sc.spec.default_push_error_behavior == pass)
                (sym (ap (λ r. (verdict_of r).allowed) failed_with) ∙ allowed) in
            tolerated params prepared both.0 both.1 failed_with
        | pushed_all responses returned called counted committed ↦
            applied params responses prepared
              (verdict_ok-allowed responses
                (sym (ap (λ r. (verdict_of r).allowed) returned) ∙ allowed))
              called counted committed
      ]

  push-IsJustified :
      (stage : Stage GitPushParameters)
      → Both (Stops world request sc manager) (IsPrepared world request sc manager) stage
      → (push world request sc manager stage).response.allowed ≡ true
      → IsJustified (push world request sc manager stage)
  unfolding push finish admission_review
  push-IsJustified (stop v) h allowed = bypassed refl (h allowed)
  push-IsJustified (continue params) h allowed = pushed-IsJustified params h allowed

  -- A request is allowed for one of these reasons only: its author bypasses the interception, or
  -- the object is being deleted, and nothing was pushed; or the strategy is `CommitApply`, and
  -- either every target of every user got a push with a commit, or a push failed and the syncer
  -- passes such errors.
  pub run_interception_pipeline-IsJustified :
      (run_interception_pipeline world request sc manager).response.allowed ≡ true
      → IsJustified (run_interception_pipeline world request sc manager)
  unfolding run_interception_pipeline
  run_interception_pipeline-IsJustified =
      push-IsJustified (prepare world request sc manager) (prepare-Both world request sc manager)

  -- What has been pushed: nothing, or a first part of the pushes that were prepared.
  pub data IsPushed (o : Outcome) : Type 0 where
    nothing : o.calls ≡ [] → IsPushed o
    prepared :
        (params : GitPushParameters) (rest : List GitPipelineParams)
        → IsPrepared world request sc manager params
        → user_calls params params.user_targets ≡ (o.calls ++ rest)
        → IsPushed o

  push-IsPushed :
      (stage : Stage GitPushParameters)
      → Both (Stops world request sc manager) (IsPrepared world request sc manager) stage
      → IsPushed (push world request sc manager stage)
  unfolding push finish
  push-IsPushed (stop v) h = nothing refl
  push-IsPushed (continue params) h =
      elim (run_git_push_pipeline-IsComplete world.run_git_pipeline params) [
        | stopped rest failed_with split ↦ prepared params rest h split
        | pushed_all responses returned called counted committed ↦
            prepared params [] h (sym called ∙ sym (append-nil _))
      ]

  pub run_interception_pipeline-IsPushed :
      IsPushed (run_interception_pipeline world request sc manager)
  unfolding run_interception_pipeline
  run_interception_pipeline-IsPushed =
      push-IsPushed (prepare world request sc manager) (prepare-Both world request sc manager)
