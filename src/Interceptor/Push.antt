-- ===== src/Interceptor/Push.antt =====
-- RunGitPushPipeline (internal/interceptor/pipeline.go): one push for each target of each user.
pub mod Complete
use syngit.Common.{String, Bool, true, false, Option, List, [], ◌∷◌, ◌++◌, ◌==◌, string_eq}
use syngit.Common.Errors.{Result, ok, err, other}
use syngit.Api.{RemoteTarget}
use syngit.Refs.{Gvr}
use syngit.Interceptor.Context.{SyncerContext}
use syngit.Interceptor.Target.{GitUserInfo, UserTargets}

-- `ExtractObjectMetadata` (pkg/webhooks/request.go)
pub record ObjectMetadata : Type 0 where
  pub gvr : Gvr
  pub name : String
  pub namespace : String

pub record GitPushParameters : Type 0 where
  pub user_targets : UserTargets
  pub syncer : SyncerContext
  pub intercepted_manifest : String
  pub deleted_manifest : String
  pub metadata : ObjectMetadata
  pub operation : String
  pub ca_bundle : Option String

-- pkg/interceptor/pipeline.go
pub record GitPipelineParams : Type 0 where
  pub syncer : SyncerContext
  pub remote_target : RemoteTarget
  pub intercepted_manifest : String
  pub deleted_manifest : String
  pub intercepted_gvr : Gvr
  pub intercepted_name : String
  pub git_user_info : GitUserInfo
  pub operation : String
  pub ca_bundle : Option String

pub record GitPushResponse : Type 0 where
  pub paths : List String
  pub commit_hash : String
  pub url : String

unfoldable pub pipeline_params : GitPushParameters → GitUserInfo → RemoteTarget → GitPipelineParams
pipeline_params params info rt = record {
  syncer = params.syncer;
  remote_target = rt;
  intercepted_manifest = params.intercepted_manifest;
  deleted_manifest = params.deleted_manifest;
  intercepted_gvr = params.metadata.gvr;
  intercepted_name = params.metadata.name;
  git_user_info = info;
  operation = params.operation;
  ca_bundle = params.ca_bundle;
}

-- `pusher.RunGitPipeline`, which may answer by what was pushed before: any function.
abbrev pub GitPipeline : Type 0
GitPipeline = List GitPipelineParams → GitPipelineParams → Result GitPushResponse

-- The calls of the git pipeline so far, and what the loop returns.
pub record Pushes : Type 0 where
  pub calls : List GitPipelineParams
  pub result : Result (List GitPushResponse)

module _ (run_git_pipeline : GitPipeline) (params : GitPushParameters) where
  -- The targets of one user.
  push_targets :
      GitUserInfo → List RemoteTarget → List GitPipelineParams → List GitPushResponse → Pushes
  unfolding pipeline_params
  push_targets info [] calls responses = record { calls = calls; result = ok responses }
  push_targets info (rt ∷ rts) calls responses =
      let call = pipeline_params params info rt in
      elim (run_git_pipeline calls call) [
        | err e ↦ record { calls = calls ++ call ∷ []; result = err e }
        | ok response ↦ elim (response.commit_hash == "") [
          | true ↦ record {
            calls = calls ++ call ∷ [];
            result = err (other "the commit hash is empty");
          }
          | false ↦ push_targets info rts (calls ++ call ∷ []) (responses ++ response ∷ [])
        ]
      ]

  push_users : UserTargets → List GitPipelineParams → List GitPushResponse → Pushes
  unfolding push_targets
  push_users [] calls responses = record { calls = calls; result = ok responses }
  push_users ((info, rts) ∷ m) calls responses =
      let pushed = push_targets info rts calls responses in
      elim pushed.result [
        | err e ↦ record { calls = pushed.calls; result = err e }
        | ok more ↦ push_users m pushed.calls more
      ]

  unfoldable pub run_git_push_pipeline : Pushes
  unfolding push_users
  run_git_push_pipeline = push_users params.user_targets [] []
