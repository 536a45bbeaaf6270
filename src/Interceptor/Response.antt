-- ===== src/Interceptor/Response.antt =====
-- internal/interceptor/response.go and k8s_utils.go: the answer to a request, and the updates of
-- the syncer's status. An update's mutation is a value; the time that it stamps is left out.
use Prim.Native.String.{◌++◌ as str_append}
use syngit.Common.{String, Bool, List, [], ◌∷◌, ◌++◌, map, ◌==◌, string_eq, if◌then◌else◌}
use syngit.Api.{UserInfo}
use syngit.Refs.{Gvr}
use syngit.Interceptor.Context.{SyncerContext}
use syngit.Interceptor.Push.{GitPushResponse}

pub record AdmissionRequest : Type 0 where
  pub uid : String
  pub user_info : UserInfo
  pub name : String
  pub namespace : String
  pub resource : Gvr
  pub request_resource : Gvr
  pub operation : String
  pub object_raw : String
  pub old_object_raw : String

pub record AdmissionResponse : Type 0 where
  pub uid : String
  pub allowed : Bool
  pub status : String
  pub message : String

pub record Condition : Type 0 where
  pub type : String
  pub status : String
  pub reason : String
  pub message : String

abbrev pub build_error_condition : String → Condition
build_error_condition details = record {
  type = "Synced";
  status = "False";
  reason = "WebhookHandlerError";
  message = details;
}

abbrev pub build_success_condition : String → Condition
build_success_condition details = record {
  type = "Synced";
  status = "True";
  reason = "WebhookHandlerSucceeded";
  message = details;
}

pub record JsonGvrn : Type 0 where
  pub gvr : Gvr
  pub name : String

pub record LastPushedObjectState : Type 0 where
  pub object : JsonGvrn
  pub git_paths : List String
  pub git_repos : List String
  pub git_commit_hashes : List String
  pub git_user : String
  pub status : String

-- The updates that the pipeline writes to the status, in its order.
pub data StatusUpdate : Type 0 where
  set_condition : Condition → StatusUpdate
  last_observed : String → JsonGvrn → StatusUpdate
  last_pushed : LastPushedObjectState → StatusUpdate

all_paths : List GitPushResponse → List String
all_paths [] = []
all_paths (response ∷ responses) = response.paths ++ all_paths responses

abbrev gvrn : AdmissionRequest → JsonGvrn
gvrn request = record { gvr = request.resource; name = request.name }

-- `UpdateRemoteSyncerState` with `LastObservedObjectStateKey`
abbrev pub update_observed : AdmissionRequest → StatusUpdate
update_observed request = last_observed request.user_info.username (gvrn request)

-- `UpdateRemoteSyncerState` with `LastPushedObjectStateKey`
unfoldable pub update_pushed : AdmissionRequest → List GitPushResponse → String → StatusUpdate
unfolding all_paths
update_pushed request responses details = last_pushed (record {
  object = gvrn request;
  git_paths = "" ∷ all_paths responses;
  git_repos = map (λ r. r.url) responses;
  git_commit_hashes = map (λ r. r.commit_hash) responses;
  git_user = request.user_info.username;
  status = details;
})

abbrev default_failure_message : String
default_failure_message = "the changes have not been pushed to the remote git repository: "

abbrev default_success_message : String
default_success_message = "the changes were correctly been pushed on the remote git repository"

-- What the pipeline decides: the message, whether the request is allowed, whether processing failed.
pub record Verdict : Type 0 where
  pub message : String
  pub allowed : Bool
  pub errored : Bool

pub record Review : Type 0 where
  pub response : AdmissionResponse
  pub updates : List StatusUpdate

base_message : SyncerContext → Bool → String
base_message sc errored =
    if errored
    then default_failure_message
    else if sc.spec.default_block_applied_message == ""
    then default_success_message
    else sc.spec.default_block_applied_message

-- `AdmissionReviewBuilder`
unfoldable pub admission_review : AdmissionRequest → SyncerContext → Verdict → Review
unfolding base_message
admission_review request sc v =
    let message = str_append (base_message sc v.errored) v.message in
    let condition =
      if v.errored then build_error_condition v.message else build_success_condition "" in
    record {
      response = record {
        uid = request.uid;
        allowed = v.allowed;
        status = if v.errored then "Failure" else "Success";
        message = message;
      };
      updates = set_condition condition ∷ update_observed request ∷ [];
    }
