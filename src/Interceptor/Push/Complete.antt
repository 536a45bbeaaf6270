-- ===== src/Interceptor/Push/Complete.antt =====
-- What the loop over the targets has pushed when it ends (RunGitPushPipeline).
use syngit.Common.{
  ◌+◌, false, List, [], ◌∷◌, ◌++◌, ◌==◌, string_eq, ◌≡◌, refl, sym, ap, ◌∙◌, arith, All, All-append,
  length, length-append, append-nil, append_assoc, Bool-cases, inl, inr,
}
use syngit.Common.Errors.{Error, ok, err, Result-cases}
use syngit.Api.{RemoteTarget}
use syngit.Interceptor.Target.{GitUserInfo, UserTargets}
use syngit.Interceptor.Target.Laws.{Entries}
use syngit.Interceptor.Push.{
  GitPushParameters, GitPipelineParams, GitPushResponse, pipeline_params, GitPipeline, Pushes,
  push_targets, push_users, run_git_push_pipeline,
}

-- The calls that push to every target of every user.
pub target_calls : GitPushParameters → GitUserInfo → List RemoteTarget → List GitPipelineParams
unfolding pipeline_params
target_calls params info [] = []
target_calls params info (rt ∷ rts) = pipeline_params params info rt ∷ target_calls params info rts

unfoldable pub user_calls : GitPushParameters → UserTargets → List GitPipelineParams
unfolding target_calls
user_calls params [] = []
user_calls params ((info, rts) ∷ m) = target_calls params info rts ++ user_calls params m

target_calls-All :
    (params : GitPushParameters) (Q : GitUserInfo → RemoteTarget → Type 0) (info : GitUserInfo)
    (rts : List RemoteTarget)
    → All (Q info) rts
    → All (λ call. Q call.git_user_info call.remote_target) (target_calls params info rts)
unfolding target_calls
target_calls-All params Q info [] h = tt
target_calls-All params Q info (rt ∷ rts) h = (h.0, target_calls-All params Q info rts h.1)

-- What holds of every user and target holds of the calls.
pub user_calls-All :
    (params : GitPushParameters) (Q : GitUserInfo → RemoteTarget → Type 0) (m : UserTargets)
    → Entries Q m
    → All (λ call. Q call.git_user_info call.remote_target) (user_calls params m)
unfolding user_calls
user_calls-All params Q [] h = tt
user_calls-All params Q ((info, rts) ∷ m) h =
    All-append _ (target_calls params info rts) (user_calls params m)
      (target_calls-All params Q info rts h.0) (user_calls-All params Q m h.1)

abbrev pub HasCommit : GitPushResponse → Type 0
HasCommit response = (response.commit_hash == "") ≡ false

-- Where the loop returns responses: it has made these calls too, with a commit for each.
record Completed (new : List GitPipelineParams) (calls : List GitPipelineParams)
    (responses : List GitPushResponse) (p : Pushes) : Type 0 where
  pub all : List GitPushResponse
  pub returned : p.result ≡ ok all
  pub called : p.calls ≡ (calls ++ new)
  pub counted : length all ≡ length responses + length new
  pub committed : All HasCommit all

data Ends (new : List GitPipelineParams) (calls : List GitPipelineParams)
    (responses : List GitPushResponse) (p : Pushes) : Type 0 where
  completed : Completed new calls responses p → Ends new calls responses p
  failed :
      {e : Error} (done rest : List GitPipelineParams)
      → p.result ≡ err e
      → p.calls ≡ (calls ++ done)
      → new ≡ (done ++ rest)
      → Ends new calls responses p

-- First the calls `first`, then those of the rest.
Ends-then :
    (first new calls : List GitPipelineParams) {calls' : List GitPipelineParams}
    {responses responses' : List GitPushResponse} {p : Pushes}
    → calls' ≡ (calls ++ first)
    → length responses' ≡ length responses + length first
    → Ends new calls' responses' p
    → Ends (first ++ new) calls responses p
Ends-then first new calls at n (completed c) = completed (record {
  all = c.all;
  returned = c.returned;
  called = c.called ∙ ap (λ t. t ++ new) at ∙ append_assoc calls first new;
  counted = omega (arith, c.counted, n, length-append first new);
  committed = c.committed;
})
Ends-then first new calls at n (failed done rest r called split) =
    failed (first ++ done) rest r (called ∙ ap (λ t. t ++ done) at ∙ append_assoc calls first done)
      (ap (λ t. first ++ t) split ∙ sym (append_assoc first done rest))

module _ (run : GitPipeline) (params : GitPushParameters) where
  push_targets-Ends :
      (info : GitUserInfo) (rts : List RemoteTarget) (calls : List GitPipelineParams)
      (responses : List GitPushResponse)
      → All HasCommit responses
      → Ends
          (target_calls params info rts)
          calls
          responses
          (push_targets run params info rts calls responses)
  unfolding push_targets target_calls
  push_targets-Ends info [] calls responses h = completed (record {
    all = responses;
    returned = refl;
    called = sym (append-nil calls);
    counted = omega arith;
    committed = h;
  })
  push_targets-Ends info (rt ∷ rts) calls responses h =
      let call = pipeline_params params info rt in
      elim (Result-cases (run calls call)) [
        | inr (e, bad) ↦
            rw (bad, push_targets)
              (failed (call ∷ []) (target_calls params info rts) refl refl refl)
        | inl (response, good) ↦ elim (Bool-cases (response.commit_hash == "")) [
          | inl empty ↦
              rw (good, push_targets, empty)
                (failed (call ∷ []) (target_calls params info rts) refl refl refl)
          | inr full ↦
              rw (good, push_targets, full)
                (Ends-then (call ∷ []) (target_calls params info rts) calls refl
                  (length-append responses (response ∷ []))
                  (push_targets-Ends info rts (calls ++ call ∷ []) (responses ++ response ∷ [])
                    (All-append HasCommit responses (response ∷ []) h (full, tt))))
        ]
      ]

  push_users-Ends :
      (m : UserTargets) (calls : List GitPipelineParams) (responses : List GitPushResponse)
      → All HasCommit responses
      → Ends (user_calls params m) calls responses (push_users run params m calls responses)
  unfolding push_users user_calls
  push_users-Ends [] calls responses h = completed (record {
    all = responses;
    returned = refl;
    called = sym (append-nil calls);
    counted = omega arith;
    committed = h;
  })
  push_users-Ends ((info, rts) ∷ m) calls responses h =
      elim (push_targets-Ends info rts calls responses h) [
        | failed done rest r called split ↦
            rw (r, push_users)
              (failed done (rest ++ user_calls params m) refl called (
                ap (λ t. t ++ user_calls params m) split
                ∙ append_assoc done rest (user_calls params m)))
        | completed c ↦
            rw (c.returned, push_users)
              (Ends-then (target_calls params info rts) (user_calls params m) calls c.called
                c.counted
                (push_users-Ends m (push_targets run params info rts calls responses).calls c.all
                  c.committed))
      ]

  -- How the pushes may end.
  pub data IsComplete (p : Pushes) : Type 0 where
    pushed_all :
        (responses : List GitPushResponse)
        → p.result ≡ ok responses
        → p.calls ≡ user_calls params params.user_targets
        → length responses ≡ length p.calls
        → All HasCommit responses
        → IsComplete p
    stopped :
        {e : Error} (rest : List GitPipelineParams)
        → p.result ≡ err e
        → user_calls params params.user_targets ≡ (p.calls ++ rest)
        → IsComplete p

  Ends-IsComplete :
      (p : Pushes) → Ends (user_calls params params.user_targets) [] [] p → IsComplete p
  Ends-IsComplete p (completed c) =
      pushed_all c.all c.returned c.called (omega (arith, c.counted, ap length c.called))
        c.committed
  Ends-IsComplete p (failed done rest r called split) =
      stopped rest r (split ∙ sym (ap (λ t. t ++ rest) called))

  -- RunGitPushPipeline either returns responses, each with a commit, as many as it has made calls,
  -- and the calls are those for every target of every user, in order; or it fails, and the calls
  -- are a first part of those.
  pub run_git_push_pipeline-IsComplete : IsComplete (run_git_push_pipeline run params)
  unfolding run_git_push_pipeline
  run_git_push_pipeline-IsComplete =
      Ends-IsComplete (push_users run params params.user_targets [] [])
        (push_users-Ends params.user_targets [] [] tt)
