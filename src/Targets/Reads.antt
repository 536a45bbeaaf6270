-- ===== src/Targets/Reads.antt =====
-- What the reads of the policies answer (internal/policy/syncers.go).
use syngit.Common.{String, Option, select, ◌≡◌, refl}
use syngit.Common.Errors.{Error, Returns}
use syngit.Api.{Syncer}
use syngit.Targets.{
  Store, Call, list_targets, list_remote_syncers, list_cluster_wide_remote_syncers, other_syncers,
  get_other_syncers_with, list_policy_targets, is_policy_target,
}
use syngit.Targets.Losses.{SameSyncers, attempt-Returns}

pub get_other_syncers_with-other_syncers :
    (fault : Call → Store → Option Error) (self : Syncer) (annotation_key : String) (s : Store)
    → Returns
        (λ others. others ≡ other_syncers self annotation_key s)
        (get_other_syncers_with fault self annotation_key s)
unfolding get_other_syncers_with
get_other_syncers_with-other_syncers fault self annotation_key s =
    attempt-Returns fault _ list_remote_syncers s _
      (attempt-Returns fault _ list_cluster_wide_remote_syncers s _ refl)

pub list_policy_targets-select :
    (fault : Call → Store → Option Error) (policy namespace : String) (s : Store)
    → Returns
        (λ rts. rts ≡ select (is_policy_target policy namespace) s.targets)
        (list_policy_targets fault policy namespace s)
unfolding list_policy_targets
list_policy_targets-select fault policy namespace s =
    attempt-Returns fault (λ rts. rts ≡ select (is_policy_target policy namespace) s.targets)
      list_targets s _ refl

pub other_syncers-SameSyncers :
    (self : Syncer) (annotation_key : String) (s t : Store)
    → SameSyncers s t
    → other_syncers self annotation_key t ≡ other_syncers self annotation_key s
unfolding other_syncers
other_syncers-SameSyncers self annotation_key s t h = rw (h.0, h.1) refl
