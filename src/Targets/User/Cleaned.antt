-- ===== src/Targets/User/Cleaned.antt =====
-- What a run of the policy of the users' targets leaves of the targets, and what a clean-up
-- (internal/policy/userspecific_policy.go).
use Prim.Native.Char.{Char}
use mathlib.Core.Path.{subst}
use syngit.Common.{String, Bool, true, not, Option, List, string_eq, ◌≡◌, refl, sym, ◌⊎◌, In}
use syngit.Common.Errors.{Error, Result, ok, Returns, Returns-bind, Returns-ok, Returns-intro}
use syngit.Api.{RemoteTarget, Syncer, rt_annotation_key_user_specific}
use syngit.Targets.{Store, Call, has_key, get_other_syncers_with}
use syngit.Targets.Losses.{Loses, Loses-map}
use syngit.Targets.Reads.{get_other_syncers_with-other_syncers}
use syngit.Targets.Shrinks.{IsGone, IsTrue, not-eq-true}
use syngit.Targets.Sweep.{sweep, sweep-Loses, sweep-IsGone}
use syngit.Targets.User.{is_rt_used_by_other_syncer, remove, list_user_specific_targets, cleanup}
use syngit.Targets.User.Grows.{Grows}
use syngit.Targets.User.Kept.{
  matching, others_of, IsOrphan, remove-Loses, remove-IsGone, list_user_specific_targets-matching,
  matching-In, IsOrphan-matching,
}

module _ (path_of : String → Result String) (to_lower : Char → Char)
    (fault : Call → Store → Option Error) (syncer : Syncer) where
  IsCleanedUp : Store → Store → Type 0
  IsCleanedUp s t =
      ((rt : RemoteTarget) → IsOrphan syncer s rt → IsGone rt t)
      × Loses (λ lost. (rt : RemoteTarget) × IsOrphan syncer s rt × (has_key rt lost ≡ true)) s t

  unused_by : List Syncer → RemoteTarget → Bool
  unused_by others rt = not (is_rt_used_by_other_syncer others rt)

  swept-IsCleanedUp :
      (s : Store)
      → IsTrue fault
      → Returns (IsCleanedUp s) (
          sweep
            (λ rt. rt)
            (remove path_of to_lower fault syncer)
            (unused_by (others_of syncer s))
            (matching syncer s)
            s)
  unfolding IsCleanedUp unused_by
  swept-IsCleanedUp s honest =
      let remove_it = remove path_of to_lower fault syncer in
      let stale = unused_by (others_of syncer s) in
      let swept = sweep (λ rt. rt) remove_it stale (matching syncer s) s in
      Returns-intro (IsCleanedUp s) swept λ t at.
        let (gone, less) =
          Returns-ok _ swept
            (sweep-IsGone (λ rt. rt) remove_it stale
              (λ rt u. remove-IsGone path_of to_lower fault syncer rt u honest) (matching syncer s)
              s)
            at in
        (
          λ rt (stored, of_policy, of_upstream, unused).
              gone rt
                (IsOrphan-matching path_of to_lower fault syncer s rt
                  (stored, of_policy, of_upstream, unused))
                (rw unused refl),
          Loses-map _ _ s t
              (λ lost (rt, m, unused, same).
                let (stored, of_policy, of_upstream) =
                  matching-In path_of to_lower fault syncer s rt m in
                (rt, (stored, of_policy, of_upstream, not-eq-true _ unused), same))
              (Returns-ok _ swept
                (sweep-Loses (λ rt. rt) remove_it stale (remove-Loses path_of to_lower fault syncer)
                  (matching syncer s) s)
                at),
        )

  cleanup-IsCleanedUp :
      (s : Store) → IsTrue fault → Returns (IsCleanedUp s) (cleanup path_of to_lower fault syncer s)
  unfolding cleanup unused_by
  cleanup-IsCleanedUp s honest =
      Returns-bind _ (list_user_specific_targets path_of to_lower fault syncer s) _ λ rts at.
        Returns-bind _ (get_other_syncers_with fault syncer rt_annotation_key_user_specific s) _
          λ others found.
            subst
              (λ (p : List Syncer × List RemoteTarget).
                Returns (IsCleanedUp s)
                  (sweep (λ rt. rt) (remove path_of to_lower fault syncer) (unused_by p.0) p.1 s))
              (λ i. (
                sym
                    (Returns-ok (λ o. o ≡ others_of syncer s) _
                      (get_other_syncers_with-other_syncers fault syncer
                        rt_annotation_key_user_specific s)
                      found)
                    i,
                sym
                    (Returns-ok (λ r. r ≡ matching syncer s) _
                      (list_user_specific_targets-matching path_of to_lower fault syncer s) at)
                    i,
              ))
              (swept-IsCleanedUp s honest)

  -- A clean-up of the policy of the users' targets that ends without an error leaves nothing of an
  -- orphan: no target is stored under its name, and no managed binding of its namespace refers to it.
  -- An orphan is a stored target, managed under that policy in the namespace and of the syncer's
  -- upstream, where no other syncer with that policy has this upstream. It is assumed that the API
  -- server never fails the deletion of a target with "not found" of its own accord.
  pub user_cleanup-IsGone :
      (s t : Store) (rt : RemoteTarget)
      → IsTrue fault
      → cleanup path_of to_lower fault syncer s ≡ ok t
      → IsOrphan syncer s rt
      → IsGone rt t
  unfolding IsCleanedUp
  user_cleanup-IsGone s t rt honest at =
      (Returns-ok (IsCleanedUp s) _ (cleanup-IsCleanedUp s honest) at).0 rt

  -- Such a clean-up keeps each stored target that does not have the name of an orphan.
  pub user_cleanup-IsOrphan :
      (s t : Store) (kept : RemoteTarget)
      → IsTrue fault
      → cleanup path_of to_lower fault syncer s ≡ ok t
      → In kept s.targets
      → In kept t.targets ⊎ (rt : RemoteTarget) × IsOrphan syncer s rt × (has_key rt kept ≡ true)
  unfolding IsCleanedUp
  user_cleanup-IsOrphan s t kept honest at =
      (Returns-ok (IsCleanedUp s) _ (cleanup-IsCleanedUp s honest) at).1 kept
