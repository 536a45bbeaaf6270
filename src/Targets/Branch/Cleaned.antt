-- ===== src/Targets/Branch/Cleaned.antt =====
-- What the clean-up of the policy of the branches leaves (internal/policy/branchtarget_policy.go).
use Prim.Native.Char.{Char}
use mathlib.Core.Path.{subst}
use syngit.Common.{String, true, Option, List, ◌≡◌, ◌⊎◌, refl, sym, In, In-select}
use syngit.Common.Errors.{
  Error, Result, ok, Returns, Returns-bind, Returns-map, Returns-ok, Returns-intro,
}
use syngit.Api.{
  RemoteTarget, Syncer, rt_annotation_key_one_or_many_branches, rt_label_value_one_or_many_branches,
}
use syngit.Targets.{
  Store, Call, has_key, delete, clear, or_not_found, other_syncers, get_other_syncers_with,
  filter_by_upstream, is_policy_target, has_upstream,
}
use syngit.Targets.Losses.{Loses, Loses-map}
use syngit.Targets.Reads.{get_other_syncers_with-other_syncers}
use syngit.Targets.Shrinks.{
  IsDropped, IsGone, Shrinks, Shrinks-trans, IsDropped-Shrinks, IsTrue, delete-IsDropped,
  clear-IsUnbound, not-eq-true,
}
use syngit.Targets.Sweep.{sweep, sweep-Loses, sweep-IsGone}
use syngit.Targets.Branch.{
  is_unused, remove, clean, cleanup, own_targets, namespace, repo, upstream,
}
use syngit.Targets.Branch.Kept.{
  IsOrphan, listed, matching, own_targets-matching, matching-In, remove-Loses,
}

module _ (path_of : String → Result String) (to_lower : Char → Char)
    (fault : Call → Store → Option Error) (syncer : Syncer) where
  remove-IsGone :
      (rt : RemoteTarget) (s : Store)
      → IsTrue fault
      → Returns (λ t. IsGone rt t × Shrinks s t) (remove path_of to_lower fault syncer rt s)
  unfolding remove
  remove-IsGone rt s honest = Returns-bind _ (or_not_found fault s (delete fault rt s)) _ λ t at.
      let (dropped, less) =
        Returns-ok (λ t'. IsDropped rt t' × Shrinks s t') _ (delete-IsDropped fault rt s honest)
          at in
      Returns-map _ _ (clear fault rt t)
        (λ u (unbound, lesser).
          ((IsDropped-Shrinks rt t u lesser dropped, unbound), Shrinks-trans s t u less lesser))
        (clear-IsUnbound fault rt t)

  IsOrphan-matching :
      (s : Store) (rt : RemoteTarget) → IsOrphan syncer s rt → In rt (matching syncer s)
  unfolding filter_by_upstream
  IsOrphan-matching s rt (stored, of_policy, of_upstream, unused) =
      In-select (has_upstream (repo syncer) (upstream syncer)) (listed syncer s)
        (In-select (is_policy_target rt_label_value_one_or_many_branches (namespace syncer))
          s.targets stored of_policy)
        of_upstream

  -- The clean-up of the syncer's orphans, and nothing else.
  abbrev pub IsCleanedUp : Store → Store → Type 0
  IsCleanedUp s t =
      ((rt : RemoteTarget) → IsOrphan syncer s rt → IsGone rt t)
      × Loses (λ lost. (rt : RemoteTarget) × IsOrphan syncer s rt × (has_key rt lost ≡ true)) s t

  others_of : Store → List Syncer
  others_of s = other_syncers syncer rt_annotation_key_one_or_many_branches s

  clean-IsCleanedUp :
      (s : Store)
      → IsTrue fault
      → Returns
          (IsCleanedUp s)
          (clean path_of to_lower fault syncer (others_of s) (matching syncer s) s)
  unfolding others_of clean
  clean-IsCleanedUp s honest =
      let stale = is_unused path_of to_lower fault syncer (others_of s) in
      let remove_it = remove path_of to_lower fault syncer in
      let cleaned = sweep (λ rt. rt) remove_it stale (matching syncer s) s in
      Returns-intro (IsCleanedUp s) cleaned λ t at.
        let (gone, less) =
          Returns-ok _ cleaned
            (sweep-IsGone (λ rt. rt) remove_it stale (λ rt u. remove-IsGone rt u honest)
              (matching syncer s) s)
            at in
        (
          λ rt (stored, of_policy, of_upstream, unused).
              gone rt (IsOrphan-matching s rt (stored, of_policy, of_upstream, unused))
                (rw unused refl),
          Loses-map _ _ s t
              (λ lost (rt, m, unused, same).
                let (stored, of_policy, of_upstream) =
                  matching-In path_of to_lower fault syncer s rt m in
                (rt, (stored, of_policy, of_upstream, not-eq-true _ unused), same))
              (Returns-ok _ cleaned
                (sweep-Loses (λ rt. rt) remove_it stale (remove-Loses path_of to_lower fault syncer)
                  (matching syncer s) s)
                at),
        )

  cleanup-IsCleanedUp :
      (s : Store) → IsTrue fault → Returns (IsCleanedUp s) (cleanup path_of to_lower fault syncer s)
  unfolding cleanup others_of
  cleanup-IsCleanedUp s honest =
      Returns-bind _ (own_targets path_of to_lower fault syncer s) _ λ rts at.
        Returns-bind _
          (get_other_syncers_with fault syncer rt_annotation_key_one_or_many_branches s) _
          λ others found.
            subst
              (λ (p : List Syncer × List RemoteTarget).
                Returns (IsCleanedUp s) (clean path_of to_lower fault syncer p.0 p.1 s))
              (λ i. (
                sym
                    (Returns-ok (λ o. o ≡ others_of s) _
                      (get_other_syncers_with-other_syncers fault syncer
                        rt_annotation_key_one_or_many_branches s)
                      found)
                    i,
                sym
                    (Returns-ok (λ r. r ≡ matching syncer s) _
                      (own_targets-matching path_of to_lower fault syncer s) at)
                    i,
              ))
              (clean-IsCleanedUp s honest)

  -- A clean-up of the policy of the branches that ends without an error leaves nothing of an orphan:
  -- of a stored target, managed under that policy in the namespace and of the syncer's upstream, whose
  -- branch no other syncer uses. No target is stored under its name, and no managed binding of its
  -- namespace refers to it. It is assumed that the API server never fails the deletion of a target
  -- with "not found" of its own accord.
  pub cleanup-IsGone :
      (s t : Store) (rt : RemoteTarget)
      → IsTrue fault
      → cleanup path_of to_lower fault syncer s ≡ ok t
      → IsOrphan syncer s rt
      → IsGone rt t
  cleanup-IsGone s t rt honest at =
      (Returns-ok (IsCleanedUp s) _ (cleanup-IsCleanedUp s honest) at).0 rt

  -- Such a clean-up keeps each stored target that does not have the name of an orphan.
  pub cleanup-IsOrphan :
      (s t : Store) (kept : RemoteTarget)
      → IsTrue fault
      → cleanup path_of to_lower fault syncer s ≡ ok t
      → In kept s.targets
      → In kept t.targets ⊎ (rt : RemoteTarget) × IsOrphan syncer s rt × (has_key rt kept ≡ true)
  cleanup-IsOrphan s t kept honest at =
      (Returns-ok (IsCleanedUp s) _ (cleanup-IsCleanedUp s honest) at).1 kept
