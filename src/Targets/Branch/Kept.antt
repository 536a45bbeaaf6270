-- ===== src/Targets/Branch/Kept.antt =====
-- What the policy of the branches keeps (internal/policy/branchtarget_policy.go).
use Prim.Native.Char.{Char}
use mathlib.Core.Path.{subst}
use syngit.Common.{
  String, true, false, Option, List, [], ◌∷◌, ◌==◌, string_eq, select, contains, ◌≡◌, refl, sym, ap,
  ◌∙◌, ◌⊎◌, inl, inr, In, here, there, select-In, All, Bool-cases, Option-cases, &&-eq-true,
}
use syngit.Common.Errors.{Error, Result, Returns, Returns-bind, Returns-map, Returns-ok}
use syngit.Api.{
  RemoteTarget, Syncer, rt_label_value_one_or_many_branches, rt_annotation_key_one_or_many_branches,
}
use syngit.Targets.{
  Store, Call, has_key, create, delete, clear, or_exists, or_not_found, other_syncers,
  filter_by_upstream, list_policy_targets, is_policy_target, has_upstream, put_target, find_target,
}
use syngit.Targets.Losses.{
  Loses, Loses-trans, Loses-map, SameSyncers, or_exists-Returns, or_not_found-Returns, create-Loses,
  create-SameSyncers, delete-Loses, clear-targets,
}
use syngit.Targets.Reads.{list_policy_targets-select}
use syngit.Targets.Shrinks.{not-eq-true}
use syngit.Targets.Sweep.{sweep, sweep-Loses}
use syngit.Targets.Branch.{
  is_orphaned, listed_branches, is_branch_used_by_other_syncer, existing_branches,
  build_remote_target, create_missing, remove, prune, own_targets, namespace, repo, upstream,
}

-- The entries of the map come from the list.
abbrev pub IsEntry : List RemoteTarget → String × RemoteTarget → Type 0
IsEntry rts e = In e.1 rts × (e.1.spec.target_branch ≡ e.0)

put_target-IsEntry :
    (rts : List RemoteTarget) (rt : RemoteTarget) (m : List (String × RemoteTarget))
    → In rt rts
    → All (IsEntry rts) m
    → All (IsEntry rts) (put_target rt.spec.target_branch rt m)
unfolding put_target
put_target-IsEntry rts rt [] at h = ((at, refl), tt)
put_target-IsEntry rts rt ((k, old) ∷ m) at h = elim (Bool-cases (k == rt.spec.target_branch)) [
  | inl same ↦
      rw (same, put_target) ((at, sym ((string_eq.beq_iff k rt.spec.target_branch).0 same)), h.1)
  | inr other ↦ rw (other, put_target) (h.0, put_target-IsEntry rts rt m at h.1)
]

pub existing_branches-IsEntry :
    (all_rts rts : List RemoteTarget) (m : List (String × RemoteTarget))
    → ((rt : RemoteTarget) → In rt rts → In rt all_rts)
    → All (IsEntry all_rts) m
    → All (IsEntry all_rts) (existing_branches rts m)
unfolding existing_branches
existing_branches-IsEntry all_rts [] m inside h = h
existing_branches-IsEntry all_rts (rt ∷ rts) m inside h =
    existing_branches-IsEntry all_rts rts (put_target rt.spec.target_branch rt m)
      (λ x at. inside x (there at)) (put_target-IsEntry all_rts rt m (inside rt (here refl)) h)

-- A managed target of the policy in the namespace, of the syncer's upstream, whose branch no other
-- syncer uses.
abbrev pub IsOrphan : Syncer → Store → RemoteTarget → Type 0
IsOrphan syncer s rt =
    In rt s.targets
    × (is_policy_target rt_label_value_one_or_many_branches (namespace syncer) rt ≡ true)
    × (has_upstream (repo syncer) (upstream syncer) rt ≡ true)
    × (is_branch_used_by_other_syncer rt.spec.target_branch (repo syncer) (upstream syncer)
          (other_syncers syncer rt_annotation_key_one_or_many_branches s)
        ≡ false)

-- A target of its name was an orphan, and the syncer does not list its branch.
abbrev pub IsPruned : Syncer → Store → RemoteTarget → Type 0
IsPruned syncer s lost =
    (rt : RemoteTarget) × IsOrphan syncer s rt
    × (contains (listed_branches syncer) rt.spec.target_branch ≡ false)
    × (has_key rt lost ≡ true)

abbrev pub listed : Syncer → Store → List RemoteTarget
listed syncer s =
    select (is_policy_target rt_label_value_one_or_many_branches (namespace syncer)) s.targets

abbrev pub matching : Syncer → Store → List RemoteTarget
matching syncer s = filter_by_upstream (repo syncer) (upstream syncer) (listed syncer s)

module _ (path_of : String → Result String) (to_lower : Char → Char)
    (fault : Call → Store → Option Error) (syncer : Syncer) where
  pub remove-Loses :
      (rt : RemoteTarget) (s : Store)
      → Returns
          (Loses (λ lost. has_key rt lost ≡ true) s)
          (remove path_of to_lower fault syncer rt s)
  unfolding remove
  remove-Loses rt s = Returns-bind _ (or_not_found fault s (delete fault rt s)) _ λ t at.
      Returns-map _ _ (clear fault rt t)
        (λ u same.
          subst
            (λ ts. (old : RemoteTarget) → In old s.targets → In old ts ⊎ (has_key rt old ≡ true))
            (sym same)
            (Returns-ok (Loses (λ lost. has_key rt lost ≡ true) s) _
              (or_not_found-Returns fault _ s (delete fault rt s) (λ old m. inl m)
                (delete-Loses fault rt s))
              at))
        (clear-targets fault rt t)

  pub create_missing-Loses :
      (P : RemoteTarget → Type 0) (branches : List String) (existing : List (String × RemoteTarget))
      (s : Store)
      → Returns
          (λ s'. Loses P s s' × SameSyncers s s')
          (create_missing path_of to_lower fault syncer branches existing s)
  unfolding create_missing
  create_missing-Loses P [] existing s = (λ rt m. inl m, (refl, refl))
  create_missing-Loses P (branch ∷ branches) existing s =
      elim (Option-cases (find_target branch existing)) [
        | inr (rt, found) ↦ rw (create_missing, found) (create_missing-Loses P branches existing s)
        | inl missing ↦
            rw (create_missing, missing)
              (Returns-bind _ (build_remote_target path_of to_lower fault syncer branch) _
                λ rt built. Returns-bind _ (or_exists fault s (create fault rt s)) _ λ t at.
                  let kept : Loses P s t =
                    Returns-ok (Loses P s) _
                      (or_exists-Returns fault (Loses P s) s (create fault rt s) (λ old m. inl m)
                        (create-Loses fault P rt s))
                      at in
                  let same : SameSyncers s t =
                    Returns-ok (SameSyncers s) _
                      (or_exists-Returns fault (SameSyncers s) s (create fault rt s) (refl, refl)
                        (create-SameSyncers fault rt s))
                      at in
                  Returns-map _ _ (create_missing path_of to_lower fault syncer branches existing t)
                    (λ u (more, (first, second)).
                      (Loses-trans P s t u kept more, (first ∙ same.0, second ∙ same.1)))
                    (create_missing-Loses P branches existing t))
      ]

  -- A target that the run may delete.
  abbrev pub Prunable :
      List String → List Syncer → List (String × RemoteTarget) → RemoteTarget → Type 0
  Prunable desired others existing lost =
      (branch : String) × (rt : RemoteTarget) × In (branch, rt) existing
      × (contains desired branch ≡ false)
      × (is_branch_used_by_other_syncer branch (repo syncer) (upstream syncer) others ≡ false)
      × (has_key rt lost ≡ true)

  pub prune-Pruned :
      (desired : List String) (others : List Syncer) (existing : List (String × RemoteTarget))
      (s : Store)
      → Returns
          (Loses (Prunable desired others existing) s)
          (prune path_of to_lower fault syncer desired others existing s)
  unfolding prune
  prune-Pruned desired others existing s =
      let stale = is_orphaned path_of to_lower fault syncer desired others in
      let remove_it = remove path_of to_lower fault syncer in
      Returns-map _ _ (sweep (λ e. e.1) remove_it stale existing s)
        (λ t.
          Loses-map _ (Prunable desired others existing) s t
            (λ lost ((branch, rt), m, orphaned, same).
              let (unwanted, unused) = &&-eq-true _ _ orphaned in
              (branch, rt, m, not-eq-true _ unwanted, not-eq-true _ unused, same)))
        (sweep-Loses (λ e. e.1) remove_it stale remove-Loses existing s)

  pub own_targets-matching :
      (s : Store)
      → Returns (λ rts. rts ≡ matching syncer s) (own_targets path_of to_lower fault syncer s)
  own_targets-matching s =
      Returns-bind _
        (list_policy_targets fault rt_label_value_one_or_many_branches (namespace syncer) s) _
        λ rts at. ap (filter_by_upstream (repo syncer) (upstream syncer)) (
          Returns-ok (λ rts'. rts' ≡ listed syncer s) _
            (list_policy_targets-select fault rt_label_value_one_or_many_branches (namespace syncer)
              s)
            at)

  pub matching-In :
      (s : Store) (rt : RemoteTarget)
      → In rt (matching syncer s)
      → In rt s.targets
        × (is_policy_target rt_label_value_one_or_many_branches (namespace syncer) rt ≡ true)
        × (has_upstream (repo syncer) (upstream syncer) rt ≡ true)
  unfolding filter_by_upstream
  matching-In s rt m =
      let (n, of_upstream) = select-In (has_upstream (repo syncer) (upstream syncer)) _ m in
      let (stored, of_policy) =
        select-In (is_policy_target rt_label_value_one_or_many_branches (namespace syncer))
          s.targets n in
      (stored, of_policy, of_upstream)
