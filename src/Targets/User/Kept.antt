-- ===== src/Targets/User/Kept.antt =====
-- What the policy of the users' targets keeps and what its clean-up leaves
-- (internal/policy/userspecific_policy.go).
use Prim.Native.Char.{Char}
use mathlib.Core.Path.{subst}
use syngit.Common.{
  String, Bool, true, false, ◌==◌, Option, List, [], ◌∷◌, string_eq, select, contains, ◌≡◌, refl,
  sym, ap, ◌∙◌, ◌⊎◌, inl, inr, In, here, there, In-select, select-In, All, All-at, Bool-cases,
  &&-eq-true,
}
use syngit.Common.Errors.{Error, Result, Returns, Returns-bind, Returns-map, Returns-ok}
use syngit.Api.{
  RemoteTarget, RemoteUserBinding, Syncer, syncer_spec, identity_namespace,
  rt_annotation_key_user_specific, rt_label_value_one_user_one_branch,
}
use syngit.Managed.{is_managed}
use syngit.Targets.{
  Store, Call, has_key, delete, clear, or_not_found, other_syncers, get_other_syncers_with,
  filter_by_upstream, list_policy_targets, is_policy_target, has_upstream, put_target,
}
use syngit.Targets.Losses.{
  Loses, Loses-map, SameSyncers, or_not_found-Returns, delete-Loses, clear-targets,
}
use syngit.Targets.Reads.{
  get_other_syncers_with-other_syncers, list_policy_targets-select, other_syncers-SameSyncers,
}
use syngit.Targets.Shrinks.{
  IsGone, IsTrue, Shrinks, Shrinks-trans, IsUnbound, delete-IsDropped, clear-IsUnbound, not-eq-true,
}
use syngit.Targets.Sweep.{sweep, sweep-Loses}
use syngit.Targets.User.{
  is_rt_used_by_other_syncer, user_of_target, existing_by_user, active_users, remove, is_stale,
  prune_stale_targets, list_user_specific_targets,
}

abbrev pub listed : Syncer → Store → List RemoteTarget
listed syncer s =
    select (is_policy_target rt_label_value_one_user_one_branch (identity_namespace syncer))
      s.targets

abbrev pub matching : Syncer → Store → List RemoteTarget
matching syncer s =
    filter_by_upstream (syncer_spec syncer).remote_repository (syncer_spec syncer).default_branch
      (listed syncer s)

abbrev pub others_of : Syncer → Store → List Syncer
others_of syncer s = other_syncers syncer rt_annotation_key_user_specific s

abbrev pub managed_of : Syncer → Store → List RemoteUserBinding
managed_of syncer s = select (is_managed (identity_namespace syncer)) s.bindings

-- A target of the syncer's upstream, managed under the policy of the users in the namespace, and no
-- other syncer with that policy has this upstream.
abbrev pub IsOrphan : Syncer → Store → RemoteTarget → Type 0
IsOrphan syncer s rt =
    In rt s.targets
    × (is_policy_target rt_label_value_one_user_one_branch (identity_namespace syncer) rt ≡ true)
    × (has_upstream (syncer_spec syncer).remote_repository (syncer_spec syncer).default_branch rt
        ≡ true)
    × (is_rt_used_by_other_syncer (others_of syncer s) rt ≡ false)

-- A target of its name was an orphan, and no managed binding of the namespace is of its user.
abbrev pub IsPruned : Syncer → Store → RemoteTarget → Type 0
IsPruned syncer s lost =
    (rt : RemoteTarget) × IsOrphan syncer s rt
    × (contains (active_users (managed_of syncer s)) (user_of_target rt) ≡ false)
    × (has_key rt lost ≡ true)

-- The entries of the map come from the list.
abbrev IsEntry : List RemoteTarget → String × RemoteTarget → Type 0
IsEntry rts e = In e.1 rts × (user_of_target e.1 ≡ e.0)

put_target-IsEntry :
    (rts : List RemoteTarget) (rt : RemoteTarget) (m : List (String × RemoteTarget))
    → In rt rts
    → All (IsEntry rts) m
    → All (IsEntry rts) (put_target (user_of_target rt) rt m)
unfolding put_target
put_target-IsEntry rts rt [] at h = ((at, refl), tt)
put_target-IsEntry rts rt ((k, old) ∷ m) at h = elim (Bool-cases (k == user_of_target rt)) [
  | inl same ↦
      rw (same, put_target) ((at, sym ((string_eq.beq_iff k (user_of_target rt)).0 same)), h.1)
  | inr other ↦ rw (other, put_target) (h.0, put_target-IsEntry rts rt m at h.1)
]

existing_by_user-IsEntry :
    (all_rts rts : List RemoteTarget) (m : List (String × RemoteTarget))
    → ((rt : RemoteTarget) → In rt rts → In rt all_rts)
    → All (IsEntry all_rts) m
    → All (IsEntry all_rts) (existing_by_user rts m)
unfolding existing_by_user
existing_by_user-IsEntry all_rts [] m inside h = h
existing_by_user-IsEntry all_rts (rt ∷ rts) m inside h =
    elim (Bool-cases (user_of_target rt == "")) [
      | inl nobody ↦
          rw (nobody, existing_by_user)
            (existing_by_user-IsEntry all_rts rts m (λ x at. inside x (there at)) h)
      | inr somebody ↦
          rw (somebody, existing_by_user)
            (existing_by_user-IsEntry all_rts rts (put_target (user_of_target rt) rt m)
              (λ x at. inside x (there at))
              (put_target-IsEntry all_rts rt m (inside rt (here refl)) h))
    ]

module _ (path_of : String → Result String) (to_lower : Char → Char)
    (fault : Call → Store → Option Error) (syncer : Syncer) where
  pub remove-Loses :
      (rt : RemoteTarget) (s : Store)
      → Returns
          (Loses (λ lost. has_key rt lost ≡ true) s)
          (remove path_of to_lower fault syncer rt s)
  unfolding remove
  remove-Loses rt s = Returns-bind _ (clear fault rt s) _ λ t at.
      subst
        (λ ts.
          Returns (λ u. (x : RemoteTarget) → In x ts → In x u.targets ⊎ (has_key rt x ≡ true))
            (or_not_found fault t (delete fault rt t)))
        (Returns-ok (λ t'. t'.targets ≡ s.targets) _ (clear-targets fault rt s) at)
        (or_not_found-Returns fault (Loses (λ lost. has_key rt lost ≡ true) t) t (delete fault rt t)
          (λ x m. inl m) (delete-Loses fault rt t))

  pub remove-IsGone :
      (rt : RemoteTarget) (s : Store)
      → IsTrue fault
      → Returns (λ t. IsGone rt t × Shrinks s t) (remove path_of to_lower fault syncer rt s)
  unfolding remove
  remove-IsGone rt s honest = Returns-bind _ (clear fault rt s) _ λ t at.
      let (unbound, less) =
        Returns-ok (λ t'. IsUnbound rt t' × Shrinks s t') _ (clear-IsUnbound fault rt s) at in
      Returns-map _ _ (or_not_found fault t (delete fault rt t))
        (λ u (dropped, lesser). ((dropped, lesser.1 rt unbound), Shrinks-trans s t u less lesser))
        (delete-IsDropped fault rt t honest)

  pub list_user_specific_targets-matching :
      (s : Store)
      → Returns
          (λ rts. rts ≡ matching syncer s)
          (list_user_specific_targets path_of to_lower fault syncer s)
  unfolding list_user_specific_targets
  list_user_specific_targets-matching s =
      Returns-bind _
        (list_policy_targets fault rt_label_value_one_user_one_branch (identity_namespace syncer) s)
        _
        λ rts at.
          ap
            (filter_by_upstream (syncer_spec syncer).remote_repository
              (syncer_spec syncer).default_branch)
            (Returns-ok (λ rts'. rts' ≡ listed syncer s) _
              (list_policy_targets-select fault rt_label_value_one_user_one_branch
                (identity_namespace syncer) s)
              at)

  pub matching-In :
      (s : Store) (rt : RemoteTarget)
      → In rt (matching syncer s)
      → In rt s.targets
        × (is_policy_target rt_label_value_one_user_one_branch (identity_namespace syncer) rt
            ≡ true)
        × (has_upstream
              (syncer_spec syncer).remote_repository
              (syncer_spec syncer).default_branch
              rt
            ≡ true)
  unfolding filter_by_upstream
  matching-In s rt m =
      let (n, of_upstream) =
        select-In
          (has_upstream (syncer_spec syncer).remote_repository (syncer_spec syncer).default_branch)
          _ m in
      let (stored, of_policy) =
        select-In (is_policy_target rt_label_value_one_user_one_branch (identity_namespace syncer))
          s.targets n in
      (stored, of_policy, of_upstream)

  pub IsOrphan-matching :
      (s : Store) (rt : RemoteTarget) → IsOrphan syncer s rt → In rt (matching syncer s)
  unfolding filter_by_upstream
  IsOrphan-matching s rt (stored, of_policy, of_upstream, unused) =
      In-select
        (has_upstream (syncer_spec syncer).remote_repository (syncer_spec syncer).default_branch)
        (listed syncer s)
        (In-select (is_policy_target rt_label_value_one_user_one_branch (identity_namespace syncer))
          s.targets stored of_policy)
        of_upstream

  pub prune-Loses :
      (rubs : List RemoteUserBinding) (s t : Store)
      → SameSyncers s t
      → contains (active_users rubs) ≡ contains (active_users (managed_of syncer s))
      → Returns (Loses (IsPruned syncer s) t) (
          prune_stale_targets path_of to_lower fault syncer
            (existing_by_user (matching syncer s) [])
            (active_users rubs)
            t)
  unfolding prune_stale_targets
  prune-Loses rubs s t same active =
      let existing = existing_by_user (matching syncer s) [] in
      Returns-bind _ (get_other_syncers_with fault syncer rt_annotation_key_user_specific t) _
        λ others found.
          let collected =
            Returns-ok (λ o. o ≡ others_of syncer t) _
              (get_other_syncers_with-other_syncers fault syncer rt_annotation_key_user_specific t)
              found
            ∙ other_syncers-SameSyncers syncer rt_annotation_key_user_specific s t same in
          let remove_it = remove path_of to_lower fault syncer in
          let stale = is_stale path_of to_lower fault syncer others (active_users rubs) in
          Returns-map _ _ (sweep (λ e. e.1) remove_it stale existing t)
            (λ u. Loses-map _ (IsPruned syncer s) t u (λ lost ((user, rt), m, h, key).
              let (inactive, unused) = &&-eq-true _ _ h in
              let (at, named) = All-at (IsEntry (matching syncer s)) m (
                existing_by_user-IsEntry (matching syncer s) (matching syncer s) [] (λ x n. n)
                  tt) in
              let (stored, of_policy, of_upstream) = matching-In s rt at in
              (
                rt,
                (
                  stored,
                  of_policy,
                  of_upstream,
                  ap (λ o. is_rt_used_by_other_syncer o rt) (sym collected) ∙ not-eq-true _ unused,
                ),
                ap (contains (active_users (managed_of syncer s))) named
                    ∙ ap (λ (c : String → Bool). c user) (sym active)
                    ∙ not-eq-true _ inactive,
                key,
              )))
            (sweep-Loses (λ e. e.1) remove_it stale remove-Loses existing t)
