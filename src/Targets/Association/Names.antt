-- ===== src/Targets/Association/Names.antt =====
-- The names that are tried for a user's binding (internal/policy/association_policy.go).
use syngit.Common.{
  ℕ, zero, suc, ◌+◌, ◌<◌, ◌≤◌, String, true, false, Option, none, some, List, [], ◌∷◌, ◌++◌, any,
  ◌≡◌, ◌≢◌, refl, sym, ap, ◌∙◌, ◌⊎◌, inl, inr, In, here, In-any, select-In, Bool-cases, arith,
  select,
}
use syngit.Common.Errors.{Error, Result, ok, err, ◌>>=◌, already_exists}
use syngit.Api.{RemoteUser, RemoteUserBinding}
use syngit.Managed.{has_name, find, write}
use syngit.Managed.Names.{any-find, has_name_refl, mutate_or_delete-write}
use syngit.Targets.{
  Store, Call, list_bindings, list_targets, get_binding, create_binding, add_ref, attempt,
  with_bindings, is_policy_target, list_policy_targets,
}
use syngit.Targets.Association.{
  sanitized_of, is_of_user, is_listed, candidate, max_attempts, or_missing, create_rub, get_rub,
  reuse, claim, try_names, first_or_new, list_rubs, find_or_create_managed_rub, change_rub,
}

module _ (fault : Call → Store → Option Error)
    (fine : (call : Call) (s : Store) → fault call s ≡ none) (remote_user : RemoteUser) where
  attempt_fine {ℓ} :
      {A : Type ℓ} (call : Call) (s : Store) (r : Result A) → attempt fault call s r ≡ r
  unfolding attempt
  attempt_fine call s r = rw (attempt, fine call s) refl

  Claim : ℕ → Store → Result (Option (RemoteUserBinding × Store))
  Claim i s =
      claim fault remote_user (candidate fault remote_user i) s
        (create_rub fault remote_user (candidate fault remote_user i) s)

  get_rub_fine :
      (rub : RemoteUserBinding) (s : Store)
      → get_rub fault remote_user rub s ≡ or_missing (find rub s.bindings)
  unfolding get_rub
  get_rub_fine rub s = attempt_fine (get_binding rub) s (or_missing (find rub s.bindings))

  -- A claim of a free name succeeds; one of a taken name fails at most by being no claim.
  Claim-cases :
      (i : ℕ) (s : Store)
      → ((p : RemoteUserBinding × Store) × (Claim i s ≡ ok (some p)))
        ⊎ ((Claim i s ≡ ok none)
            × (any (has_name (candidate fault remote_user i)) s.bindings ≡ true))
  unfolding Claim claim create_rub reuse
  Claim-cases i s =
      let rub = candidate fault remote_user i in
      elim (Bool-cases (any (has_name rub) s.bindings)) [
        | inr free ↦
            let made : create_rub fault remote_user rub s
                ≡ ok (with_bindings s (s.bindings ++ rub ∷ [])) =
              attempt_fine (create_binding rub) s _ ∙ rw free refl in
            inl (
              (rub, with_bindings s (s.bindings ++ rub ∷ [])),
              ap (claim fault remote_user rub s) made,
            )
        | inl taken ↦
            let refused : create_rub fault remote_user rub s ≡ err already_exists =
              attempt_fine (create_binding rub) s _ ∙ rw taken refl in
            let (x, found) = any-find rub s.bindings taken in
            let read : get_rub fault remote_user rub s ≡ ok x =
              get_rub_fine rub s ∙ ap or_missing found in
            let claimed : Claim i s ≡ reuse fault remote_user s (ok x) =
              ap (claim fault remote_user rub s) refused ∙ ap (reuse fault remote_user s) read in
            elim (Bool-cases (is_of_user (sanitized_of remote_user) x)) [
              | inl own ↦ inl ((x, s), claimed ∙ rw (own, reuse) refl)
              | inr foreign ↦ inr (claimed ∙ rw (foreign, reuse) refl, taken)
            ]
      ]

  free_name :
      (left i0 i : ℕ) (s : Store)
      → any (has_name (candidate fault remote_user i)) s.bindings ≡ false
      → i0 ≤ i
      → i < i0 + left
      → (p : RemoteUserBinding × Store) × (try_names fault remote_user left i0 s ≡ ok p)
  unfolding try_names Claim
  free_name zero i0 i s free low high = absurd (omega arith)
  free_name (suc left) i0 i s free low high = elim (Claim-cases i0 s) [
    | inl (p, claimed) ↦ (p, rw (try_names, claimed) refl)
    | inr (unclaimed, taken) ↦
        let other : i0 ≢ i = λ e.
          let taken' : any (has_name (candidate fault remote_user i)) s.bindings ≡ true =
            ap (λ j. any (has_name (candidate fault remote_user j)) s.bindings) (sym e) ∙ taken in
          absurd cc in
        let (p, found) = free_name left (suc i0) i s free (omega (arith, other)) (omega arith) in
        (p, rw (try_names, unclaimed) found)
  ]

  first_or_new_fine :
      (rubs : List RemoteUserBinding) (i : ℕ) (s : Store)
      → i < max_attempts
      → any (has_name (candidate fault remote_user i)) s.bindings ≡ false
      → ((rub : RemoteUserBinding) → In rub rubs → In rub s.bindings)
      → (p : RemoteUserBinding × Store) × (first_or_new fault remote_user rubs s ≡ ok p)
  first_or_new_fine [] i s bound free stored = free_name max_attempts 0 i s free (omega arith) bound
  first_or_new_fine (rub ∷ rubs) i s bound free stored =
      let (x, found) =
        any-find rub s.bindings
          (In-any (has_name rub) s.bindings (stored rub (here refl)) (has_name_refl rub)) in
      ((x, s), rw (get_rub_fine rub s ∙ ap or_missing found) refl)

  pub find_or_create_fine :
      (i : ℕ) (s : Store)
      → i < max_attempts
      → any (has_name (candidate fault remote_user i)) s.bindings ≡ false
      → (p : RemoteUserBinding × Store) × (find_or_create_managed_rub fault remote_user s ≡ ok p)
  unfolding find_or_create_managed_rub list_rubs
  find_or_create_fine i s bound free =
      let listed =
        select (is_listed remote_user.meta.namespace (sanitized_of remote_user)) s.bindings in
      let rubs : list_rubs fault remote_user s ≡ ok listed =
        attempt_fine list_bindings s (ok listed) in
      let (p, found) = first_or_new_fine listed i s bound free (λ rub m.
        (select-In (is_listed remote_user.meta.namespace (sanitized_of remote_user)) s.bindings
          m).0) in
      (p, ap (λ r. r >>= λ rs. first_or_new fault remote_user rs s) rubs ∙ found)

  pub change_rub_fine :
      (rub old new : RemoteUserBinding) (change : RemoteUserBinding → Result RemoteUserBinding)
      (s : Store)
      → find rub s.bindings ≡ some old
      → change old ≡ ok new
      → (t : Store) × (change_rub fault remote_user rub change s ≡ ok t)
  unfolding change_rub
  change_rub_fine rub old new change s at changed = (
    with_bindings s (write rub new s.bindings),
    attempt_fine (add_ref rub) s _
        ∙ ap (λ r. r >>= λ bindings. ok (with_bindings s bindings))
            (mutate_or_delete-write change rub old new s.bindings at changed),
  )

  pub list_policy_targets_fine :
      (policy namespace : String) (s : Store)
      → list_policy_targets fault policy namespace s
        ≡ ok (select (is_policy_target policy namespace) s.targets)
  unfolding list_policy_targets
  list_policy_targets_fine policy namespace s = attempt_fine list_targets s _
