-- ===== src/Targets/Association/Total.antt =====
-- When the association policy succeeds (internal/policy/association_policy.go).
use syngit.Common.{
  ℕ, ◌<◌, false, Option, none, some, ◌||◌, ◌==◌, string_eq, any, ◌≡◌, refl, ap, inl, inr,
  Bool-cases, select,
}
use syngit.Common.Errors.{Error, ok, ◌>>=◌, Returns-ok}
use syngit.Api.{RemoteUser, RemoteUserBinding, rt_label_value_one_or_many_branches}
use syngit.Managed.{has_name, find}
use syngit.Targets.{Store, Call, is_policy_target, list_policy_targets}
use syngit.Targets.Association.{sanitized_of, candidate, max_attempts}
use syngit.Targets.Association.{
  ensure_remote_user_ref, associate_existing_remote_targets, associate, reconcile, add_user_ref,
  add_all, raw_of,
}
use syngit.Targets.Association.Found.{IsFound, HasDistinctNames, find_or_create_managed_rub-IsFound}
use syngit.Targets.Association.Names.{
  find_or_create_fine, change_rub_fine, list_policy_targets_fine,
}
use syngit.Targets.Association.Associated.{Changed, HasUser, ensure-Changed}

module _ (fault : Call → Store → Option Error)
    (fine : (call : Call) (s : Store) → fault call s ≡ none) (remote_user : RemoteUser) where
  ensure_fine :
      (rub : RemoteUserBinding) (s : Store)
      → find rub s.bindings ≡ some rub
      → (t : Store) × (ensure_remote_user_ref fault remote_user rub s ≡ ok t)
  unfolding ensure_remote_user_ref
  ensure_fine rub s at =
      change_rub_fine fault fine remote_user rub rub (add_user_ref remote_user.meta.name rub)
        (λ fresh. ok (add_user_ref remote_user.meta.name fresh)) s at refl

  associate_existing_fine :
      (rub old : RemoteUserBinding) (s : Store)
      → find rub s.bindings ≡ some old
      → (t : Store) × (associate_existing_remote_targets fault remote_user rub s ≡ ok t)
  unfolding associate_existing_remote_targets
  associate_existing_fine rub old s at =
      let listed =
        select (is_policy_target rt_label_value_one_or_many_branches rub.meta.namespace)
          s.targets in
      change_rub_fine fault fine remote_user rub old (add_all listed old)
        (λ fresh.
          list_policy_targets fault rt_label_value_one_or_many_branches rub.meta.namespace s
          >>= λ rts. ok (add_all rts fresh))
        s at
        (ap (λ r. r >>= λ rts. ok (add_all rts old))
          (list_policy_targets_fine fault fine remote_user rt_label_value_one_or_many_branches
            rub.meta.namespace s))

  associate_fine :
      (i : ℕ) (s : Store)
      → HasDistinctNames s
      → i < max_attempts
      → any (has_name (candidate fault remote_user i)) s.bindings ≡ false
      → (t : Store) × (associate fault remote_user s ≡ ok t)
  unfolding Changed
  associate_fine i s distinct bound free =
      let ((rub, s'), found) = find_or_create_fine fault fine remote_user i s bound free in
      let (at, listed) =
        Returns-ok (λ p. IsFound remote_user p.0 p.1) _
          (find_or_create_managed_rub-IsFound fault remote_user s distinct) found in
      let (s'', ensured) = ensure_fine rub s' at in
      let (old, at', user, same) =
        Returns-ok (Changed fault remote_user rub (HasUser fault remote_user rub) s') _
          (ensure-Changed fault remote_user rub s' at) ensured in
      let (t, done) = associate_existing_fine rub old s'' at' in (t, rw (found, ensured, done) refl)

  -- Where no call fails, no two bindings have the same name and namespace, and one of the hundred
  -- names that are tried is free in the user's namespace, the reconciliation of a RemoteUser succeeds.
  pub reconcile-total :
      (i : ℕ) (s : Store)
      → HasDistinctNames s
      → i < max_attempts
      → any (has_name (candidate fault remote_user i)) s.bindings ≡ false
      → (t : Store) × (reconcile fault remote_user s ≡ ok t)
  unfolding reconcile
  reconcile-total i s distinct bound free =
      elim (Bool-cases (sanitized_of remote_user == "" || raw_of remote_user == "")) [
        | inl unstamped ↦ (s, rw (reconcile, unstamped) refl)
        | inr stamped ↦
            let (t, done) = associate_fine i s distinct bound free in
            (t, rw (reconcile, stamped) done)
      ]
