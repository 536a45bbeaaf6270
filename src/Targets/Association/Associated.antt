-- ===== src/Targets/Association/Associated.antt =====
-- What the association policy leaves of a user's binding (internal/policy/association_policy.go).
use mathlib.Core.Path.{subst}
use syngit.Common.{
  true, false, ◌==◌, Option, some, List, string_eq, select, ◌≡◌, ◌≢◌, refl, sym, inl, inr, In,
  arith, All, All-at, ◌⊎◌,
}
use syngit.Common.Errors.{Error, Result, ok, Returns, Returns-bind, Returns-ok}
use syngit.Api.{RemoteUser, RemoteTarget, RemoteUserBinding, rt_label_value_one_or_many_branches}
use syngit.Managed.{has_name, find, visit_all, is_empty, mutate_or_delete}
use syngit.Managed.Names.{mutate_or_delete-find}
use syngit.Managed.Ref.{refers, any-select}
use syngit.Managed.Visits.{visit_all-All}
use syngit.Targets.{Store, Call, add_ref, is_policy_target}
use syngit.Targets.Losses.{attempt-Returns}
use syngit.Targets.Association.{
  sanitized_of, is_listed, add_user_ref, remove_user_ref, change_rub, ensure_remote_user_ref,
  leave_all, list_rubs, cleanup,
}
use syngit.Targets.Association.Found.{list_rubs-select}
use syngit.Targets.Association.References.{
  has_user, add_user_ref-has_user, add_user_ref-meta, has_user-kept, has_name-by_meta,
}

module _ (fault : Call → Store → Option Error) (remote_user : RemoteUser) where
  unfoldable pub Changed : RemoteUserBinding → (RemoteUserBinding → Type 0) → Store → Store → Type 0
  Changed rub Q s t =
      (new : RemoteUserBinding) × (find rub t.bindings ≡ some new) × Q new × (t.targets ≡ s.targets)

  change_rub-Changed :
      (rub old : RemoteUserBinding) (change : RemoteUserBinding → Result RemoteUserBinding)
      (Q : RemoteUserBinding → Type 0) (s : Store)
      → find rub s.bindings ≡ some old
      → Returns (λ new. (is_empty new ≡ false) × (has_name rub new ≡ true) × Q new) (change old)
      → Returns (Changed rub Q s) (change_rub fault remote_user rub change s)
  unfolding change_rub Changed
  change_rub-Changed rub old change Q s at h =
      attempt-Returns fault (Changed rub Q s) (add_ref rub) s _ (
        Returns-bind _ (mutate_or_delete change rub s.bindings) _ λ bindings stored.
          let (new, found, q) =
            Returns-ok (λ store'. (n : RemoteUserBinding) × (find rub store' ≡ some n) × Q n) _
              (mutate_or_delete-find change Q rub old s.bindings at h) stored in
          (new, found, q, refl))

  -- The binding has the reference to the user.
  abbrev pub HasUser : RemoteUserBinding → RemoteUserBinding → Type 0
  HasUser rub new = (new.meta ≡ rub.meta) × (has_user remote_user.meta.name new ≡ true)

  pub ensure-Changed :
      (rub : RemoteUserBinding) (s : Store)
      → find rub s.bindings ≡ some rub
      → Returns (Changed rub (HasUser rub) s) (ensure_remote_user_ref fault remote_user rub s)
  unfolding ensure_remote_user_ref
  ensure-Changed rub s at =
      let name = remote_user.meta.name in
      let new = add_user_ref name rub in
      let user = add_user_ref-has_user name rub in
      let meta = add_user_ref-meta name rub in
      change_rub-Changed rub rub (λ fresh. ok (add_user_ref name fresh)) (HasUser rub) s at
        (has_user-kept name new user, has_name-by_meta rub new meta, (meta, user))

  -- It has also those to the given targets.
  abbrev HasTargets : RemoteUserBinding → List RemoteTarget → RemoteUserBinding → Type 0
  HasTargets rub rts new =
      HasUser rub new × ((rt : RemoteTarget) → In rt rts → refers rt.meta.name new ≡ true)

  -- A managed binding of the user, in the user's namespace, refers to the user and to every managed
  -- target of the policy of the branches in that namespace.
  abbrev pub IsAssociated : Store → Type 0
  IsAssociated t =
      (rub : RemoteUserBinding) × In rub t.bindings
      × (is_listed remote_user.meta.namespace (sanitized_of remote_user) rub ≡ true)
      × (has_user remote_user.meta.name rub ≡ true)
      × ((rt : RemoteTarget)
          → In rt t.targets
          → is_policy_target rt_label_value_one_or_many_branches remote_user.meta.namespace rt
            ≡ true
          → refers rt.meta.name rub ≡ true)

  abbrev IsLeft : RemoteUserBinding → Type 0
  IsLeft r =
      (has_user remote_user.meta.name r ≡ false)
      ⊎ (is_listed remote_user.meta.namespace (sanitized_of remote_user) r ≡ false)

  leave_all-IsLeft :
      (s : Store)
      → Returns
          (λ t. All IsLeft t.bindings)
          (leave_all fault remote_user
            (select (is_listed remote_user.meta.namespace (sanitized_of remote_user)) s.bindings)
            s)
  unfolding leave_all
  leave_all-IsLeft s =
      let name = remote_user.meta.name in
      let listed = is_listed remote_user.meta.namespace (sanitized_of remote_user) in
      Returns-bind _ (visit_all (remove_user_ref name) (select listed s.bindings) s.bindings) _
        λ bindings left.
          visit_all-All (remove_user_ref name) listed (has_user name)
            (λ r. any-select (λ ref. ref.name == name) r.spec.remote_user_refs) s.bindings bindings
            left

  cleanup-IsLeft :
      (s : Store)
      → sanitized_of remote_user ≢ ""
      → Returns (λ t. All IsLeft t.bindings) (cleanup fault remote_user s)
  unfolding cleanup
  cleanup-IsLeft s sanitized =
      let unsanitized : (sanitized_of remote_user == "") ≡ false =
        ground (arith, string_eq.beq_iff (sanitized_of remote_user) "", sanitized) in
      rw (cleanup, unsanitized)
        (Returns-bind _ (list_rubs fault remote_user s) _ λ rubs at.
          subst (λ rs. Returns (λ t. All IsLeft t.bindings) (leave_all fault remote_user rs s))
            (sym (
              Returns-ok _ (list_rubs fault remote_user s) (list_rubs-select fault remote_user s)
                at))
            (leave_all-IsLeft s))

  -- After the clean-up of a RemoteUser that is stamped with its author and that ends without an error,
  -- no managed binding in its namespace that is labelled with that author refers to the RemoteUser.
  pub cleanup-has_user :
      (s t : Store) (rub : RemoteUserBinding)
      → sanitized_of remote_user ≢ ""
      → cleanup fault remote_user s ≡ ok t
      → In rub t.bindings
      → is_listed remote_user.meta.namespace (sanitized_of remote_user) rub ≡ true
      → has_user remote_user.meta.name rub ≡ false
  cleanup-has_user s t rub sanitized h m listed =
      let left =
        All-at IsLeft m
          (Returns-ok (λ u. All IsLeft u.bindings) _ (cleanup-IsLeft s sanitized) h) in
      elim left [ inl gone ↦ gone | inr unlisted ↦ absurd cc ]
