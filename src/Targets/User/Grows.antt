-- ===== src/Targets/User/Grows.antt =====
-- What the loop over the users' bindings keeps and adds (internal/policy/userspecific_policy.go).
use Prim.Native.Char.{Char}
use syngit.Common.{
  String, ◌==◌, Option, List, [], ◌∷◌, string_eq, if◌then◌else◌, refl, ◌∙◌, inl, inr, Option-cases,
}
use syngit.Common.Errors.{
  Error, Result, ok, Returns, Returns-bind, Returns-map, Returns-ok, Returns-if,
}
use syngit.Api.{RemoteTarget, RemoteUserBinding, Syncer}
use syngit.Managed.{mutate_or_delete, add_remote_target_ref}
use syngit.Targets.{Store, Call, add_ref, create, or_exists, find_target}
use syngit.Targets.Losses.{
  Loses, Loses-trans, SameSyncers, attempt-Returns, or_exists-Returns, create-Loses,
  create-SameSyncers,
}
use syngit.Targets.User.{
  user_of_binding, build_user_specific_target, ensure_rt_ref_in_rub, reconcile_user,
  reconcile_user_targets,
}

-- Nothing but the bindings changes, or a target is new.
abbrev pub Grows : (RemoteTarget → Type 0) → Store → Store → Type 0
Grows P s t = Loses P s t × SameSyncers s t

Grows-trans : (P : RemoteTarget → Type 0) (s t u : Store) → Grows P s t → Grows P t u → Grows P s u
Grows-trans P s t u h k = (Loses-trans P s t u h.0 k.0, (k.1.0 ∙ h.1.0, k.1.1 ∙ h.1.1))

module _ (path_of : String → Result String) (to_lower : Char → Char)
    (fault : Call → Store → Option Error) (syncer : Syncer) where
  ensure-Grows :
      (P : RemoteTarget → Type 0) (rub : RemoteUserBinding) (rt_name : String) (s : Store)
      → Returns (Grows P s) (ensure_rt_ref_in_rub path_of to_lower fault syncer rub rt_name s)
  unfolding ensure_rt_ref_in_rub
  ensure-Grows P rub rt_name s = attempt-Returns fault (Grows P s) (add_ref rub) s _ (
      Returns-bind _
        (mutate_or_delete (λ fresh. ok (add_remote_target_ref rt_name fresh)) rub s.bindings) _
        λ bindings at. (λ x m. inl m, (refl, refl)))

  reconcile_user-Grows :
      (P : RemoteTarget → Type 0) (existing : List (String × RemoteTarget))
      (rub : RemoteUserBinding) (s : Store)
      → Returns (Grows P s) (reconcile_user path_of to_lower fault syncer existing rub s)
  unfolding reconcile_user
  reconcile_user-Grows P existing rub s =
      elim (Option-cases (find_target (user_of_binding rub) existing)) [
        | inr (rt, found) ↦ rw (reconcile_user, found) (ensure-Grows P rub rt.meta.name s)
        | inl missing ↦
            rw (reconcile_user, missing)
              (Returns-bind _
                (build_user_specific_target path_of to_lower fault syncer rub.spec.subject.name
                  (user_of_binding rub))
                _
                λ rt built. Returns-bind _ (or_exists fault s (create fault rt s)) _ λ t at.
                  let kept =
                    Returns-ok (Loses P s) _
                      (or_exists-Returns fault (Loses P s) s (create fault rt s) (λ x m. inl m)
                        (create-Loses fault P rt s))
                      at in
                  let same =
                    Returns-ok (SameSyncers s) _
                      (or_exists-Returns fault (SameSyncers s) s (create fault rt s) (refl, refl)
                        (create-SameSyncers fault rt s))
                      at in
                  Returns-map _ _
                    (ensure_rt_ref_in_rub path_of to_lower fault syncer rub rt.meta.name t)
                    (λ u. Grows-trans P s t u (kept, same)) (ensure-Grows P rub rt.meta.name t))
      ]

  pub reconcile_user_targets-Grows :
      (P : RemoteTarget → Type 0) (rubs : List RemoteUserBinding)
      (existing : List (String × RemoteTarget)) (s : Store)
      → Returns (Grows P s) (reconcile_user_targets path_of to_lower fault syncer rubs existing s)
  unfolding reconcile_user_targets
  reconcile_user_targets-Grows P [] existing s = (λ x m. inl m, (refl, refl))
  reconcile_user_targets-Grows P (rub ∷ rubs) existing s =
      let step =
        if user_of_binding rub == ""
        then ok s
        else reconcile_user path_of to_lower fault syncer existing rub s in
      Returns-bind _ step _ λ t at.
        let first =
          Returns-ok (Grows P s) step
            (Returns-if (Grows P s) (user_of_binding rub == "") (ok s) _
              (λ x m. inl m, (refl, refl)) (reconcile_user-Grows P existing rub s))
            at in
        Returns-map _ _ (reconcile_user_targets path_of to_lower fault syncer rubs existing t)
          (λ u. Grows-trans P s t u first) (reconcile_user_targets-Grows P rubs existing t)
