-- ===== src/Targets/Shrinks.antt =====
-- What a deletion by the policies leaves of a target (internal/policy): nothing that is stored under
-- its name, and no reference from a managed binding.
use mathlib.Core.Path.{subst}
use syngit.Common.{
  Bool, true, false, not, Option, some, ◌≡◌, ◌≢◌, refl, sym, ◌∙◌, inl, inr, In, In-any, select-In,
  All, select, any, Bool-cases, Option-cases, arith,
}
use syngit.Common.Errors.{Error, err, Returns, Returns-map, not_found}
use syngit.Api.{RemoteTarget}
use syngit.Managed.Cleared.{IsCleared, remove_remote_target_ref_from_rubs-IsCleared}
use syngit.Managed.Stable.{
  remove_remote_target_ref_from_rubs-All, remove_remote_target_ref-IsCleared,
}
use syngit.Targets.{
  Store, Call, delete_target, has_key, attempt, delete, clear, or_not_found, with_targets,
}
use syngit.Targets.Losses.{clear-bindings}

-- No target is stored under the name of this one.
abbrev pub IsDropped : RemoteTarget → Store → Type 0
IsDropped rt s = (x : RemoteTarget) → In x s.targets → has_key rt x ≡ false

-- No managed binding of its namespace refers to it.
abbrev pub IsUnbound : RemoteTarget → Store → Type 0
IsUnbound rt s = All (IsCleared rt.meta.namespace rt.meta.name) s.bindings

-- Nothing comes back: neither a target, nor a reference to a target.
abbrev pub Shrinks : Store → Store → Type 0
Shrinks s t =
    ((x : RemoteTarget) → In x t.targets → In x s.targets)
    × ((rt : RemoteTarget) → IsUnbound rt s → IsUnbound rt t)

pub Shrinks-refl : (s : Store) → Shrinks s s
Shrinks-refl s = (λ x m. m, λ rt h. h)

pub Shrinks-trans : (s t u : Store) → Shrinks s t → Shrinks t u → Shrinks s u
Shrinks-trans s t u h k = (λ x m. h.0 x (k.0 x m), λ rt unbound. k.1 rt (h.1 rt unbound))

pub IsDropped-Shrinks :
    (rt : RemoteTarget) (s t : Store) → Shrinks s t → IsDropped rt s → IsDropped rt t
IsDropped-Shrinks rt s t h dropped x m = dropped x (h.0 x m)

-- Nothing is left of the target.
abbrev pub IsGone : RemoteTarget → Store → Type 0
IsGone rt t = IsDropped rt t × IsUnbound rt t

pub IsGone-Shrinks : (rt : RemoteTarget) (s t : Store) → Shrinks s t → IsGone rt s → IsGone rt t
IsGone-Shrinks rt s t h (dropped, unbound) = (IsDropped-Shrinks rt s t h dropped, h.1 rt unbound)

-- The deletion of a target is never refused with the answer that the target does not exist.
abbrev pub IsTrue : (Call → Store → Option Error) → Type 0
IsTrue fault = (rt : RemoteTarget) (s : Store) → fault (delete_target rt) s ≢ some not_found

none_stored : (rt : RemoteTarget) (s : Store) → any (has_key rt) s.targets ≡ false → IsDropped rt s
none_stored rt s h x m = elim (Bool-cases (has_key rt x)) [
  | inl same ↦
      let found : any (has_key rt) s.targets ≡ true = In-any (has_key rt) s.targets m same in
      absurd cc
  | inr other ↦ other
]

pub not-eq-true : (b : Bool) → not b ≡ true → b ≡ false
not-eq-true b h = ground arith

module _ (fault : Call → Store → Option Error) where
  refused-or_not_found :
      (P : Store → Type 0) (s : Store) (e : Error)
      → some e ≢ some not_found
      → Returns P (or_not_found fault s (err e))
  unfolding or_not_found
  refused-or_not_found P s not_found h = absurd (h refl)
  refused-or_not_found P s e h = tt

  pub delete-Returns :
      (P : Store → Type 0) (rt : RemoteTarget) (s : Store)
      → IsTrue fault
      → (any (has_key rt) s.targets ≡ false → P s)
      → P (with_targets s (select (λ other. not (has_key rt other)) s.targets))
      → Returns P (or_not_found fault s (delete fault rt s))
  unfolding delete attempt or_not_found
  delete-Returns P rt s honest gone deleted = elim (Option-cases (fault (delete_target rt) s)) [
    | inr (e, failed) ↦
        rw (delete, attempt, failed) (refused-or_not_found P s e (λ h. honest rt s (failed ∙ h)))
    | inl fine ↦ elim (Bool-cases (any (has_key rt) s.targets)) [
      | inl stored ↦ rw (delete, attempt, fine, stored, or_not_found) deleted
      | inr absent ↦ rw (delete, attempt, fine, absent, or_not_found) (gone absent)
    ]
  ]

  pub delete-IsDropped :
      (rt : RemoteTarget) (s : Store)
      → IsTrue fault
      → Returns (λ t. IsDropped rt t × Shrinks s t) (or_not_found fault s (delete fault rt s))
  delete-IsDropped rt s honest =
      delete-Returns (λ t. IsDropped rt t × Shrinks s t) rt s honest
        (λ absent. (none_stored rt s absent, Shrinks-refl s))
        (
          λ x m.
              not-eq-true (has_key rt x)
                (select-In (λ other. not (has_key rt other)) s.targets m).1,
          (λ x m. (select-In (λ other. not (has_key rt other)) s.targets m).0, λ r h. h),
        )

  pub clear-IsUnbound :
      (rt : RemoteTarget) (s : Store)
      → Returns (λ t. IsUnbound rt t × Shrinks s t) (clear fault rt s)
  clear-IsUnbound rt s =
      Returns-map _ _ (clear fault rt s)
        (λ t (bindings, cleared, same).
          subst (λ t'. IsUnbound rt t' × Shrinks s t') (sym same)
            (
              remove_remote_target_ref_from_rubs-IsCleared rt.meta.namespace rt.meta.name s.bindings
                  bindings cleared,
              (
                λ x m. m,
                λ r h.
                    remove_remote_target_ref_from_rubs-All (IsCleared r.meta.namespace r.meta.name)
                      rt.meta.name
                      (remove_remote_target_ref-IsCleared r.meta.namespace r.meta.name rt.meta.name)
                      rt.meta.namespace s.bindings bindings h cleared,
              ),
            ))
        (clear-bindings fault rt s)
