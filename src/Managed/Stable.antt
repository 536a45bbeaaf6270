-- ===== src/Managed/Stable.antt =====
-- What the removal of references keeps of the bindings (pkg/managed/remoteuserbinding.go).
use mathlib.Core.Path.{subst}
use syngit.Common.{
  String, Bool, false, not, some, List, [], ◌∷◌, any, select, ◌≡◌, refl, sym, ◌∙◌, inl, inr,
  Bool-cases, Option-cases, arith, All,
}
use syngit.Common.Errors.{ok, Returns, Returns-bind, Returns-ok}
use syngit.Api.{RemoteUserBinding, ObjectReference}
use syngit.Managed.{
  refers_to, remove_remote_target_ref, Bindings, has_name, find, update, delete, is_empty, write,
  is_managed, visit_all, remove_remote_target_ref_from_rubs,
}
use syngit.Managed.Cleared.{IsCleared}
use syngit.Managed.Visits.{visit, visit-none, visit-some}

module _ (P : RemoteUserBinding → Type 0) (change : RemoteUserBinding → RemoteUserBinding)
    (on_change : (r : RemoteUserBinding) → P r → P (change r)) where
  find-All :
      (rub found : RemoteUserBinding) (store : Bindings)
      → find rub store ≡ some found
      → All P store
      → P found
  unfolding find
  find-All rub found [] e h = absurd cc
  find-All rub found (r ∷ store) e h = elim (Bool-cases (has_name rub r)) [
    | inl same ↦
        let first : find rub (r ∷ store) ≡ some r = rw (same, find) refl in
        let same_r : r ≡ found = cc in subst P same_r h.0
    | inr other ↦
        let later : find rub (r ∷ store) ≡ find rub store = rw (other, find) refl in
        find-All rub found store (sym later ∙ e) h.1
  ]

  update-All :
      (rub new : RemoteUserBinding) (store : Bindings)
      → P new
      → All P store
      → All P (update rub new store)
  unfolding update
  update-All rub new [] p h = tt
  update-All rub new (r ∷ store) p h = elim (Bool-cases (has_name rub r)) [
    | inl same ↦ rw (same, update) (p, update-All rub new store p h.1)
    | inr other ↦ rw (other, update) (h.0, update-All rub new store p h.1)
  ]

  delete-All : (rub : RemoteUserBinding) (store : Bindings) → All P store → All P (delete rub store)
  unfolding delete
  delete-All rub [] h = tt
  delete-All rub (r ∷ store) h = elim (Bool-cases (has_name rub r)) [
    | inl same ↦ rw (same, delete) (delete-All rub store h.1)
    | inr other ↦ rw (other, delete) (h.0, delete-All rub store h.1)
  ]

  visit-All :
      (rub : RemoteUserBinding) (store : Bindings)
      → All P store
      → Returns (All P) (visit change rub store)
  unfolding write
  visit-All rub store h = elim (Option-cases (find rub store)) [
    | inl gone ↦ rw (visit-none change rub store gone) h
    | inr (found, at) ↦
        let new = change found in
        let kept = on_change found (find-All rub found store at h) in
        elim (Bool-cases (is_empty new)) [
          | inl empty ↦
              rw (visit-some change rub found store at, write, empty) (delete-All rub store h)
          | inr left ↦
              rw (visit-some change rub found store at, write, left)
                (update-All rub new store kept h)
        ]
  ]

  -- What one change keeps, the changes of all keep.
  pub visit_all-kept :
      (rubs store : Bindings) → All P store → Returns (All P) (visit_all change rubs store)
  unfolding visit_all
  visit_all-kept [] store h = h
  visit_all-kept (rub ∷ rubs) store h =
      Returns-bind (All P) (visit change rub store) _
        λ store' at. visit_all-kept rubs store' (Returns-ok (All P) _ (visit-All rub store h) at)

any-select_le :
    (p q : ObjectReference → Bool) (refs : List ObjectReference)
    → any p refs ≡ false
    → any p (select q refs) ≡ false
any-select_le p q [] h = refl
any-select_le p q (ref ∷ refs) h = ground (arith, h, any-select_le p q refs)

-- A binding without a reference to a target keeps it so.
pub remove_remote_target_ref-IsCleared :
    (namespace name rt : String) (r : RemoteUserBinding)
    → IsCleared namespace name r
    → IsCleared namespace name (remove_remote_target_ref rt r)
unfolding remove_remote_target_ref
remove_remote_target_ref-IsCleared namespace name rt r (inr other) = inr other
remove_remote_target_ref-IsCleared namespace name rt r (inl absent) = inl (
    any-select_le (refers_to r name) (λ ref. not (refers_to r rt ref)) r.spec.remote_target_refs
      absent)

-- What the removal of one reference keeps, the removal of all references to a target keeps.
pub remove_remote_target_ref_from_rubs-All :
    (P : RemoteUserBinding → Type 0) (rt : String)
    → ((r : RemoteUserBinding) → P r → P (remove_remote_target_ref rt r))
    → (namespace : String) (store store' : Bindings) → All P store
    → remove_remote_target_ref_from_rubs namespace rt store ≡ ok store'
    → All P store'
unfolding remove_remote_target_ref_from_rubs
remove_remote_target_ref_from_rubs-All P rt on_remove namespace store store' h =
    Returns-ok (All P) _ (
      visit_all-kept P (remove_remote_target_ref rt) on_remove (select (is_managed namespace) store)
        store h)
