-- ===== src/Managed/Names.antt =====
-- Bindings by their names (pkg/managed/remoteuserbinding.go).
use mathlib.Core.Path.{subst}
use syngit.Common.{
  true, false, ◌&&◌, ◌==◌, some, [], ◌∷◌, ◌++◌, string_eq, any, ◌≡◌, refl, sym, ap, ◌∙◌, inl, inr,
  In, here, there, Bool-cases, &&-eq-true, beq_refl, arith,
}
use syngit.Api.{RemoteUserBinding}
use syngit.Common.Errors.{Result, ok, Returns, Returns-bind, Returns-ok}
use syngit.Managed.{
  Bindings, has_name, find, update, is_empty, write, mutate_found, mutate_or_delete,
}

pub has_name_refl : (rub : RemoteUserBinding) → has_name rub rub ≡ true
has_name_refl rub = rw (beq_refl rub.meta.namespace, beq_refl rub.meta.name) refl

-- The two have the same name and namespace.
pub has_name-meta :
    (a b : RemoteUserBinding)
    → has_name a b ≡ true
    → (b.meta.namespace ≡ a.meta.namespace) × (b.meta.name ≡ a.meta.name)
has_name-meta a b h =
    let (spaces, names) =
      &&-eq-true (b.meta.namespace == a.meta.namespace) (b.meta.name == a.meta.name) h in
    (
      (string_eq.beq_iff b.meta.namespace a.meta.namespace).0 spaces,
      (string_eq.beq_iff b.meta.name a.meta.name).0 names,
    )

has_name-same :
    (a b other : RemoteUserBinding) → has_name a b ≡ true → has_name a other ≡ has_name b other
has_name-same a b other h =
    let (spaces, names) = has_name-meta a b h in
    ap (λ n. other.meta.namespace == n && other.meta.name == a.meta.name) (sym spaces)
    ∙ ap (λ n. other.meta.namespace == b.meta.namespace && other.meta.name == n) (sym names)

find-hit :
    (rub r : RemoteUserBinding) (store : Bindings)
    → has_name rub r ≡ true
    → find rub (r ∷ store) ≡ some r
unfolding find
find-hit rub r store same = rw (same, find) refl

find-miss :
    (rub r : RemoteUserBinding) (store : Bindings)
    → has_name rub r ≡ false
    → find rub (r ∷ store) ≡ find rub store
unfolding find
find-miss rub r store other = rw (other, find) refl

pub find-In :
    (rub found : RemoteUserBinding) (store : Bindings)
    → find rub store ≡ some found
    → In found store × (has_name rub found ≡ true)
unfolding find
find-In rub found [] e = cc
find-In rub found (r ∷ store) e = elim (Bool-cases (has_name rub r)) [
  | inl same ↦
      let first = find-hit rub r store same in
      let same_r : r ≡ found = cc in (here same_r, subst (λ x. has_name rub x ≡ true) same_r same)
  | inr other ↦
      let (m, h) = find-In rub found store (sym (find-miss rub r store other) ∙ e) in (there m, h)
]

find-same :
    (a b : RemoteUserBinding) (store : Bindings) → has_name a b ≡ true → find a store ≡ find b store
unfolding find
find-same a b [] h = refl
find-same a b (r ∷ store) h = elim (Bool-cases (has_name a r)) [
  | inl same ↦
      find-hit a r store same ∙ sym (find-hit b r store (sym (has_name-same a b r h) ∙ same))
  | inr other ↦
      find-miss a r store other
      ∙ (find-same a b store h ∙ sym (find-miss b r store (sym (has_name-same a b r h) ∙ other)))
]

-- What is found under a name is found under its own.
pub find_self :
    (rub found : RemoteUserBinding) (store : Bindings)
    → find rub store ≡ some found
    → find found store ≡ some found
find_self rub found store at = sym (find-same rub found store (find-In rub found store at).1) ∙ at

pub find-append :
    (rub : RemoteUserBinding) (store : Bindings)
    → any (has_name rub) store ≡ false
    → find rub (store ++ rub ∷ []) ≡ some rub
unfolding find
find-append rub [] h = find-hit rub rub [] (has_name_refl rub)
find-append rub (r ∷ store) h = elim (Bool-cases (has_name rub r)) [
  | inl same ↦ absurd (ground (arith, h, same))
  | inr other ↦
      find-miss rub r (store ++ rub ∷ []) other ∙ find-append rub store (ground (arith, h, other))
]

pub any-find :
    (rub : RemoteUserBinding) (store : Bindings)
    → any (has_name rub) store ≡ true
    → (found : RemoteUserBinding) × (find rub store ≡ some found)
unfolding find
any-find rub [] h = cc
any-find rub (r ∷ store) h = elim (Bool-cases (has_name rub r)) [
  | inl same ↦ (r, find-hit rub r store same)
  | inr other ↦
      let (found, at) = any-find rub store (ground (arith, h, other)) in
      (found, find-miss rub r store other ∙ at)
]

-- After an update the new binding is found.
pub find-update :
    (rub old new : RemoteUserBinding) (store : Bindings)
    → find rub store ≡ some old
    → has_name rub new ≡ true
    → find rub (update rub new store) ≡ some new
unfolding find update
find-update rub old new [] at same = cc
find-update rub old new (r ∷ store) at same = elim (Bool-cases (has_name rub r)) [
  | inl first ↦
      let written : update rub new (r ∷ store) ≡ (new ∷ update rub new store) =
        rw (first, update) refl in
      ap (find rub) written ∙ find-hit rub new (update rub new store) same
  | inr other ↦
      let written : update rub new (r ∷ store) ≡ (r ∷ update rub new store) =
        rw (other, update) refl in
      ap (find rub) written
      ∙ (find-miss rub r (update rub new store) other
          ∙ find-update rub old new store (sym (find-miss rub r store other) ∙ at) same)
]

write-find :
    (rub old new : RemoteUserBinding) (store : Bindings)
    → find rub store ≡ some old
    → is_empty new ≡ false
    → has_name rub new ≡ true
    → find rub (write rub new store) ≡ some new
unfolding write
write-find rub old new store at full same = rw (full, write) (find-update rub old new store at same)

-- A change that leaves the binding its name, and something in it, is what is stored then.
pub mutate_or_delete-find :
    (mutate : RemoteUserBinding → Result RemoteUserBinding) (Q : RemoteUserBinding → Type 0)
    (rub old : RemoteUserBinding) (store : Bindings)
    → find rub store ≡ some old
    → Returns (λ new. (is_empty new ≡ false) × (has_name rub new ≡ true) × Q new) (mutate old)
    → Returns
        (λ store'. (new : RemoteUserBinding) × (find rub store' ≡ some new) × Q new)
        (mutate_or_delete mutate rub store)
unfolding mutate_or_delete mutate_found
mutate_or_delete-find mutate Q rub old store at h =
    subst
      (λ o.
        Returns (λ store'. (new : RemoteUserBinding) × (find rub store' ≡ some new) × Q new)
          (mutate_found mutate rub store o))
      (sym at)
      (Returns-bind _ (mutate old) _ λ new changed.
        let (full, same, q) =
          Returns-ok (λ n. (is_empty n ≡ false) × (has_name rub n ≡ true) × Q n) _ h changed in
        (new, write-find rub old new store at full same, q))

pub mutate_or_delete-write :
    (mutate : RemoteUserBinding → Result RemoteUserBinding) (rub old new : RemoteUserBinding)
    (store : Bindings)
    → find rub store ≡ some old
    → mutate old ≡ ok new
    → mutate_or_delete mutate rub store ≡ ok (write rub new store)
unfolding mutate_or_delete mutate_found
mutate_or_delete-write mutate rub old new store at changed =
    ap (mutate_found mutate rub store) at ∙ rw changed refl
