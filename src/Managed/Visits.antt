-- ===== src/Managed/Visits.antt =====
-- The loops that change all bindings of a list (pkg/managed/remoteuserbinding.go,
-- internal/policy/association_policy.go).
use mathlib.Core.Path.{subst}
use syngit.Common.{
  Bool, true, false, none, some, [], ◌∷◌, string_eq, any, select, ◌≡◌, ◌⊎◌, refl, sym, ap, inl, inr,
  Bool-cases, Option-cases, arith, beq_refl, All, All-map,
}
use syngit.Common.Errors.{Result, ok, Returns, Returns-bind, Returns-ok}
use syngit.Api.{RemoteUserBinding}
use syngit.Managed.{
  Bindings, has_name, find, update, delete, is_empty, write, mutate_found, mutate_or_delete,
  or_gone, visit_all,
}

-- A binding in the loop.
abbrev pub visit :
    (RemoteUserBinding → RemoteUserBinding) → RemoteUserBinding → Bindings → Result Bindings
visit change rub store = or_gone (mutate_or_delete (λ r. ok (change r)) rub store) store

pub visit-none :
    (change : RemoteUserBinding → RemoteUserBinding) (rub : RemoteUserBinding) (store : Bindings)
    → find rub store ≡ none
    → visit change rub store ≡ ok store
unfolding mutate_or_delete or_gone mutate_found
visit-none change rub store gone =
    ap (λ o. or_gone (mutate_found (λ r. ok (change r)) rub store o) store) gone

pub visit-some :
    (change : RemoteUserBinding → RemoteUserBinding) (rub found : RemoteUserBinding)
    (store : Bindings)
    → find rub store ≡ some found
    → visit change rub store ≡ ok (write rub (change found) store)
unfolding mutate_or_delete or_gone mutate_found
visit-some change rub found store at =
    ap (λ o. or_gone (mutate_found (λ r. ok (change r)) rub store o) store) at

module _ (change : RemoteUserBinding → RemoteUserBinding) (listed is_bad : RemoteUserBinding → Bool)
    (changed : (r : RemoteUserBinding) → is_bad (change r) ≡ false) where
  -- A listed binding that is bad is still to be visited.
  Pending : Bindings → RemoteUserBinding → Type 0
  Pending rubs r = (is_bad r ≡ false) ⊎ (listed r ≡ false) ⊎ (any (λ x. has_name x r) rubs ≡ true)

  Pending-next :
      (rub : RemoteUserBinding) (rubs : Bindings) (r : RemoteUserBinding)
      → has_name rub r ≡ false
      → Pending (rub ∷ rubs) r
      → Pending rubs r
  unfolding Pending
  Pending-next rub rubs r other (inl h) = inl h
  Pending-next rub rubs r other (inr (inl h)) = inr (inl h)
  Pending-next rub rubs r other (inr (inr h)) = inr (inr (ground (arith, other, h)))

  update-Pending :
      (rub new : RemoteUserBinding) (rubs store : Bindings)
      → is_bad new ≡ false
      → All (Pending (rub ∷ rubs)) store
      → All (Pending rubs) (update rub new store)
  unfolding update Pending
  update-Pending rub new rubs [] gone h = tt
  update-Pending rub new rubs (r ∷ store) gone h = elim (Bool-cases (has_name rub r)) [
    | inl same ↦ rw (same, update) (inl gone, update-Pending rub new rubs store gone h.1)
    | inr other ↦
        rw (other, update)
          (Pending-next rub rubs r other h.0, update-Pending rub new rubs store gone h.1)
  ]

  delete-Pending :
      (rub : RemoteUserBinding) (rubs store : Bindings)
      → All (Pending (rub ∷ rubs)) store
      → All (Pending rubs) (delete rub store)
  unfolding delete Pending
  delete-Pending rub rubs [] h = tt
  delete-Pending rub rubs (r ∷ store) h = elim (Bool-cases (has_name rub r)) [
    | inl same ↦ rw (same, delete) (delete-Pending rub rubs store h.1)
    | inr other ↦
        rw (other, delete) (Pending-next rub rubs r other h.0, delete-Pending rub rubs store h.1)
  ]

  -- Where no binding has the name, the visit is over too.
  find-none-Pending :
      (rub : RemoteUserBinding) (rubs store : Bindings)
      → find rub store ≡ none
      → All (Pending (rub ∷ rubs)) store
      → All (Pending rubs) store
  unfolding find Pending
  find-none-Pending rub rubs [] e h = tt
  find-none-Pending rub rubs (r ∷ store) e h = elim (Bool-cases (has_name rub r)) [
    | inl same ↦ absurd (ground (arith, same, e))
    | inr other ↦ (
      Pending-next rub rubs r other h.0,
      find-none-Pending rub rubs store (ground (arith, other, e)) h.1,
    )
  ]

  visit-Pending :
      (rub : RemoteUserBinding) (rubs store : Bindings)
      → All (Pending (rub ∷ rubs)) store
      → Returns (All (Pending rubs)) (visit change rub store)
  unfolding write
  visit-Pending rub rubs store h = elim (Option-cases (find rub store)) [
    | inl gone ↦ rw (visit-none change rub store gone) (find-none-Pending rub rubs store gone h)
    | inr (found, at) ↦ elim (Bool-cases (is_empty (change found))) [
      | inl empty ↦
          rw (visit-some change rub found store at, write, empty) (delete-Pending rub rubs store h)
      | inr left ↦
          rw (visit-some change rub found store at, write, left)
            (update-Pending rub (change found) rubs store (changed found) h)
    ]
  ]

  visit_all-Pending :
      (rubs store : Bindings)
      → All (Pending rubs) store
      → Returns (All (Pending [])) (visit_all change rubs store)
  unfolding visit_all
  visit_all-Pending [] store h = h
  visit_all-Pending (rub ∷ rubs) store h =
      Returns-bind (All (Pending [])) (visit change rub store) _ λ store' at.
        visit_all-Pending rubs store' (
          Returns-ok (All (Pending rubs)) (visit change rub store) (visit-Pending rub rubs store h)
            at)

  any-has_name :
      (r : RemoteUserBinding) (store : Bindings) → any (λ x. has_name x r) (r ∷ store) ≡ true
  any-has_name r store = rw (beq_refl r.meta.namespace, beq_refl r.meta.name) refl

  Pending-more :
      (x : RemoteUserBinding) (rubs : Bindings) (r : RemoteUserBinding)
      → Pending rubs r
      → Pending (x ∷ rubs) r
  unfolding Pending
  Pending-more x rubs r (inl h) = inl h
  Pending-more x rubs r (inr (inl h)) = inr (inl h)
  Pending-more x rubs r (inr (inr h)) = inr (inr (ground (arith, h)))

  select-true :
      (r : RemoteUserBinding) (store : Bindings)
      → listed r ≡ true
      → select listed (r ∷ store) ≡ (r ∷ select listed store)
  select-true r store h = rw h refl

  select-false :
      (r : RemoteUserBinding) (store : Bindings)
      → listed r ≡ false
      → select listed (r ∷ store) ≡ select listed store
  select-false r store h = rw h refl

  -- At first all listed bindings are to be visited.
  start-Pending : (store : Bindings) → All (Pending (select listed store)) store
  unfolding Pending
  start-Pending [] = tt
  start-Pending (r ∷ store) = elim (Bool-cases (listed r)) [
    | inl managed ↦
        let rest = select listed store in
        subst (λ rubs. All (Pending rubs) (r ∷ store)) (sym (select-true r store managed))
          (
            inr (inr (any-has_name r rest)),
            All-map (Pending rest) (Pending (r ∷ rest)) store (Pending-more r rest)
                (start-Pending store),
          )
    | inr other ↦
        subst (λ rubs. All (Pending rubs) (r ∷ store)) (sym (select-false r store other))
          (inr (inl other), start-Pending store)
  ]

  Pending-end : (r : RemoteUserBinding) → Pending [] r → (is_bad r ≡ false) ⊎ (listed r ≡ false)
  unfolding Pending
  Pending-end r (inl h) = inl h
  Pending-end r (inr (inl h)) = inr h
  Pending-end r (inr (inr h)) = absurd cc

  -- A listed binding that is left is not bad.
  pub visit_all-All :
      (store store' : Bindings)
      → visit_all change (select listed store) store ≡ ok store'
      → All (λ r. (is_bad r ≡ false) ⊎ (listed r ≡ false)) store'
  visit_all-All store store' h =
      All-map (Pending []) (λ r. (is_bad r ≡ false) ⊎ (listed r ≡ false)) store' Pending-end
        (Returns-ok (All (Pending [])) _
          (visit_all-Pending (select listed store) store (start-Pending store)) h)
