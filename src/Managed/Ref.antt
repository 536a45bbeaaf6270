-- ===== src/Managed/Ref.antt =====
-- The reference of a managed binding to a target (pkg/managed/remoteuserbinding.go).
use syngit.Common.{
  String, Bool, true, false, not, List, [], ◌∷◌, ◌++◌, string_eq, any, select, ◌≡◌, refl, inl, inr,
  Bool-cases, arith, beq_refl,
}
use syngit.Api.{ObjectReference, RemoteUserBinding}
use syngit.Managed.{refers_to, add_remote_target_ref, remove_remote_target_ref}

-- The binding refers to the target.
abbrev pub refers : String → RemoteUserBinding → Bool
refers rt_name rub = any (refers_to rub rt_name) rub.spec.remote_target_refs

any-append :
    (p : ObjectReference → Bool) (xs : List ObjectReference) (x : ObjectReference)
    → p x ≡ true
    → any p (xs ++ x ∷ []) ≡ true
any-append p [] x h = ground (arith, h)
any-append p (y ∷ xs) x h = ground (arith, any-append p xs x h)

pub any-select :
    (p : ObjectReference → Bool) (xs : List ObjectReference)
    → any p (select (λ x. not (p x)) xs) ≡ false
any-select p [] = refl
any-select p (x ∷ xs) = ground (arith, any-select p xs)

select_none :
    (p : ObjectReference → Bool) (xs : List ObjectReference)
    → any p xs ≡ false
    → select (λ x. not (p x)) xs ≡ xs
select_none p [] h = refl
select_none p (x ∷ xs) h = ground (arith, h, select_none p xs)

refers_to_new :
    (rt : String) (rub : RemoteUserBinding)
    → refers_to rub rt (record { namespace = ""; name = rt }) ≡ true
unfolding refers_to
refers_to_new rt rub = rw (beq_refl rt) refl

select-append :
    (p : ObjectReference → Bool) (xs : List ObjectReference) (x : ObjectReference)
    → p x ≡ true
    → any p xs ≡ false
    → select (λ y. not (p y)) (xs ++ x ∷ []) ≡ xs
select-append p [] x h none = rw h refl
select-append p (y ∷ xs) x h none = ground (arith, h, none, select-append p xs x h)

-- After the addition the binding refers to the target.
pub add-refers :
    (rt : String) (rub : RemoteUserBinding) → refers rt (add_remote_target_ref rt rub) ≡ true
unfolding add_remote_target_ref
add-refers rt rub = elim (Bool-cases (refers rt rub)) [
  | inl present ↦ rw (present, add_remote_target_ref) present
  | inr absent ↦
      rw (absent, add_remote_target_ref)
        (any-append (refers_to rub rt) rub.spec.remote_target_refs _ (refers_to_new rt rub))
]

-- After the removal it does not.
pub remove-refers :
    (rt : String) (rub : RemoteUserBinding) → refers rt (remove_remote_target_ref rt rub) ≡ false
unfolding remove_remote_target_ref refers_to
remove-refers rt rub = any-select (refers_to rub rt) rub.spec.remote_target_refs

add_present :
    (rt : String) (rub : RemoteUserBinding)
    → refers rt rub ≡ true
    → add_remote_target_ref rt rub ≡ rub
unfolding add_remote_target_ref
add_present rt rub present = rw (present, add_remote_target_ref) refl

-- Adding twice is adding once.
pub add_remote_target_ref-idempotent :
    (rt : String) (rub : RemoteUserBinding)
    → add_remote_target_ref rt (add_remote_target_ref rt rub) ≡ add_remote_target_ref rt rub
add_remote_target_ref-idempotent rt rub =
    add_present rt (add_remote_target_ref rt rub) (add-refers rt rub)
