-- ===== src/Targets/Association/References.antt =====
-- References that are added to a binding (internal/policy/association_policy.go,
-- pkg/managed/remoteuserbinding.go).
use mathlib.Core.Path.{subst}
use syngit.Common.{
  String, Bool, true, false, ◌&&◌, ◌==◌, List, [], ◌∷◌, ◌++◌, string_eq, any, ◌≡◌, refl, ap, ◌∙◌,
  inl, inr, In, In-cons, Bool-cases, beq_refl, arith,
}
use syngit.Api.{ObjectMeta, RemoteTarget, RemoteUserBinding}
use syngit.Managed.{has_name, is_empty, refers_to, add_remote_target_ref}
use syngit.Managed.Names.{has_name_refl}
use syngit.Managed.Ref.{refers, add-refers}
use syngit.Targets.Association.{add_user_ref, add_all, reference_to}

abbrev pub has_user : String → RemoteUserBinding → Bool
has_user name rub = any (λ ref. ref.name == name) rub.spec.remote_user_refs

any-last :
    {A : Type 0} (p : A → Bool) (xs : List A) (x : A) → p x ≡ true → any p (xs ++ x ∷ []) ≡ true
any-last p [] x h = ground (arith, h)
any-last p (y ∷ xs) x h = ground (arith, any-last p xs x h)

pub add_user_ref-has_user :
    (name : String) (rub : RemoteUserBinding) → has_user name (add_user_ref name rub) ≡ true
add_user_ref-has_user name rub = elim (Bool-cases (has_user name rub)) [
  | inl present ↦ rw present present
  | inr absent ↦ rw absent (
      any-last (λ ref. ref.name == name) rub.spec.remote_user_refs (reference_to name)
        (beq_refl name))
]

pub add_user_ref-meta :
    (name : String) (rub : RemoteUserBinding) → (add_user_ref name rub).meta ≡ rub.meta
add_user_ref-meta name rub = elim (Bool-cases (has_user name rub)) [
  | inl present ↦ rw present refl
  | inr absent ↦ rw absent refl
]

-- A binding with a user is not empty.
pub has_user-kept :
    (name : String) (rub : RemoteUserBinding) → has_user name rub ≡ true → is_empty rub ≡ false
has_user-kept name rub h = by_refs rub.spec.remote_user_refs refl
  where
    by_refs : (refs : List _) → rub.spec.remote_user_refs ≡ refs → is_empty rub ≡ false
    by_refs [] e = absurd (ground (arith, h, e))
    by_refs (r ∷ rs) e = rw e refl

add_remote_target_ref-meta :
    (rt : String) (rub : RemoteUserBinding)
    → ((add_remote_target_ref rt rub).meta ≡ rub.meta)
      × ((add_remote_target_ref rt rub).spec.remote_user_refs ≡ rub.spec.remote_user_refs)
unfolding add_remote_target_ref
add_remote_target_ref-meta rt rub = elim (Bool-cases (refers rt rub)) [
  | inl present ↦ rw (present, add_remote_target_ref) (refl, refl)
  | inr absent ↦ rw (absent, add_remote_target_ref) (refl, refl)
]

any-more : {A : Type 0} (p : A → Bool) (xs ys : List A) → any p xs ≡ true → any p (xs ++ ys) ≡ true
any-more p [] ys h = cc
any-more p (x ∷ xs) ys h = elim (Bool-cases (p x)) [
  | inl now ↦ rw now refl
  | inr later ↦
      let h' : any p xs ≡ true = ground (arith, h, later) in rw (later) (any-more p xs ys h')
]

add_remote_target_ref-refers :
    (rt other : String) (rub : RemoteUserBinding)
    → refers other rub ≡ true
    → refers other (add_remote_target_ref rt rub) ≡ true
unfolding add_remote_target_ref refers_to
add_remote_target_ref-refers rt other rub h = elim (Bool-cases (refers rt rub)) [
  | inl present ↦ rw (present, add_remote_target_ref) h
  | inr absent ↦
      rw (absent, add_remote_target_ref)
        (any-more (refers_to rub other) rub.spec.remote_target_refs (reference_to rt ∷ []) h)
]

pub add_all-meta :
    (rts : List RemoteTarget) (rub : RemoteUserBinding)
    → ((add_all rts rub).meta ≡ rub.meta)
      × ((add_all rts rub).spec.remote_user_refs ≡ rub.spec.remote_user_refs)
unfolding add_all
add_all-meta [] rub = (refl, refl)
add_all-meta (rt ∷ rts) rub =
    let (m, u) = add_remote_target_ref-meta rt.meta.name rub in
    let (ms, us) = add_all-meta rts (add_remote_target_ref rt.meta.name rub) in (ms ∙ m, us ∙ u)

add_all-kept :
    (rts : List RemoteTarget) (other : String) (rub : RemoteUserBinding)
    → refers other rub ≡ true
    → refers other (add_all rts rub) ≡ true
unfolding add_all
add_all-kept [] other rub h = h
add_all-kept (rt ∷ rts) other rub h =
    add_all-kept rts other (add_remote_target_ref rt.meta.name rub)
      (add_remote_target_ref-refers rt.meta.name other rub h)

pub add_all-refers :
    (rts : List RemoteTarget) (rub : RemoteUserBinding) (rt : RemoteTarget)
    → In rt rts
    → refers rt.meta.name (add_all rts rub) ≡ true
unfolding add_all
add_all-refers [] rub rt m = elim m [ ]
add_all-refers (x ∷ rts) rub rt m = elim (In-cons m) [
  | inl e ↦
      subst
        (λ (r : RemoteTarget).
          refers r.meta.name (add_all rts (add_remote_target_ref x.meta.name rub)) ≡ true)
        e
        (add_all-kept rts x.meta.name (add_remote_target_ref x.meta.name rub)
          (add-refers x.meta.name rub))
  | inr n ↦ add_all-refers rts (add_remote_target_ref x.meta.name rub) rt n
]

pub has_name-by_meta : (rub new : RemoteUserBinding) → new.meta ≡ rub.meta → has_name rub new ≡ true
has_name-by_meta rub new e =
    ap (λ (m : ObjectMeta). m.namespace == rub.meta.namespace && m.name == rub.meta.name) e
    ∙ has_name_refl rub
