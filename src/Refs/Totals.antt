-- ===== src/Refs/Totals.antt =====
-- When references resolve, and what a resolved reference looks like (pkg/refs/refs.go).
use mathlib.Core.Path.{subst}
use syngit.Common.{
  String, List, [], ◌∷◌, ◌==◌, string_eq, ◌≡◌, arith, All, all, ◌||◌, not, true, false, Bool,
  Bool-cases, inl, inr,
}
use syngit.Common.Errors.{Result, ok, err, ◌>>=◌, >>=-eq-ok}
use syngit.Api.{RemoteSyncerSpec, RemoteUserBindingSpec}
use syngit.Refs.{
  ObjectRef, resolve_namespace, object_ref, remote_syncer_refs, remote_user_binding_refs,
}
use syngit.Refs.Laws.{
  Candidate, resolve_all, syncer_candidates, binding_candidates, remote_syncer_refs-resolve_all,
  remote_user_binding_refs-resolve_all,
}

abbrev pub is_ok {ℓ} : {A : Type ℓ} → Result A → Bool
is_ok (ok _) = true
is_ok (err _) = false

-- The reference has a namespace of its own, or is ignored for want of a name.
abbrev pub is_qualified : Candidate → Bool
is_qualified c = c.ref.name == "" || not (c.ref.namespace == "")

abbrev refs_of : List ObjectRef → Result (List ObjectRef) → List ObjectRef
refs_of d (ok rs) = rs
refs_of d (err e) = d

is_ok-bind {ℓ κ} :
    {A : Type ℓ} {B : Type κ} (m : Result A) (f : A → B) → is_ok (m >>= λ a. ok (f a)) ≡ is_ok m
is_ok-bind (ok a) f = λ i. true
is_ok-bind (err e) f = λ i. false

resolve_all-is_ok :
    (owner : String) (cs : List Candidate)
    → is_ok (resolve_all owner cs) ≡ (not (owner == "") || all is_qualified cs)
unfolding resolve_all resolve_namespace
resolve_all-is_ok owner [] = ground arith
resolve_all-is_ok owner (c ∷ cs) = ground (arith, resolve_all-is_ok owner cs)

-- A namespaced syncer's references always resolve. Those of a cluster-wide one, whose namespace is
-- empty, resolve exactly if each named reference carries a namespace of its own.
pub remote_syncer_refs-is_ok :
    (spec : RemoteSyncerSpec) (owner : String)
    → is_ok (remote_syncer_refs spec owner)
      ≡ (not (owner == "") || all is_qualified (syncer_candidates spec))
remote_syncer_refs-is_ok spec owner =
    rw remote_syncer_refs-resolve_all (resolve_all-is_ok owner (syncer_candidates spec))

-- The object has a name and a namespace.
pub record IsResolved (r : ObjectRef) : Type 0 where
  pub named : (r.name == "") ≡ false
  pub placed : (r.namespace == "") ≡ false

resolved :
    (owner : String) (c : Candidate) (ns : String)
    → (c.ref.name == "") ≡ false
    → resolve_namespace c.ref.namespace owner c.path ≡ ok ns
    → IsResolved (object_ref ns c.ref.name c.gvr c.path)
unfolding resolve_namespace
resolved owner c ns h r = record { named = h; placed = ground arith }

cons-IsResolved :
    (x : ObjectRef) (m : Result (List ObjectRef)) (rs : List ObjectRef)
    → (m >>= λ refs. ok (x ∷ refs)) ≡ ok rs
    → IsResolved x
    → ((rest : List ObjectRef) → m ≡ ok rest → All IsResolved rest)
    → All IsResolved rs
cons-IsResolved x (ok rest) rs h p k =
    subst (λ m. All IsResolved (refs_of rs m)) h (p, k rest (λ i. ok rest))
cons-IsResolved x (err e) rs h p k = cc

resolve_all-IsResolved :
    (owner : String) (cs : List Candidate) (rs : List ObjectRef)
    → resolve_all owner cs ≡ ok rs
    → All IsResolved rs
unfolding resolve_all
resolve_all-IsResolved owner [] [] h = tt
resolve_all-IsResolved owner [] (r ∷ rs) h = cc
resolve_all-IsResolved owner (c ∷ cs) rs h = elim (Bool-cases (c.ref.name == "")) [
  | inl unnamed ↦ resolve_all-IsResolved owner cs rs (rw unnamed at h)
  | inr named ↦
      let (ns, found, h') = >>=-eq-ok _ _ (rw named at h) in
      cons-IsResolved (object_ref ns c.ref.name c.gvr c.path) (resolve_all owner cs) rs h'
        (resolved owner c ns named found) (resolve_all-IsResolved owner cs)
]

-- A collected reference always has a name and a namespace.
pub remote_syncer_refs-IsResolved :
    (spec : RemoteSyncerSpec) (owner : String) (rs : List ObjectRef)
    → remote_syncer_refs spec owner ≡ ok rs
    → All IsResolved rs
remote_syncer_refs-IsResolved spec owner rs h =
    resolve_all-IsResolved owner (syncer_candidates spec) rs
      (rw remote_syncer_refs-resolve_all at h)

pub remote_user_binding_refs-is_ok :
    (spec : RemoteUserBindingSpec) (owner : String)
    → is_ok (remote_user_binding_refs spec owner)
      ≡ (not (owner == "") || all is_qualified (binding_candidates spec))
remote_user_binding_refs-is_ok spec owner =
    rw remote_user_binding_refs-resolve_all (resolve_all-is_ok owner (binding_candidates spec))
