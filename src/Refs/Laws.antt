-- ===== src/Refs/Laws.antt =====
-- The collector of references (pkg/refs/refs.go) against a plain specification: resolve the named
-- references one by one, in order, and stop at the first that cannot be resolved.
use mathlib.Core.List.{append_assoc, append-nil}
use syngit.Common.{
  ℕ, suc, String, Option, none, some, List, [], ◌∷◌, ◌++◌, ◌==◌, string_eq, if◌then◌else◌, ◌≡◌,
  refl, ap, ◌∙◌, arith, true, false, Bool-cases, inl, inr,
}
use syngit.Common.Errors.{Error, Result, ok, err, FieldPath, child, index, ◌>>=◌, Result-cases}
use syngit.Api.{ObjectReference, RemoteSyncerSpec, RemoteUserSpec, RemoteUserBindingSpec}
use syngit.Refs.{
  ObjectRef, Gvr, RefCollector, resolve_namespace, new_ref_collector, object_ref, add, result,
  add_pointer, add_pointers, add_all, add_named, spec_child, remote_syncer_refs, remote_user_refs,
  remote_user_binding_refs, remote_users_gvr, remote_targets_gvr, config_maps_gvr, secrets_gvr,
}

-- A reference, what it designates, and the field that holds it.
pub record Candidate : Type 0 where
  pub ref : ObjectReference
  pub gvr : Gvr
  pub path : FieldPath

unfoldable pub resolve_all : String → List Candidate → Result (List ObjectRef)
resolve_all owner [] = ok []
resolve_all owner (c ∷ cs) =
    let rest = resolve_all owner cs in
    if c.ref.name == ""
    then rest
    else (resolve_namespace c.ref.namespace owner c.path) >>= λ ns.
        rest >>= λ refs. ok (object_ref ns c.ref.name c.gvr c.path ∷ refs)

abbrev candidate : ObjectReference → Gvr → FieldPath → Candidate
candidate r g p = record { ref = r; gvr = g; path = p }

-- The candidates of one field, numbered.
abbrev pub numbered : ℕ → List ObjectReference → Gvr → String → List Candidate
numbered i [] gvr field = []
numbered i (r ∷ rs) gvr field =
    candidate r gvr (child "spec" ∷ child field ∷ index i ∷ []) ∷ numbered (suc i) rs gvr field

abbrev pub pointer : Option ObjectReference → Gvr → FieldPath → List Candidate
pointer none gvr path = []
pointer (some r) gvr path = candidate r gvr path ∷ []

abbrev pub pointers : ℕ → List (Option ObjectReference) → Gvr → String → List Candidate
pointers i [] gvr field = []
pointers i (r ∷ rs) gvr field =
    pointer r gvr (child "spec" ∷ child field ∷ index i ∷ []) ++ pointers (suc i) rs gvr field

abbrev pub syncer_candidates : RemoteSyncerSpec → List Candidate
syncer_candidates spec =
    pointer spec.default_remote_user_ref remote_users_gvr (spec_child "defaultRemoteUserRef")
    ++ (pointer spec.default_remote_target_ref remote_targets_gvr
          (spec_child "defaultRemoteTargetRef")
        ++ (pointers 0 spec.excluded_fields_config_maps_ref config_maps_gvr
              "excludedFieldsConfigMapsRef"
            ++ (candidate spec.ca_bundle_secret_ref secrets_gvr (spec_child "caBundleSecretRef")
                ∷ candidate spec.sops.secret_ref secrets_gvr
                    (child "spec" ∷ child "sops" ∷ child "secretRef" ∷ [])
                ∷ [])))

abbrev pub binding_candidates : RemoteUserBindingSpec → List Candidate
binding_candidates spec =
    numbered 0 spec.remote_user_refs remote_users_gvr "remoteUserRefs"
    ++ numbered 0 spec.remote_target_refs remote_targets_gvr "remoteTargetRefs"

-- Every addition in turn.
collect : RefCollector → List Candidate → RefCollector
collect c [] = c
collect c (x ∷ xs) = collect (add c x.ref x.gvr x.path) xs

collect-append :
    (c : RefCollector) (xs ys : List Candidate) → collect c (xs ++ ys) ≡ collect (collect c xs) ys
unfolding collect
collect-append c [] ys = refl
collect-append c (x ∷ xs) ys = collect-append (add c x.ref x.gvr x.path) xs ys

add_all-collect :
    (c : RefCollector) (i : ℕ) (rs : List ObjectReference) (gvr : Gvr) (field : String)
    → add_all c i rs gvr field ≡ collect c (numbered i rs gvr field)
unfolding add_all collect
add_all-collect c i [] gvr field = refl
add_all-collect c i (r ∷ rs) gvr field =
    add_all-collect (add c r gvr (child "spec" ∷ child field ∷ index i ∷ [])) (suc i) rs gvr field

add_pointer-collect :
    (c : RefCollector) (r : Option ObjectReference) (gvr : Gvr) (path : FieldPath)
    → add_pointer c r gvr path ≡ collect c (pointer r gvr path)
unfolding add_pointer collect
add_pointer-collect c none gvr path = refl
add_pointer-collect c (some r) gvr path = refl

add_pointers-collect :
    (c : RefCollector) (i : ℕ) (rs : List (Option ObjectReference)) (gvr : Gvr) (field : String)
    → add_pointers c i rs gvr field ≡ collect c (pointers i rs gvr field)
unfolding add_pointers collect
add_pointers-collect c i [] gvr field = refl
add_pointers-collect c i (r ∷ rs) gvr field =
    let path = child "spec" ∷ child field ∷ index i ∷ [] in
    rw (collect-append, add_pointer-collect)
      (add_pointers-collect (collect c (pointer r gvr path)) (suc i) rs gvr field)

add_named-add :
    (c : RefCollector) (r : ObjectReference) (gvr : Gvr) (path : FieldPath)
    → add_named c r gvr path ≡ add c r gvr path
unfolding add_named add
add_named-add c r gvr path = ground arith

-- Once an error is recorded, it is the result.
result-collect_failed :
    (c : RefCollector) (xs : List Candidate) (e : Error)
    → c.error ≡ some e
    → result (collect c xs) ≡ err e
unfolding collect result add
result-collect_failed c [] e h = ground arith
result-collect_failed c (x ∷ xs) e h =
    result-collect_failed (add c x.ref x.gvr x.path) xs e (ground arith)

abbrev collecting : String → List ObjectRef → RefCollector
collecting owner refs = record { owner_namespace = owner; refs = refs; error = none }

add_unnamed :
    (c : RefCollector) (x : Candidate) → (x.ref.name == "") ≡ true → add c x.ref x.gvr x.path ≡ c
unfolding add
add_unnamed c x h = ground arith

add_resolved :
    (owner : String) (refs : List ObjectRef) (x : Candidate) (ns : String)
    → (x.ref.name == "") ≡ false
    → resolve_namespace x.ref.namespace owner x.path ≡ ok ns
    → add (collecting owner refs) x.ref x.gvr x.path
      ≡ collecting owner (refs ++ object_ref ns x.ref.name x.gvr x.path ∷ [])
unfolding add
add_resolved owner refs x ns named h = rw (named, h)

add_unresolved :
    (owner : String) (refs : List ObjectRef) (x : Candidate) (e : Error)
    → (x.ref.name == "") ≡ false
    → resolve_namespace x.ref.namespace owner x.path ≡ err e
    → (add (collecting owner refs) x.ref x.gvr x.path).error ≡ some e
unfolding add
add_unresolved owner refs x e named h = rw (named, h)

prepend :
    (refs : List ObjectRef) (r : ObjectRef) (m : Result (List ObjectRef))
    → (m >>= λ rest. ok ((refs ++ r ∷ []) ++ rest))
      ≡ ((m >>= λ rest. ok (r ∷ rest)) >>= λ rest. ok (refs ++ rest))
prepend refs r (ok rest) = ap ok (append_assoc refs (r ∷ []) rest)
prepend refs r (err e) = refl

-- What is collected so far stands before what the rest resolves to.
result-collect :
    (owner : String) (refs : List ObjectRef) (xs : List Candidate)
    → result (collect (collecting owner refs) xs)
      ≡ (resolve_all owner xs >>= λ rest. ok (refs ++ rest))
unfolding collect resolve_all
result-collect owner refs [] = unfold result in rw append-nil
result-collect owner refs (x ∷ xs) = elim (Bool-cases (x.ref.name == "")) [
  | inl unnamed ↦
      rw (unnamed, add_unnamed (collecting owner refs) x unnamed) (result-collect owner refs xs)
  | inr named ↦ elim (Result-cases (resolve_namespace x.ref.namespace owner x.path)) [
    | inl (ns, h) ↦
        rw (named, h, add_resolved owner refs x ns named h)
          (result-collect owner (refs ++ object_ref ns x.ref.name x.gvr x.path ∷ []) xs
            ∙ prepend refs (object_ref ns x.ref.name x.gvr x.path) (resolve_all owner xs))
    | inr (e, h) ↦
        rw (named, h)
          (result-collect_failed (add (collecting owner refs) x.ref x.gvr x.path) xs e
            (add_unresolved owner refs x e named h))
  ]
]

ok_bind : (m : Result (List ObjectRef)) → (m >>= λ rest. ok ([] ++ rest)) ≡ m
ok_bind (ok rest) = refl
ok_bind (err e) = refl

collect_all :
    (owner : String) (xs : List Candidate)
    → result (collect (new_ref_collector owner) xs) ≡ resolve_all owner xs
collect_all owner xs = result-collect owner [] xs ∙ ok_bind (resolve_all owner xs)

-- The collector of a RemoteSyncer resolves its five kinds of references in the order of the fields,
-- and returns either all the named ones or the first failure.
pub remote_syncer_refs-resolve_all :
    (spec : RemoteSyncerSpec) (owner : String)
    → remote_syncer_refs spec owner ≡ resolve_all owner (syncer_candidates spec)
unfolding remote_syncer_refs collect
remote_syncer_refs-resolve_all spec owner =
    rw
      (
        ← collect_all owner (syncer_candidates spec),
        collect-append,
        collect-append,
        collect-append,
        add_named-add,
        add_named-add,
        add_pointers-collect,
        add_pointer-collect,
        add_pointer-collect,
      )
      refl

pub remote_user_refs-resolve_all :
    (spec : RemoteUserSpec) (owner : String)
    → remote_user_refs spec owner
      ≡ resolve_all owner (candidate spec.secret_ref secrets_gvr (spec_child "secretRef") ∷ [])
unfolding remote_user_refs collect
remote_user_refs-resolve_all spec owner =
    rw
      (
        ← collect_all owner (candidate spec.secret_ref secrets_gvr (spec_child "secretRef") ∷ []),
        add_named-add,
      )
      refl

-- The collector of a RemoteUserBinding.
pub remote_user_binding_refs-resolve_all :
    (spec : RemoteUserBindingSpec) (owner : String)
    → remote_user_binding_refs spec owner ≡ resolve_all owner (binding_candidates spec)
unfolding remote_user_binding_refs
remote_user_binding_refs-resolve_all spec owner =
    rw
      (
        ← collect_all owner (binding_candidates spec),
        collect-append,
        add_all-collect,
        add_all-collect,
      )
      refl
