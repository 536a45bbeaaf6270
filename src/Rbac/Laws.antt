-- ===== src/Rbac/Laws.antt =====
-- What an authorization of references (pkg/rbac/authorize.go) establishes.
use syngit.Common.{
  String, Bool, true, false, none, some, List, [], ◌∷◌, ◌++◌, string_eq, ◌≡◌, ◌⊎◌, inl, inr, refl,
  arith, All, Bool-cases, In, In-cons, ◌↔◌,
}
use syngit.Common.Errors.{Result, ok, Result-cases}
use syngit.Api.{UserInfo}
use syngit.Refs.{ObjectRef}
use syngit.Rbac.{
  SubjectAccessReviewSpec, check_access, get_attributes, authorize_refs, is_exempt, cross_namespace,
  authorize_cross_namespace_refs,
}

In-cross_namespace :
    (owner : String) (exempt : List String) (ref : ObjectRef) (refs : List ObjectRef)
    → In ref (cross_namespace owner exempt refs)
    → In ref refs × (is_exempt owner exempt ref ≡ false)
unfolding cross_namespace
In-cross_namespace owner exempt ref [] m = elim m [ ]
In-cross_namespace owner exempt ref (r ∷ refs) m = elim (Bool-cases (is_exempt owner exempt r)) [
  | inl e ↦
      let (m', away) = In-cross_namespace owner exempt ref refs (rw e at m) in (In.there m', away)
  | inr e ↦ elim (In-cons (rw e at m)) [
    | inl p ↦ (In.here p, rw (← p) e)
    | inr m' ↦ let (m'', away) = In-cross_namespace owner exempt ref refs m' in (In.there m'', away)
  ]
]

module _ (review : SubjectAccessReviewSpec → Result Bool) (user : UserInfo) where
  -- The API server lets the user get the object.
  abbrev pub MayGet : ObjectRef → Type 0
  MayGet ref = check_access review user (get_attributes ref) ≡ ok true

  -- No reference is denied exactly if the user may get every one of them.
  pub authorize_refs-none :
      (refs : List ObjectRef) → authorize_refs review user refs ≡ ok none → All MayGet refs
  unfolding authorize_refs
  authorize_refs-none [] h = tt
  authorize_refs-none (ref ∷ refs) h = ground (arith, authorize_refs-none refs)

  pub authorize_refs_of_All :
      (refs : List ObjectRef) → All MayGet refs → authorize_refs review user refs ≡ ok none
  unfolding authorize_refs
  authorize_refs_of_All [] h = refl
  authorize_refs_of_All (ref ∷ refs) h = rw (h.0) (authorize_refs_of_All refs h.1)

  -- A denial names the first reference that the API server refuses: the ones before it are allowed.
  pub authorize_refs-some :
      (refs : List ObjectRef) (ref : ObjectRef)
      → authorize_refs review user refs ≡ ok (some ref)
      → (before : List ObjectRef) × (after : List ObjectRef) × (refs ≡ before ++ ref ∷ after)
        × All MayGet before
        × (check_access review user (get_attributes ref) ≡ ok false)
  unfolding authorize_refs
  authorize_refs-some [] ref h = cc
  authorize_refs-some (r ∷ refs) ref h =
      elim (Result-cases (check_access review user (get_attributes r))) [
        | inl (true, e) ↦
            let (before, after, split, allowed, denied) =
              authorize_refs-some refs ref (rw e at h) in
            (r ∷ before, after, cc, (e, allowed), denied)
        | inl (false, e) ↦ ([], refs, ground arith, tt, ground arith)
        | inr (error, e) ↦ absurd (ground arith)
      ]

  -- Exempt from the review, or allowed by it.
  abbrev pub Checked : String → List String → ObjectRef → Type 0
  Checked owner exempt ref = (is_exempt owner exempt ref ≡ true) ⊎ MayGet ref

  unchecked-All :
      (owner : String) (exempt : List String) (refs : List ObjectRef)
      → All MayGet (cross_namespace owner exempt refs)
      → All (Checked owner exempt) refs
  unfolding cross_namespace
  unchecked-All owner exempt [] h = tt
  unchecked-All owner exempt (ref ∷ refs) h = elim (Bool-cases (is_exempt owner exempt ref)) [
    | inl e ↦ (inl e, unchecked-All owner exempt refs (rw e at h))
    | inr e ↦
        let h' : All MayGet (ref ∷ cross_namespace owner exempt refs) = rw e at h in
        (inr h'.0, unchecked-All owner exempt refs h'.1)
  ]

  All-unchecked :
      (owner : String) (exempt : List String) (refs : List ObjectRef)
      → All (Checked owner exempt) refs
      → All MayGet (cross_namespace owner exempt refs)
  unfolding cross_namespace
  All-unchecked owner exempt [] h = tt
  All-unchecked owner exempt (ref ∷ refs) h = elim (Bool-cases (is_exempt owner exempt ref)) [
    | inl e ↦ rw e (All-unchecked owner exempt refs h.1)
    | inr e ↦ rw e (ground arith, All-unchecked owner exempt refs h.1)
  ]

  -- The references into the owner's namespace and into the exempt ones are never reviewed; nothing
  -- is denied exactly if the user may get each of the others.
  pub authorize_cross_namespace_refs-none :
      (refs : List ObjectRef) (owner : String) (exempt : List String)
      → (authorize_cross_namespace_refs review user refs owner exempt ≡ ok none)
        ↔ All (Checked owner exempt) refs
  unfolding authorize_cross_namespace_refs
  authorize_cross_namespace_refs-none refs owner exempt = (
    (λ h.
        unchecked-All owner exempt refs
          (authorize_refs-none (cross_namespace owner exempt refs) h)),
    (λ h.
        authorize_refs_of_All (cross_namespace owner exempt refs)
          (All-unchecked owner exempt refs h)),
  )

  authorize_refs_denied :
      (refs : List ObjectRef) (ref : ObjectRef)
      → authorize_refs review user refs ≡ ok (some ref)
      → In ref refs × (check_access review user (get_attributes ref) ≡ ok false)
  unfolding authorize_refs
  authorize_refs_denied [] ref h = cc
  authorize_refs_denied (r ∷ refs) ref h =
      elim (Result-cases (check_access review user (get_attributes r))) [
        | inl (true, e) ↦
            let (m, denied) = authorize_refs_denied refs ref (rw e at h) in (In.there m, denied)
        | inl (false, e) ↦ (In.here (ground arith), ground arith)
        | inr (error, e) ↦ absurd (ground arith)
      ]

  -- A denied reference is one of those given, outside the owner's namespace and the exempt ones, and
  -- the API server refuses the user to get it.
  pub authorize_cross_namespace_refs-some :
      (refs : List ObjectRef) (owner : String) (exempt : List String) (ref : ObjectRef)
      → authorize_cross_namespace_refs review user refs owner exempt ≡ ok (some ref)
      → In ref refs
        × (is_exempt owner exempt ref ≡ false)
        × (check_access review user (get_attributes ref) ≡ ok false)
  unfolding authorize_cross_namespace_refs
  authorize_cross_namespace_refs-some refs owner exempt ref h =
      let (m, denied) = authorize_refs_denied (cross_namespace owner exempt refs) ref h in
      let (m', away) = In-cross_namespace owner exempt ref refs m in (m', away, denied)
