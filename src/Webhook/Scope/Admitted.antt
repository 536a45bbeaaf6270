-- ===== src/Webhook/Scope/Admitted.antt =====
-- What `authorizeSyncer` (internal/webhook/v1beta5/syncer_permissions.go) demands of the author.
use syngit.Common.{
  String, Bool, true, false, Option, none, some, List, [], ◌∷◌, ◌==◌, string_eq, if◌then◌else◌, ◌≡◌,
  ◌⊎◌, refl, All, inl, inr, Bool-cases, arith,
}
use syngit.Common.Errors.{Error, Result, ok, err}
use syngit.Api.{Syncer, syncer_meta, syncer_spec, identity_namespace, UserInfo}
use syngit.Refs.{ObjectRef, remote_syncer_refs}
use syngit.Rbac.{SubjectAccessReviewSpec, check_access, authorize_cross_namespace_refs}
use syngit.Rbac.Laws.{Checked, authorize_cross_namespace_refs-none}
use syngit.Webhook.{Answer, allowed}
use syngit.Webhook.Scope.{
  attributes, has_right_resources_permissions, check_identity_store, answer_store, answer_refs,
  review_refs, check_refs, check_scope, authorize_syncer,
}
use syngit.Webhook.Scope.Sound.{IsPermittedRule, has_right_resources_permissions-IsPermittedRule}

pub if_false : (x y : Answer) {z : Answer} {b : Bool} → b ≡ false → (if b then x else y) ≡ z → y ≡ z
if_false x y e h = ground (arith, e, h)

module _ (review : SubjectAccessReviewSpec → Result Bool) (error_text : Error → String)
    (user : UserInfo) where
  -- The three questions: the scoped resources, the identity store, and the references.
  pub record IsAdmitted (syncer : Syncer) (namespaces : List String) : Type 0 where
    pub scope :
        All
          (IsPermittedRule review error_text user namespaces)
          (syncer_spec syncer).scoped_resources.rules
    pub identity :
        ((identity_namespace syncer == (syncer_meta syncer).namespace) ≡ true)
        ⊎ (check_access review user (
              attributes
                (identity_namespace syncer)
                "list"
                "syngit.io"
                "v1beta5"
                "remoteuserbindings")
            ≡ ok true)
    pub refs : List ObjectRef
    pub resolved : remote_syncer_refs (syncer_spec syncer) (syncer_meta syncer).namespace ≡ ok refs
    pub checked : All (Checked review user (syncer_meta syncer).namespace []) refs

  check_scope_allowed :
      (scope : Result (List String)) (next : Answer)
      → check_scope review error_text user scope next ≡ allowed
      → (scope ≡ ok []) × (next ≡ allowed)
  unfolding check_scope
  check_scope_allowed (err e) next h = absurd cc
  check_scope_allowed (ok []) next h = (refl, h)
  check_scope_allowed (ok (r ∷ rs)) next h = absurd cc

  answer_store_allowed :
      (identity : String) (next : Answer) (r : Result Bool)
      → answer_store review error_text user identity next r ≡ allowed
      → (r ≡ ok true) × (next ≡ allowed)
  unfolding answer_store
  answer_store_allowed identity next (err e) h = absurd cc
  answer_store_allowed identity next (ok true) h = (refl, h)
  answer_store_allowed identity next (ok false) h = absurd cc

  check_identity_store_allowed :
      (syncer : Syncer) (next : Answer)
      → check_identity_store review error_text user syncer next ≡ allowed
      → (((identity_namespace syncer == (syncer_meta syncer).namespace) ≡ true)
          ⊎ (check_access review user (
                attributes
                  (identity_namespace syncer)
                  "list"
                  "syngit.io"
                  "v1beta5"
                  "remoteuserbindings")
              ≡ ok true))
        × (next ≡ allowed)
  unfolding check_identity_store
  check_identity_store_allowed syncer next h =
      let identity = identity_namespace syncer in
      let answer =
        check_access review user
          (attributes identity "list" "syngit.io" "v1beta5" "remoteuserbindings") in
      elim (Bool-cases (identity == (syncer_meta syncer).namespace)) [
        | inl own ↦ (inl own, ground (arith, own, h))
        | inr away ↦
            let (granted, later) =
              answer_store_allowed identity next answer (if_false next _ away h) in
            (inr granted, later)
      ]

  answer_refs_allowed :
      (r : Result (Option ObjectRef)) → answer_refs review error_text user r ≡ allowed → r ≡ ok none
  unfolding answer_refs
  answer_refs_allowed (err e) h = absurd cc
  answer_refs_allowed (ok none) h = refl
  answer_refs_allowed (ok (some ref)) h = absurd cc

  review_refs_allowed :
      (syncer : Syncer) (r : Result (List ObjectRef))
      → review_refs review error_text user syncer r ≡ allowed
      → (refs : List ObjectRef) × (r ≡ ok refs)
        × All (Checked review user (syncer_meta syncer).namespace []) refs
  unfolding review_refs
  review_refs_allowed syncer (err e) h = absurd cc
  review_refs_allowed syncer (ok refs) h =
      let own = (syncer_meta syncer).namespace in
      (
        refs,
        refl,
        (authorize_cross_namespace_refs-none review user refs own []).0
            (answer_refs_allowed (authorize_cross_namespace_refs review user refs own []) h),
      )

  -- A syncer is admitted only if its author may perform every operation that it scopes, in every
  -- namespace that is reviewed; may list the bindings of its identity store, where that is not its
  -- own namespace; and may get every object that it references outside its own namespace.
  pub authorize_syncer-IsAdmitted :
      (syncer : Syncer) (namespaces : List String)
      → authorize_syncer review error_text user syncer namespaces ≡ allowed
      → IsAdmitted syncer namespaces
  unfolding authorize_syncer check_refs
  authorize_syncer-IsAdmitted syncer namespaces h =
      let rules = (syncer_spec syncer).scoped_resources.rules in
      let (silent, one) =
        check_scope_allowed
          (has_right_resources_permissions review error_text user namespaces rules) _ h in
      let (identity, two) = check_identity_store_allowed syncer _ one in
      let (refs, resolved, checked) = review_refs_allowed syncer _ two in
      record {
        scope =
            has_right_resources_permissions-IsPermittedRule review error_text user namespaces rules
              silent;
        identity = identity;
        refs = refs;
        resolved = resolved;
        checked = checked;
      }
