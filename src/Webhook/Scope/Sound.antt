-- ===== src/Webhook/Scope/Sound.antt =====
-- What it takes for a syncer to be admitted (internal/webhook/v1beta5/syncer_permissions.go).
use syngit.Common.{
  String, Bool, true, false, List, [], ◌∷◌, string_eq, if◌then◌else◌, ◌≡◌, ◌≢◌, refl, All, inl, inr,
  arith,
}
use syngit.Common.Errors.{
  Error, Result, ok, err, ◌>>=◌, >>=-eq-ok, Result-cases, ok-injective, Returns, Returns-bind,
  Returns-ok, Returns-map,
}
use syngit.Api.{StringMap, put, RuleWithOperations, UserInfo}
use syngit.Rbac.{SubjectAccessReviewSpec, operation_to_verb}
use syngit.Webhook.Scope.{
  join, record_forbidden, forbidden_resources, resource_key, is_operation_allowed,
  forbidden_operations, check_resources, check_versions, check_groups, check_rules,
  has_right_resources_permissions,
}
use syngit.Webhook.Scope.Granted.{HasRight, is_operation_allowed-HasRight}

put-nonempty : (m : StringMap) (key value : String) → put m key value ≢ []
put-nonempty [] key value h = cc
put-nonempty ((k, v) ∷ m) key value h = ground (arith, h)

record_forbidden_empty :
    (key : String) (ops : List String) (m : StringMap)
    → record_forbidden key ops m ≡ []
    → (m ≡ []) × (ops ≡ [])
unfolding record_forbidden
record_forbidden_empty key [] m h = (h, refl)
record_forbidden_empty key (op ∷ ops) m h = absurd (put-nonempty m key (join (op ∷ ops)) h)

none_forbidden :
    {A B : Type 0} (op : String) (forbidden : List String) (granted : Bool)
    → (granted ≡ true → A)
    → (forbidden ≡ [] → B)
    → (if granted then forbidden else op ∷ forbidden) ≡ []
    → A × B
none_forbidden op forbidden true f g h = (f refl, g h)
none_forbidden op forbidden false f g h = absurd cc

-- A loop that only adds entries to the map ends with none only if each round adds none.
Silent : (StringMap → Result StringMap) → Type 0 → Type 0
Silent loop P = (m : StringMap) → Returns (λ m'. m' ≡ [] → (m ≡ []) × P) (loop m)

Silent-done : Silent (λ m. ok m) Unit
unfolding Silent
Silent-done m h = (h, tt)

Silent-then :
    (P Q : Type 0) (first rest : StringMap → Result StringMap)
    → Silent first P
    → Silent rest Q
    → Silent (λ m. first m >>= rest) (P × Q)
unfolding Silent
Silent-then P Q first rest p q m =
    Returns-bind (λ m'. m' ≡ [] → (m ≡ []) × (P × Q)) (first m) rest
      λ m1 at.
        Returns-map _ _ (rest m1)
          (λ m' f h.
            let (one, later) = f h in
            let (start, now) = Returns-ok _ (first m) (p m) at one in (start, (now, later)))
          (q m1)

module _ (review : SubjectAccessReviewSpec → Result Bool) (error_text : Error → String)
    (user : UserInfo) where
  -- The operation is none that is reviewed, or the user has the right to it.
  pub data IsPermitted (namespaces : List String) (group version resource op : String)
      : Type 0 where
    unsupported :
        {e : Error}
        → operation_to_verb op ≡ err e
        → IsPermitted namespaces group version resource op
    reviewed :
        {verbs : List String}
        → operation_to_verb op ≡ ok verbs
        → HasRight review error_text user namespaces group version resource verbs
        → IsPermitted namespaces group version resource op

  module _ (namespaces : List String) where
    forbidden_operations-IsPermitted :
        (group version resource : String) (ops : List String)
        → Returns
            (λ forbidden. forbidden ≡ [] → All (IsPermitted namespaces group version resource) ops)
            (forbidden_operations review error_text user namespaces group version resource ops)
    unfolding forbidden_operations
    forbidden_operations-IsPermitted group version resource [] = λ _. tt
    forbidden_operations-IsPermitted group version resource (op ∷ ops) =
        let P : List String → Type 0 = λ forbidden.
          forbidden ≡ [] → All (IsPermitted namespaces group version resource) (op ∷ ops) in
        let rest =
          forbidden_operations review error_text user namespaces group version resource ops in
        let ih = forbidden_operations-IsPermitted group version resource ops in
        elim (Result-cases (operation_to_verb op)) [
          | inr (e, skipped) ↦
              rw (skipped, forbidden_operations)
                (Returns-map _ P rest (λ forbidden f none. (unsupported skipped, f none)) ih)
          | inl (verbs, supported) ↦
              rw (supported, forbidden_operations)
                (Returns-bind P
                  (is_operation_allowed review error_text user namespaces group version resource
                    verbs)
                  _
                  λ granted at. Returns-bind P rest _ λ forbidden below.
                    none_forbidden op forbidden granted
                      (λ t. reviewed supported (
                        Returns-ok _ _
                          (is_operation_allowed-HasRight review error_text user namespaces group
                            version resource verbs)
                          at t))
                      (Returns-ok _ rest ih below))
        ]

    abbrev Ops : String → String → List String → String → Type 0
    Ops group version ops resource = All (IsPermitted namespaces group version resource) ops

    check_resources-Silent :
        (ops : List String) (group version : String) (resources : List String)
        → Silent
            (check_resources review error_text user namespaces ops group version resources)
            (All (Ops group version ops) resources)
    unfolding check_resources Silent
    check_resources-Silent ops group version [] = λ m h. (h, tt)
    check_resources-Silent ops group version (resource ∷ resources) = λ m.
        Returns-bind (λ m'. m' ≡ [] → (m ≡ []) × All (Ops group version ops) (resource ∷ resources))
          (forbidden_operations review error_text user namespaces group version resource ops) _
          λ forbidden at.
            Returns-map _ _
              (check_resources review error_text user namespaces ops group version resources
                (record_forbidden (resource_key group version resource) forbidden m))
              (λ m' f h.
                let (cleared, later) = f h in
                let (start, silent) =
                  record_forbidden_empty (resource_key group version resource) forbidden m
                    cleared in
                (
                  start,
                  (
                    Returns-ok _ _ (forbidden_operations-IsPermitted group version resource ops) at
                        silent,
                    later,
                  ),
                ))
              (check_resources-Silent ops group version resources
                (record_forbidden (resource_key group version resource) forbidden m))

    check_versions-Silent :
        (ops resources : List String) (group : String) (versions : List String)
        → Silent
            (check_versions review error_text user namespaces ops resources group versions)
            (All (λ version. All (Ops group version ops) resources) versions)
    unfolding check_versions
    check_versions-Silent ops resources group [] = Silent-done
    check_versions-Silent ops resources group (version ∷ versions) =
        Silent-then _ _ _ _ (check_resources-Silent ops group version resources)
          (check_versions-Silent ops resources group versions)

    check_groups-Silent :
        (ops resources versions groups : List String)
        → Silent
            (check_groups review error_text user namespaces ops resources versions groups)
            (All (λ group. All (λ version. All (Ops group version ops) resources) versions) groups)
    unfolding check_groups
    check_groups-Silent ops resources versions [] = Silent-done
    check_groups-Silent ops resources versions (group ∷ groups) =
        Silent-then _ _ _ _ (check_versions-Silent ops resources group versions)
          (check_groups-Silent ops resources versions groups)

    -- Every operation of the rule, on each of its resources.
    abbrev pub IsPermittedRule : RuleWithOperations → Type 0
    IsPermittedRule rule =
        All
          (λ group.
            All (λ version. All (Ops group version rule.operations) rule.resources)
              rule.api_versions)
          rule.api_groups

    check_rules-Silent :
        (rules : List RuleWithOperations)
        → Silent (check_rules review error_text user namespaces rules) (All IsPermittedRule rules)
    unfolding check_rules
    check_rules-Silent [] = Silent-done
    check_rules-Silent (rule ∷ rules) =
        Silent-then _ _ _ _
          (check_groups-Silent rule.operations rule.resources rule.api_versions rule.api_groups)
          (check_rules-Silent rules)

    forbidden_resources_empty : (m : StringMap) → forbidden_resources m ≡ [] → m ≡ []
    unfolding forbidden_resources
    forbidden_resources_empty [] h = refl
    forbidden_resources_empty ((k, v) ∷ m) h = absurd cc

    -- If no resource is reported as forbidden, then the author holds, on every resource of every
    -- rule and in every namespace, one of the verbs of each operation; operations that have no verb
    -- and resources that the API server does not know are passed over.
    pub has_right_resources_permissions-IsPermittedRule :
        (rules : List RuleWithOperations)
        → has_right_resources_permissions review error_text user namespaces rules ≡ ok []
        → All IsPermittedRule rules
    unfolding has_right_resources_permissions Silent
    has_right_resources_permissions-IsPermittedRule rules h =
        let (m, at, e) = >>=-eq-ok (check_rules review error_text user namespaces rules []) _ h in
        (Returns-ok _ _ (check_rules-Silent rules []) at
          (forbidden_resources_empty m (ok-injective e))).1
