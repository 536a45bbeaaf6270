-- ===== src/Webhook/Scope.antt =====
-- internal/webhook/v1beta5/syncer_permissions.go: whether the author may intercept what a syncer
-- scopes, and read what it references.
pub mod Granted
pub mod Sound
pub mod Admitted
use Prim.Native.String.{◌++◌ as str_append}
use syngit.Common.{
  String, Bool, true, false, Option, none, some, List, [], ◌∷◌, ◌++◌, ◌==◌, string_eq,
  if◌then◌else◌,
}
use syngit.Common.Errors.{Error, Result, ok, err, ◌>>=◌, other, resource_scope_forbidden}
use syngit.Api.{
  StringMap, put, RuleWithOperations, Syncer, syncer_meta, syncer_spec, identity_namespace,
  UserInfo,
}
use syngit.Refs.{ObjectRef, remote_syncer_refs}
use syngit.Rbac.{
  ResourceAttributes, SubjectAccessReviewSpec, check_access, authorize_cross_namespace_refs,
  operation_to_verb,
}
use syngit.Webhook.{
  Answer, allowed, denied, errored, bad_request, internal_server_error,
  is_invalid_combination_error, cross_namespace_denied,
}

-- What the loop over the verbs finds in one namespace.
pub data Held : Type 0 where
  held : Bool → Held
  invalid_combination : Held

abbrev pub attributes : String → String → String → String → String → ResourceAttributes
attributes namespace verb group version resource = record {
  namespace = namespace;
  verb = verb;
  group = group;
  version = version;
  resource = resource;
  name = "";
}

-- A namespace where no verb is held forbids the operation; an invalid combination settles it.
pub one_namespace : Held → Result Bool → Result Bool
one_namespace (held true) rest = rest
one_namespace (held false) rest = ok false
one_namespace invalid_combination rest = ok true

-- `strings.Join(operations, ", ")`
join : List String → String
join [] = ""
join (s ∷ []) = s
join (s ∷ t ∷ ss) = str_append s (str_append ", " (join (t ∷ ss)))

record_forbidden : String → List String → StringMap → StringMap
unfolding join
record_forbidden key [] m = m
record_forbidden key (op ∷ ops) m = put m key (join (op ∷ ops))

forbidden_resources : StringMap → List String
forbidden_resources [] = []
forbidden_resources ((k, v) ∷ m) =
    str_append k (str_append " [" (str_append v "]")) ∷ forbidden_resources m

-- `fmt.Sprintf("%s/%s %s", group, version, resource)`
abbrev resource_key : String → String → String → String
resource_key group version resource =
    str_append group (str_append "/" (str_append version (str_append " " resource)))

module _ (review : SubjectAccessReviewSpec → Result Bool) (error_text : Error → String)
    (user : UserInfo) where
  -- The loop over the verbs: one that is held ends it, and so does an invalid combination.
  pub held_verb : String → String → String → String → List String → Result Held
  held_verb namespace group version resource [] = ok (held false)
  held_verb namespace group version resource (verb ∷ verbs) =
      elim (check_access review user (attributes namespace verb group version resource)) [
        | ok true ↦ ok (held true)
        | ok false ↦ held_verb namespace group version resource verbs
        | err e ↦
            if is_invalid_combination_error (error_text e) then ok invalid_combination else err e
      ]

  -- `isOperationAllowed`: one of the verbs in every namespace.
  unfoldable pub is_operation_allowed :
      List String → String → String → String → List String → Result Bool
  unfolding held_verb one_namespace
  is_operation_allowed [] group version resource verbs = ok true
  is_operation_allowed (namespace ∷ namespaces) group version resource verbs =
      let rest = is_operation_allowed namespaces group version resource verbs in
      held_verb namespace group version resource verbs >>= λ h. one_namespace h rest

  module _ (namespaces : List String) where
    -- The operations of a rule that the user may not perform; an unsupported one is skipped.
    pub forbidden_operations : String → String → String → List String → Result (List String)
    unfolding is_operation_allowed
    forbidden_operations group version resource [] = ok []
    forbidden_operations group version resource (op ∷ ops) =
        let rest = forbidden_operations group version resource ops in
        elim (operation_to_verb op) [
          | err _ ↦ rest
          | ok verbs ↦ is_operation_allowed namespaces group version resource verbs >>= λ granted.
              rest >>= λ forbidden. ok (if granted then forbidden else op ∷ forbidden)
        ]

    -- The loops over the resources, the versions, the groups and the rules.
    pub check_resources : List String → String → String → List String → StringMap → Result StringMap
    unfolding forbidden_operations record_forbidden
    check_resources ops group version [] m = ok m
    check_resources ops group version (resource ∷ resources) m =
        forbidden_operations group version resource ops >>= λ forbidden.
        check_resources ops group version resources
          (record_forbidden (resource_key group version resource) forbidden m)

    pub check_versions :
        List String → List String → String → List String → StringMap → Result StringMap
    unfolding check_resources
    check_versions ops resources group [] m = ok m
    check_versions ops resources group (version ∷ versions) m =
        check_resources ops group version resources m >>= λ m'.
        check_versions ops resources group versions m'

    pub check_groups :
        List String → List String → List String → List String → StringMap → Result StringMap
    unfolding check_versions
    check_groups ops resources versions [] m = ok m
    check_groups ops resources versions (group ∷ groups) m =
        check_versions ops resources group versions m >>= λ m'.
        check_groups ops resources versions groups m'

    pub check_rules : List RuleWithOperations → StringMap → Result StringMap
    unfolding check_groups
    check_rules [] m = ok m
    check_rules (rule ∷ rules) m =
        check_groups rule.operations rule.resources rule.api_versions rule.api_groups m >>= λ m'.
        check_rules rules m'

    -- `hasRightResourcesPermissions`: the resources that the user may not scope.
    unfoldable pub has_right_resources_permissions : List RuleWithOperations → Result (List String)
    unfolding check_rules forbidden_resources
    has_right_resources_permissions rules = check_rules rules [] >>= λ m. ok (forbidden_resources m)

  answer_store : String → Answer → Result Bool → Answer
  answer_store identity next (err e) = errored internal_server_error e
  answer_store identity next (ok true) = next
  answer_store identity next (ok false) = denied (
      other (
        str_append "the user " (
          str_append user.username (
            str_append
              " is not allowed to list the remoteuserbindings of the identity store namespace "
              identity))))

  check_identity_store : Syncer → Answer → Answer
  unfolding answer_store
  check_identity_store syncer next =
      if identity_namespace syncer == (syncer_meta syncer).namespace
      then next
      else answer_store (identity_namespace syncer) next (
          check_access review user (
            attributes (identity_namespace syncer) "list" "syngit.io" "v1beta5"
              "remoteuserbindings"))

  answer_refs : Result (Option ObjectRef) → Answer
  answer_refs (err e) = errored internal_server_error e
  answer_refs (ok none) = allowed
  answer_refs (ok (some ref)) = denied (cross_namespace_denied ref)

  review_refs : Syncer → Result (List ObjectRef) → Answer
  unfolding answer_refs
  review_refs syncer (err e) = errored bad_request e
  review_refs syncer (ok refs) =
      answer_refs
        (authorize_cross_namespace_refs review user refs (syncer_meta syncer).namespace [])

  check_refs : Syncer → Answer
  unfolding review_refs
  check_refs syncer =
      review_refs syncer (remote_syncer_refs (syncer_spec syncer) (syncer_meta syncer).namespace)

  check_scope : Result (List String) → Answer → Answer
  check_scope (err e) next = errored internal_server_error e
  check_scope (ok []) next = next
  check_scope (ok (r ∷ rs)) next = denied (resource_scope_forbidden (r ∷ rs))

  -- `authorizeSyncer`
  unfoldable pub authorize_syncer : Syncer → List String → Answer
  unfolding check_scope check_identity_store check_refs
  authorize_syncer syncer namespaces =
      check_scope
        (has_right_resources_permissions namespaces (syncer_spec syncer).scoped_resources.rules)
        (check_identity_store syncer (check_refs syncer))
