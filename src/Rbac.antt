-- ===== src/Rbac.antt =====
-- pkg/rbac/authorize.go and verbs.go: access reviews. `review` is the API server's answer to a
-- SubjectAccessReview, any function: it may allow, refuse or fail as it likes.
pub mod Laws
use syngit.Common.{
  String, Bool, true, false, ◌||◌, Option, none, some, List, [], ◌∷◌, ◌==◌, string_eq, contains,
  if◌then◌else◌,
}
use syngit.Common.Errors.{Result, ok, err, ◌>>=◌, other}
use syngit.Api.{UserInfo}
use syngit.Refs.{ObjectRef}

pub record ResourceAttributes : Type 0 where
  pub namespace : String
  pub verb : String
  pub group : String
  pub version : String
  pub resource : String
  pub name : String

pub record SubjectAccessReviewSpec : Type 0 where
  pub user : String
  pub groups : List String
  pub uid : String
  pub resource_attributes : ResourceAttributes

abbrev pub get_attributes : ObjectRef → ResourceAttributes
get_attributes ref = record {
  namespace = ref.namespace;
  verb = "get";
  group = ref.group;
  version = ref.version;
  resource = ref.resource;
  name = ref.name;
}

abbrev pub is_exempt : String → List String → ObjectRef → Bool
is_exempt owner_namespace exempt ref =
    ref.namespace == owner_namespace || contains exempt ref.namespace

pub cross_namespace : String → List String → List ObjectRef → List ObjectRef
cross_namespace owner_namespace exempt [] = []
cross_namespace owner_namespace exempt (ref ∷ refs) =
    let rest = cross_namespace owner_namespace exempt refs in
    if is_exempt owner_namespace exempt ref then rest else ref ∷ rest

module _ (review : SubjectAccessReviewSpec → Result Bool) (user : UserInfo) where
  unfoldable pub check_access : ResourceAttributes → Result Bool
  check_access attrs = review (record {
    user = user.username;
    groups = user.groups;
    uid = user.uid;
    resource_attributes = attrs;
  })

  -- The first reference that the user may not get, if any; a failed review ends the loop.
  unfoldable pub authorize_refs : List ObjectRef → Result (Option ObjectRef)
  authorize_refs [] = ok none
  authorize_refs (ref ∷ refs) =
      let rest = authorize_refs refs in
      check_access (get_attributes ref) >>= λ allowed. if allowed then rest else ok (some ref)

  unfoldable pub authorize_cross_namespace_refs :
      List ObjectRef → String → List String → Result (Option ObjectRef)
  unfolding cross_namespace
  authorize_cross_namespace_refs object_refs owner_namespace exempt =
      authorize_refs (cross_namespace owner_namespace exempt object_refs)

-- `OperationToVerb`
unfoldable pub operation_to_verb : String → Result (List String)
operation_to_verb operation =
    if operation == "CREATE"
    then ok ("create" ∷ [])
    else if operation == "DELETE"
    then ok ("delete" ∷ [])
    else if operation == "UPDATE"
    then ok ("update" ∷ "patch" ∷ [])
    else if operation == "CONNECT"
    then ok ("connect" ∷ [])
    else err (other "unsupported operation")
