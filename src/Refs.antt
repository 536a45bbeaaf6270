-- ===== src/Refs.antt =====
-- pkg/refs/refs.go: the objects that a resource references, with their namespaces resolved.
pub mod Laws
pub mod Named
pub mod Totals
use syngit.Common.{
  ℕ, suc, String, Option, none, some, List, [], ◌∷◌, ◌++◌, ◌==◌, ◌||◌, Bool, true, false, string_eq,
  if◌then◌else◌,
}
use syngit.Common.Errors.{Error, missing_ref_namespace, Result, ok, err, FieldPath, child, index}
use syngit.Api.{ObjectReference, RemoteSyncerSpec, RemoteUserSpec, RemoteUserBindingSpec}

pub record ObjectRef : Type 0 where
  pub namespace : String
  pub name : String
  pub group : String
  pub version : String
  pub resource : String
  pub field_path : FieldPath

-- The namespace of the reference, or else that of its owner; a cluster-scoped owner has none.
unfoldable pub resolve_namespace : String → String → FieldPath → Result String
resolve_namespace ref_namespace owner_namespace field_path =
    if ref_namespace == ""
    then (if owner_namespace == ""
        then err (missing_ref_namespace field_path)
        else ok owner_namespace)
    else ok ref_namespace

-- Group, version and resource.
pub record Gvr : Type 0 where
  pub group : String
  pub version : String
  pub resource : String

abbrev pub remote_users_gvr : Gvr
remote_users_gvr = record { group = "syngit.io"; version = "v1beta5"; resource = "remoteusers" }

abbrev pub remote_targets_gvr : Gvr
remote_targets_gvr = record { group = "syngit.io"; version = "v1beta5"; resource = "remotetargets" }

abbrev pub config_maps_gvr : Gvr
config_maps_gvr = record { group = ""; version = "v1"; resource = "configmaps" }

abbrev pub secrets_gvr : Gvr
secrets_gvr = record { group = ""; version = "v1"; resource = "secrets" }

-- `error` is the first failure; nothing is collected after it.
pub record RefCollector : Type 0 where
  pub owner_namespace : String
  pub refs : List ObjectRef
  pub error : Option Error

abbrev pub new_ref_collector : String → RefCollector
new_ref_collector owner_namespace = record {
  owner_namespace = owner_namespace;
  refs = [];
  error = none;
}

abbrev pub object_ref : String → String → Gvr → FieldPath → ObjectRef
object_ref namespace name gvr path = record {
  namespace = namespace;
  name = name;
  group = gvr.group;
  version = gvr.version;
  resource = gvr.resource;
  field_path = path;
}

append_resolved : RefCollector → String → Gvr → FieldPath → Result String → RefCollector
append_resolved c name gvr path (err e) = record c { error = some e }
append_resolved c name gvr path (ok namespace) = record c {
  refs = c.refs ++ object_ref namespace name gvr path ∷ [];
}

abbrev pub is_some {ℓ} : {A : Type ℓ} → Option A → Bool
is_some none = false
is_some (some _) = true

-- An unnamed reference is ignored.
pub add : RefCollector → ObjectReference → Gvr → FieldPath → RefCollector
unfolding append_resolved
add c ref gvr path =
    if is_some c.error || ref.name == ""
    then c
    else append_resolved c ref.name gvr path
        (resolve_namespace ref.namespace c.owner_namespace path)

to_result : List ObjectRef → Option Error → Result (List ObjectRef)
to_result refs (some e) = err e
to_result refs none = ok refs

pub result : RefCollector → Result (List ObjectRef)
unfolding to_result
result c = to_result c.refs c.error

abbrev spec_child : String → FieldPath
spec_child field = child "spec" ∷ child field ∷ []

add_pointer : RefCollector → Option ObjectReference → Gvr → FieldPath → RefCollector
add_pointer c none gvr path = c
add_pointer c (some ref) gvr path = add c ref gvr path

-- The loops over a list of references; `i` counts the elements.
add_pointers : RefCollector → ℕ → List (Option ObjectReference) → Gvr → String → RefCollector
add_pointers c i [] gvr field = c
add_pointers c i (ref ∷ rest) gvr field =
    add_pointers (add_pointer c ref gvr (child "spec" ∷ child field ∷ index i ∷ [])) (suc i) rest
      gvr field

add_all : RefCollector → ℕ → List ObjectReference → Gvr → String → RefCollector
add_all c i [] gvr field = c
add_all c i (ref ∷ rest) gvr field =
    add_all (add c ref gvr (child "spec" ∷ child field ∷ index i ∷ [])) (suc i) rest gvr field

-- A reference that is a value, not a pointer: unset when it has no name.
add_named : RefCollector → ObjectReference → Gvr → FieldPath → RefCollector
add_named c ref gvr path = if ref.name == "" then c else add c ref gvr path

unfoldable pub remote_syncer_refs : RemoteSyncerSpec → String → Result (List ObjectRef)
unfolding add_pointer add_pointers add_named add result
remote_syncer_refs spec owner_namespace =
    let c1 =
      add_pointer (new_ref_collector owner_namespace) spec.default_remote_user_ref remote_users_gvr
        (spec_child "defaultRemoteUserRef") in
    let c2 =
      add_pointer c1 spec.default_remote_target_ref remote_targets_gvr
        (spec_child "defaultRemoteTargetRef") in
    let c3 =
      add_pointers c2 0 spec.excluded_fields_config_maps_ref config_maps_gvr
        "excludedFieldsConfigMapsRef" in
    let c4 = add_named c3 spec.ca_bundle_secret_ref secrets_gvr (spec_child "caBundleSecretRef") in
    let c5 =
      add_named c4 spec.sops.secret_ref secrets_gvr
        (child "spec" ∷ child "sops" ∷ child "secretRef" ∷ []) in
    result c5

unfoldable pub remote_user_refs : RemoteUserSpec → String → Result (List ObjectRef)
unfolding add_named add result
remote_user_refs spec owner_namespace = result (
    add_named (new_ref_collector owner_namespace) spec.secret_ref secrets_gvr
      (spec_child "secretRef"))

unfoldable pub remote_user_binding_refs : RemoteUserBindingSpec → String → Result (List ObjectRef)
unfolding add_all add result
remote_user_binding_refs spec owner_namespace =
    let c1 =
      add_all (new_ref_collector owner_namespace) 0 spec.remote_user_refs remote_users_gvr
        "remoteUserRefs" in
    let c2 = add_all c1 0 spec.remote_target_refs remote_targets_gvr "remoteTargetRefs" in result c2
