-- ===== src/Refs/Named.antt =====
-- What a reference names (pkg/refs/refs.go).
use syngit.Common.{String, ◌==◌, string_eq, if◌then◌else◌, ◌≡◌, refl, Bool-cases, inl, inr}
use syngit.Common.Errors.{Returns, FieldPath}
use syngit.Api.{NamespacedName}
use syngit.Refs.{resolve_namespace}

-- What a reference of an object in the namespace names.
abbrev pub key_of : String → String → String → NamespacedName
key_of owner namespace name = record {
  namespace = if namespace == "" then owner else namespace;
  name = name;
}

pub resolve_namespace_lem :
    (namespace owner : String) (path : FieldPath)
    → Returns
        (λ resolved. resolved ≡ (if namespace == "" then owner else namespace))
        (resolve_namespace namespace owner path)
unfolding resolve_namespace
resolve_namespace_lem namespace owner path = elim (Bool-cases (namespace == "")) [
  | inl unset ↦ elim (Bool-cases (owner == "")) [
    | inl nowhere ↦ rw (unset, nowhere) tt
    | inr at ↦ rw (unset, at) refl
  ]
  | inr set ↦ rw set refl
]
