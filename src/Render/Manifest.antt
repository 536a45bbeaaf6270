-- ===== src/Render/Manifest.antt =====
-- ObjectToYAML (pkg/render/yaml.go) and ExcludedFieldsFromConfigMap (excludedfields.go).
pub mod Excluded
use syngit.Common.{ℕ, suc, String, Text, codes, Option, none, some, List, [], ◌∷◌, ◌++◌, ◌≡◌, All}
use syngit.Common.Errors.{
  Result, ok, err, ◌>>=◌, Returns, Returns-bind, Returns-intro, Returns-ok, child, index,
  wrong_yaml_format,
}
use syngit.Api.{NamespacedName, ObjectReference, StringMap, get, RemoteSyncerSpec}
use syngit.Refs.{resolve_namespace}
use syngit.Render.{Fields, path_parts, remove_excluded_field}
use syngit.Render.Removal.{at_parts, remove_excluded_field-at_self, remove_excluded_field-at_none}

-- The JSON and YAML codecs, and the reads of the Kubernetes client: any functions.
pub record Codec : Type 0 where
  pub json_to_map : String → Result Fields
  pub map_to_yaml : Fields → Result String
  pub yaml_to_list : String → Result (List String)
  pub get_config_map : NamespacedName → Result StringMap
  -- The ConfigMaps of a namespace that carry the label of the cluster-wide defaults.
  pub list_default_config_maps : String → Result (List NamespacedName)

-- Each path removed in turn.
pub remove_all : List String → Fields → Fields
remove_all [] fields = fields
remove_all (path ∷ paths) fields = remove_all paths (remove_excluded_field fields (codes path))

module _ (codec : Codec) where
  open codec use {json_to_map, map_to_yaml, yaml_to_list, get_config_map, list_default_config_maps}

  or_wrong_yaml : Result (List String) → Result (List String)
  or_wrong_yaml (ok fields) = ok fields
  or_wrong_yaml (err e) = err wrong_yaml_format

  pub excluded_fields_from_config_map : NamespacedName → Result (List String)
  unfolding or_wrong_yaml
  excluded_fields_from_config_map name =
      get_config_map name >>= λ config. or_wrong_yaml (yaml_to_list (get config "excludedFields"))

  -- The loop over the default ConfigMaps.
  default_fields : List NamespacedName → Result (List String)
  default_fields [] = ok []
  default_fields (cm ∷ cms) =
      let rest = default_fields cms in
      excluded_fields_from_config_map cm >>= λ fields. rest >>= λ more. ok (fields ++ more)

  -- The loop over the syncer's ConfigMaps.
  referenced_fields : String → ℕ → List (Option ObjectReference) → Result (List String)
  referenced_fields owner i [] = ok []
  referenced_fields owner i (none ∷ refs) = referenced_fields owner (suc i) refs
  referenced_fields owner i (some ref ∷ refs) =
      let rest = referenced_fields owner (suc i) refs in
      resolve_namespace ref.namespace owner
        (child "spec" ∷ child "excludedFieldsConfigMapsRef" ∷ index i ∷ [])
      >>= λ namespace.
          excluded_fields_from_config_map (record { namespace = namespace; name = ref.name })
          >>= λ fields. rest >>= λ more. ok (fields ++ more)

  -- The paths to remove: those of the cluster, of the syncer, and of its ConfigMaps.
  pub excluded_paths : String → RemoteSyncerSpec → String → Result (List String)
  unfolding default_fields referenced_fields excluded_fields_from_config_map
  excluded_paths syngit_namespace spec owner = list_default_config_maps syngit_namespace >>= λ cms.
      default_fields cms >>= λ defaults.
      referenced_fields owner 0 spec.excluded_fields_config_maps_ref >>= λ referenced.
      ok (defaults ++ (spec.excluded_fields ++ referenced))

  unfoldable pub object_to_yaml : String → String → RemoteSyncerSpec → String → Result String
  unfolding excluded_paths remove_all
  object_to_yaml raw_object syngit_namespace spec owner = json_to_map raw_object >>= λ fields.
      excluded_paths syngit_namespace spec owner >>= λ paths. map_to_yaml (remove_all paths fields)
