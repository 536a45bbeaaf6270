-- ===== src/Tests/RenderTests.antt =====
-- What is rendered of an object, on small objects.
use syngit.Common.{codes, true, [], ◌∷◌, ◌≡◌, refl, map, List}
use syngit.Common.Errors.{ok}
use syngit.Render.{Fields, end, field, text, object, path_parts, remove_excluded_field}
use syngit.Render.Paths.{Part, dotted, bracketed, print, key_of, path_parts-print}
use syngit.Render.Removal.{at_parts, diverge, remove_excluded_field-at_other}
use syngit.Render.Manifest.{object_to_yaml}
use syngit.Render.Manifest.Excluded.{IsManifest, object_to_yaml-IsManifest}
use syngit.Tests.Sample.{codec, spec}

-- `{metadata: {name: cm}, status: ready}`
abbrev config_map : Fields
config_map =
    field (codes "metadata") (object (field (codes "name") (text (codes "cm")) end))
      (field (codes "status") (text (codes "ready")) end)

name_is_other : diverge (path_parts (codes ".status")) (codes "metadata" ∷ codes "name" ∷ []) ≡ true
unfolding path_parts
name_is_other = refl

remove_excluded_field-at_other_example :
    at_parts
      (codes "metadata" ∷ codes "name" ∷ [])
      (remove_excluded_field config_map (codes ".status"))
    ≡ at_parts (codes "metadata" ∷ codes "name" ∷ []) config_map
remove_excluded_field-at_other_example =
    remove_excluded_field-at_other config_map (codes ".status")
      (codes "metadata" ∷ codes "name" ∷ []) name_is_other

-- `.metadata[a.b]`
abbrev parts : List Part
parts = dotted (codes "metadata") ∷ bracketed (codes "a.b") ∷ []

path_parts-print_example : path_parts (print parts) ≡ map key_of parts
path_parts-print_example = path_parts-print parts (((λ e. cc), refl), (((λ e. cc), refl), tt))

manifest : object_to_yaml codec "{}" "syngit" spec "team" ≡ ok "kind: ConfigMap"
unfolding object_to_yaml
manifest = refl

object_to_yaml-IsManifest_example : IsManifest codec "syngit" spec "team" "{}" "kind: ConfigMap"
object_to_yaml-IsManifest_example =
    object_to_yaml-IsManifest codec "syngit" spec "team" "{}" manifest
