-- ===== src/Render/Manifest/Excluded.antt =====
-- What of an object stands in its manifest (pkg/render).
use mathlib.Core.Path.{subst}
use syngit.Common.{
  true, All-at, ◌↔◌, ◌⊎◌, inl, inr, In, here, there, In-cons, In-left, In-right, In-either, refl,
  sym, ap, ◌∙◌, ℕ, suc, String, Text, codes, Option, none, some, List, [], ◌∷◌, ◌++◌, ◌≡◌, All,
}
use syngit.Common.Errors.{
  Result, ok, err, Returns, Returns-bind, Returns-intro, Returns-ok, Returns-map, ok-injective,
  child, index,
}
use syngit.Api.{NamespacedName, ObjectReference, StringMap, get, RemoteSyncerSpec}
use syngit.Refs.{resolve_namespace}
use syngit.Render.{Fields, path_parts, remove_excluded_field}
use syngit.Render.Removal.{
  at_parts, remove_excluded_field-at_self, remove_excluded_field-at_none,
  remove_excluded_field-at_other, diverge,
}
use syngit.Refs.Named.{key_of, resolve_namespace_lem}
use syngit.Render.Manifest.{
  Codec, remove_all, or_wrong_yaml, excluded_fields_from_config_map, default_fields,
  referenced_fields, excluded_paths, object_to_yaml,
}

remove_all-at_none :
    (parts : List Text) (paths : List String) (fields : Fields)
    → at_parts parts fields ≡ none
    → at_parts parts (remove_all paths fields) ≡ none
unfolding remove_all
remove_all-at_none parts [] fields h = h
remove_all-at_none parts (path ∷ paths) fields h =
    remove_all-at_none parts paths (remove_excluded_field fields (codes path))
      (remove_excluded_field-at_none fields (codes path) parts h)

-- The object has no value at any of the paths.
abbrev pub Lacks : Fields → List String → Type 0
Lacks fields = All (λ path. at_parts (path_parts (codes path)) fields ≡ none)

remove_all-Lacks : (paths : List String) (fields : Fields) → Lacks (remove_all paths fields) paths
unfolding remove_all
remove_all-Lacks [] fields = tt
remove_all-Lacks (path ∷ paths) fields = (
  remove_all-at_none (path_parts (codes path)) paths (remove_excluded_field fields (codes path))
      (remove_excluded_field-at_self fields (codes path)),
  remove_all-Lacks paths (remove_excluded_field fields (codes path)),
)

remove_all-at_other :
    (parts : List Text) (paths : List String) (fields : Fields)
    → ((path : String) → In path paths → diverge (path_parts (codes path)) parts ≡ true)
    → at_parts parts (remove_all paths fields) ≡ at_parts parts fields
unfolding remove_all
remove_all-at_other parts [] fields apart = refl
remove_all-at_other parts (path ∷ paths) fields apart =
    remove_all-at_other parts paths (remove_excluded_field fields (codes path))
      (λ p m. apart p (there m))
    ∙ remove_excluded_field-at_other fields (codes path) parts (apart path (here refl))

-- The list holds exactly what has the property.
abbrev Lists : (String → Type 0) → List String → Type 0
Lists P paths = (path : String) → P path ↔ In path paths

Lists-append :
    (P Q R : String → Type 0) (xs ys : List String)
    → ((path : String) → R path ↔ (P path ⊎ Q path))
    → Lists P xs
    → Lists Q ys
    → Lists R (xs ++ ys)
Lists-append P Q R xs ys split h k path = (
  λ r. elim ((split path).0 r) [
    | inl p ↦ In-left xs ys ((h path).0 p)
    | inr q ↦ In-right xs ys ((k path).0 q)
  ],
  λ m.
      (split path).1
        (elim (In-either xs ys m) [ inl p ↦ inl ((h path).1 p) | inr q ↦ inr ((k path).1 q) ]),
)

-- One of the sources has the path.
abbrev pub Among : {A : Type 0} → (A → String → Type 0) → List A → String → Type 0
Among {A} Q sources path = (a : A) × In a sources × Q a path

Among-nil : {A : Type 0} (Q : A → String → Type 0) → Lists (Among Q []) []
Among-nil Q path = (λ (a, m, q). elim m [ ], λ m. elim m [ ])

Among-cons :
    {A : Type 0} (Q : A → String → Type 0) (a : A) (sources : List A) (path : String)
    → Among Q (a ∷ sources) path ↔ (Q a path ⊎ Among Q sources path)
Among-cons Q a sources path = (
  λ (x, m, q). elim (In-cons m) [
    | inl e ↦ inl (subst (λ y. Q y path) (sym e) q)
    | inr later ↦ inr (x, later, q)
  ],
  λ h. elim h [ inl q ↦ (a, here refl, q) | inr (x, m, q) ↦ (x, there m, q) ],
)

module _ (codec : Codec) where
  open codec use {json_to_map, map_to_yaml, yaml_to_list, get_config_map, list_default_config_maps}

  -- The ConfigMap lists the path.
  abbrev pub IsListedBy : NamespacedName → String → Type 0
  IsListedBy name path =
      (config : StringMap) × (fields : List String) × (get_config_map name ≡ ok config)
      × (yaml_to_list (get config "excludedFields") ≡ ok fields)
      × In path fields

  or_wrong_yaml-ok :
      (r : Result (List String)) {fields : List String}
      → or_wrong_yaml codec r ≡ ok fields
      → r ≡ ok fields
  unfolding or_wrong_yaml
  or_wrong_yaml-ok (ok fs) h = h
  or_wrong_yaml-ok (err e) h = absurd cc

  excluded_fields_from_config_map-Lists :
      (name : NamespacedName)
      → Returns (Lists (IsListedBy name)) (excluded_fields_from_config_map codec name)
  unfolding excluded_fields_from_config_map
  excluded_fields_from_config_map-Lists name = Returns-bind _ (get_config_map name) _ λ config read.
      Returns-intro (Lists (IsListedBy name))
        (or_wrong_yaml codec (yaml_to_list (get config "excludedFields")))
        λ fields parsed path.
          let listed = or_wrong_yaml-ok (yaml_to_list (get config "excludedFields")) parsed in
          (
            λ (config', fields', read', listed', m).
                let same : config' ≡ config = ok-injective (sym read' ∙ read) in
                let same' : fields' ≡ fields =
                  ok-injective (
                    sym listed'
                    ∙ (ap (λ c. yaml_to_list (get c "excludedFields")) same ∙ listed)) in
                subst (In path) same' m,
            λ m. (config, fields, read, listed, m),
          )

  default_fields-Lists :
      (cms : List NamespacedName)
      → Returns (Lists (Among IsListedBy cms)) (default_fields codec cms)
  unfolding default_fields
  default_fields-Lists [] = Among-nil IsListedBy
  default_fields-Lists (cm ∷ cms) =
      let first = excluded_fields_from_config_map codec cm in
      let rest = default_fields codec cms in
      Returns-bind _ first _ λ fields read. Returns-bind _ rest _ λ more read_more.
        Lists-append (IsListedBy cm) (Among IsListedBy cms) (Among IsListedBy (cm ∷ cms)) fields
          more (Among-cons IsListedBy cm cms)
          (Returns-ok _ first (excluded_fields_from_config_map-Lists cm) read)
          (Returns-ok _ rest (default_fields-Lists cms) read_more)

  -- The ConfigMap that a reference names lists the path; an absent reference names none.
  abbrev pub IsListedAt : String → Option ObjectReference → String → Type 0
  IsListedAt owner none path = ⊥
  IsListedAt owner (some ref) path = IsListedBy (key_of owner ref.namespace ref.name) path

  referenced_fields-Lists :
      (owner : String) (i : ℕ) (refs : List (Option ObjectReference))
      → Returns (Lists (Among (IsListedAt owner) refs)) (referenced_fields codec owner i refs)
  unfolding referenced_fields
  referenced_fields-Lists owner i [] = Among-nil (IsListedAt owner)
  referenced_fields-Lists owner i (none ∷ refs) =
      Returns-map _ _ (referenced_fields codec owner (suc i) refs)
        (λ paths.
          Lists-append (λ path. ⊥) (Among (IsListedAt owner) refs)
            (Among (IsListedAt owner) (none ∷ refs)) [] paths
            (Among-cons (IsListedAt owner) none refs) (λ path. (λ x. absurd x, λ m. elim m [ ])))
        (referenced_fields-Lists owner (suc i) refs)
  referenced_fields-Lists owner i (some ref ∷ refs) =
      let path_of = child "spec" ∷ child "excludedFieldsConfigMapsRef" ∷ index i ∷ [] in
      let rest = referenced_fields codec owner (suc i) refs in
      Returns-bind _ (resolve_namespace ref.namespace owner path_of) _ λ namespace resolved.
        let first =
          excluded_fields_from_config_map codec
            (record { namespace = namespace; name = ref.name }) in
        let at =
          Returns-ok _ (resolve_namespace ref.namespace owner path_of)
            (resolve_namespace_lem ref.namespace owner path_of) resolved in
        Returns-bind _ first _ λ fields read. Returns-bind _ rest _ λ more read_more.
          Lists-append (IsListedAt owner (some ref)) (Among (IsListedAt owner) refs)
            (Among (IsListedAt owner) (some ref ∷ refs)) fields more
            (Among-cons (IsListedAt owner) (some ref) refs)
            (subst (λ ns. Lists (IsListedBy (record { namespace = ns; name = ref.name })) fields) at
              (Returns-ok _ first
                (excluded_fields_from_config_map-Lists
                  (record { namespace = namespace; name = ref.name }))
                read))
            (Returns-ok _ rest (referenced_fields-Lists owner (suc i) refs) read_more)

  module _ (syngit_namespace : String) (spec : RemoteSyncerSpec) (owner : String) where
    -- The path is excluded by a default ConfigMap of the cluster, by the syncer, or by a ConfigMap that
    -- the syncer references.
    pub data IsExcluded (path : String) : Type 0 where
      by_default :
          (cms : List NamespacedName)
          → list_default_config_maps syngit_namespace ≡ ok cms
          → Among IsListedBy cms path
          → IsExcluded path
      by_syncer : In path spec.excluded_fields → IsExcluded path
      by_reference :
          Among (IsListedAt owner) spec.excluded_fields_config_maps_ref path → IsExcluded path

    IsExcluded-split :
        (cms : List NamespacedName) (path : String)
        → list_default_config_maps syngit_namespace ≡ ok cms
        → IsExcluded path ↔ (
            Among IsListedBy cms path
            ⊎ (In path spec.excluded_fields
                ⊎ Among (IsListedAt owner) spec.excluded_fields_config_maps_ref path))
    IsExcluded-split cms path listed = (
      λ x. elim x [
        | by_default others at among ↦
            inl (subst (λ c. Among IsListedBy c path) (ok-injective (sym at ∙ listed)) among)
        | by_syncer m ↦ inr (inl m)
        | by_reference among ↦ inr (inr among)
      ],
      λ x. elim x [
        | inl among ↦ by_default cms listed among
        | inr (inl m) ↦ by_syncer m
        | inr (inr among) ↦ by_reference among
      ],
    )

    excluded_paths-Lists :
        Returns (Lists IsExcluded) (excluded_paths codec syngit_namespace spec owner)
    unfolding excluded_paths
    excluded_paths-Lists =
        let refs = spec.excluded_fields_config_maps_ref in
        Returns-bind _ (list_default_config_maps syngit_namespace) _ λ cms listed.
          Returns-bind _ (default_fields codec cms) _ λ defaults read.
            Returns-bind _ (referenced_fields codec owner 0 refs) _ λ referenced read_refs.
              Lists-append (Among IsListedBy cms)
                (λ path. In path spec.excluded_fields ⊎ Among (IsListedAt owner) refs path)
                IsExcluded defaults (spec.excluded_fields ++ referenced)
                (λ path. IsExcluded-split cms path listed)
                (Returns-ok _ (default_fields codec cms) (default_fields-Lists cms) read)
                (Lists-append (λ path. In path spec.excluded_fields) (Among (IsListedAt owner) refs)
                  _ spec.excluded_fields referenced (λ path. (λ x. x, λ x. x))
                  (λ path. (λ m. m, λ m. m))
                  (Returns-ok _ (referenced_fields codec owner 0 refs)
                    (referenced_fields-Lists owner 0 refs) read_refs))

    -- The manifest is the YAML of the object without what stands at the excluded paths.
    pub record IsManifest (raw : String) (yaml : String) : Type 0 where
      pub original : Fields
      pub parsed : json_to_map raw ≡ ok original
      pub fields : Fields
      pub marshalled : map_to_yaml fields ≡ ok yaml
      pub lacks :
          (path : String) → IsExcluded path → at_parts (path_parts (codes path)) fields ≡ none
      pub keeps :
          (parts : List Text)
          → ((path : String) → IsExcluded path → diverge (path_parts (codes path)) parts ≡ true)
          → at_parts parts fields ≡ at_parts parts original

    object_to_yaml-Returns :
        (raw : String)
        → Returns (IsManifest raw) (object_to_yaml codec raw syngit_namespace spec owner)
    unfolding object_to_yaml
    object_to_yaml-Returns raw =
        let P = IsManifest raw in
        let excluded = excluded_paths codec syngit_namespace spec owner in
        Returns-bind P (json_to_map raw) _ (λ original parsed.
          Returns-bind P excluded _ (λ paths collected.
            let lists = Returns-ok (Lists IsExcluded) excluded excluded_paths-Lists collected in
            Returns-intro P (map_to_yaml (remove_all paths original)) (λ yaml marshalled. record {
              original = original;
              parsed = parsed;
              fields = remove_all paths original;
              marshalled = marshalled;
              lacks = λ path x.
                  All-at (λ p. at_parts (path_parts (codes p)) (remove_all paths original) ≡ none)
                    ((lists path).0 x) (remove_all-Lacks paths original);
              keeps = λ parts apart.
                  remove_all-at_other parts paths original
                    (λ path m. apart path ((lists path).1 m));
            })))

    -- A manifest that ObjectToYAML returns is the YAML of the given object, from which the values
    -- at the excluded paths have gone; what stands at a path that parts from all of them is kept. A
    -- path is excluded if a default ConfigMap of the cluster lists it, the syncer does, or a
    -- ConfigMap that the syncer references.
    pub object_to_yaml-IsManifest :
        (raw : String) {yaml : String}
        → object_to_yaml codec raw syngit_namespace spec owner ≡ ok yaml
        → IsManifest raw yaml
    object_to_yaml-IsManifest raw h =
        Returns-ok (IsManifest raw) (object_to_yaml codec raw syngit_namespace spec owner)
          (object_to_yaml-Returns raw) h
