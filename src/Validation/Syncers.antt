-- ===== src/Validation/Syncers.antt =====
-- Which syncers pass the validation (internal/webhook/v1beta5/syncer_webhook.go).
use syngit.Common.{
  String, Bool, true, false, not, ◌&&◌, Option, none, some, List, [], ◌∷◌, ◌++◌, ◌==◌, string_eq,
  if◌then◌else◌, codes, contains_iff, In, ◌≡◌, ◌≢◌, ◌↔◌, ◌⊎◌, refl, sym, ◌∙◌, inl, inr, All,
  Bool-cases, eq_iff,
}
use syngit.Common.Errors.{Result, ok, err}
use syngit.Refs.{remote_syncer_refs}
use syngit.Api.{
  LabelSelector, RemoteSyncerSpec, RemoteSyncer, ClusterWideRemoteSyncer, Syncer, namespaced,
  cluster_wide, syncer_meta, syncer_spec, get, commit_only, commit_apply, block_default_user,
  use_default_user, rt_annotation_key_user_specific, rt_annotation_value_one_user_one_branch,
  rt_annotation_value_one_user_one_fork,
}
use syngit.Validation.{
  FieldError, ErrorList, is_some, report, validate_excluded_fields, validate_remote_syncer_spec,
  validate_syncer, new_invalid, validate_remote_syncer, failed, selector_failed,
  validate_cluster_wide_remote_syncer,
}
use syngit.Validation.WellFormed.{IsGitUri, IsYamlPath, is_git_uri_iff, is_valid_yaml_path_iff}

-- What a spec has to meet.
pub record IsWellFormed (r : RemoteSyncerSpec) : Type 0 where
  pub blocked :
      r.default_unauthorized_user_mode ≡ block_default_user
      → is_some r.default_remote_user_ref ≡ false
  pub defaulted :
      r.default_unauthorized_user_mode ≡ use_default_user → is_some r.default_remote_user_ref ≡ true
  -- The default user and the default target come together.
  pub paired : is_some r.default_remote_user_ref ≡ is_some r.default_remote_target_ref
  pub message : (r.default_block_applied_message ≡ "") ⊎ (r.strategy ≡ commit_only)
  pub strategy : (r.strategy ≡ commit_only) ⊎ (r.strategy ≡ commit_apply)
  pub repository : IsGitUri (codes r.remote_repository)
  pub excluded : All (λ path. IsYamlPath (codes path)) r.excluded_fields
  pub branch : (r.default_unauthorized_user_mode ≡ block_default_user) ⊎ (r.default_branch ≢ "")

++-nil : (xs ys : ErrorList) → (xs ++ ys ≡ []) ↔ ((xs ≡ []) × (ys ≡ []))
++-nil [] ys = (λ h. (refl, h), λ h. h.1)
++-nil (x ∷ xs) ys = (λ h. cc, λ h. cc h.0)

report-nil : (b : Bool) (e : FieldError) → (report b e ≡ []) ↔ (b ≡ false)
report-nil true e = (λ h. cc, λ h. cc)
report-nil false e = (λ h. refl, λ h. refl)

and_iff :
    {P Q : Type 0} (xs ys : ErrorList) → (xs ≡ []) ↔ P → (ys ≡ []) ↔ Q → (xs ++ ys ≡ []) ↔ (P × Q)
and_iff xs ys p q = (
  λ h. let both = (++-nil xs ys).0 h in (p.0 both.0, q.0 both.1),
  λ h. (++-nil xs ys).1 (p.1 h.0, q.1 h.1),
)

report-not-nil :
    {P : Type 0} (b : Bool) (e : FieldError) → (b ≡ true) ↔ P → (report (not b) e ≡ []) ↔ P
report-not-nil true e p = (λ h. p.0 refl, λ h. refl)
report-not-nil false e p = (λ h. cc, λ h. cc (p.1 h))

report_either :
    {P Q : Type 0} (a b : Bool) (e : FieldError)
    → (a ≡ true) ↔ P
    → (b ≡ true) ↔ Q
    → (report (not a && not b) e ≡ []) ↔ (P ⊎ Q)
report_either true b e p q = (λ h. inl (p.0 refl), λ h. refl)
report_either false true e p q = (λ h. inr (q.0 refl), λ h. refl)
report_either false false e p q = (λ h. cc, λ h. elim h [ inl x ↦ cc (p.1 x) | inr x ↦ cc (q.1 x) ])

report_unless :
    {P Q : Type 0} (a b : Bool) (e : FieldError)
    → (a ≡ true) ↔ P
    → (b ≡ true) ↔ Q
    → (report (not a && b) e ≡ []) ↔ (P ⊎ (¬ Q))
report_unless true b e p q = (λ h. inl (p.0 refl), λ h. refl)
report_unless false true e p q =
    (λ h. cc, λ h. elim h [ inl x ↦ cc (p.1 x) | inr n ↦ absurd (n (q.0 refl)) ])
report_unless false false e p q = (λ h. inr (λ x. cc (q.1 x)), λ h. refl)

report_implies :
    (a b : Bool) (e : FieldError) → (report (a && not b) e ≡ []) ↔ (a ≡ true → b ≡ true)
report_implies true true e = (λ h _. refl, λ h. refl)
report_implies true false e = (λ h. cc, λ h. cc (h refl))
report_implies false b e = (λ h x. cc, λ h. refl)

report_implied :
    (a b : Bool) (e : FieldError) → (report (not a && b) e ≡ []) ↔ (b ≡ true → a ≡ true)
report_implied true b e = (λ h _. refl, λ h. refl)
report_implied false true e = (λ h. cc, λ h. cc (h refl))
report_implied false false e = (λ h x. cc, λ h. refl)

report_modes :
    {P Q : Type 0} (a b u : Bool) (e f : FieldError)
    → (a ≡ true) ↔ P
    → (b ≡ true) ↔ Q
    → ((if a && u then e ∷ [] else report (b && not u) f) ≡ []) ↔ ((P → u ≡ false) × (Q → u ≡ true))
report_modes true b true e f p q = (λ h. cc, λ h. cc (h.0 (p.0 refl)))
report_modes true true false e f p q = (λ h. cc, λ h. cc (h.1 (q.0 refl)))
report_modes true false false e f p q = (λ h. (λ _. refl, λ x. cc (q.1 x)), λ h. refl)
report_modes false true true e f p q = (λ h. (λ x. cc (p.1 x), λ _. refl), λ h. refl)
report_modes false true false e f p q = (λ h. cc, λ h. cc (h.1 (q.0 refl)))
report_modes false false u e f p q = (λ h. (λ x. cc (p.1 x), λ x. cc (q.1 x)), λ h. refl)

both_ways : (a b : Bool) → (a ≡ true → b ≡ true) → (b ≡ true → a ≡ true) → a ≡ b
both_ways true b f g = sym (f refl)
both_ways false true f g = g refl
both_ways false false f g = refl

excluded_iff :
    (paths : List String)
    → (validate_excluded_fields paths ≡ []) ↔ All (λ path. IsYamlPath (codes path)) paths
unfolding validate_excluded_fields
excluded_iff [] = (λ h. tt, λ h. refl)
excluded_iff (path ∷ paths) =
    and_iff _ _ (report-not-nil _ _ (is_valid_yaml_path_iff (codes path))) (excluded_iff paths)

validate_remote_syncer_spec_iff :
    (r : RemoteSyncerSpec) → (validate_remote_syncer_spec r ≡ []) ↔ IsWellFormed r
unfolding validate_remote_syncer_spec
validate_remote_syncer_spec_iff r =
    let m = r.default_unauthorized_user_mode in
    let all =
      and_iff _ _
        (report_modes (m == block_default_user) (m == use_default_user)
          (is_some r.default_remote_user_ref) _ _ (eq_iff m block_default_user)
          (eq_iff m use_default_user))
        (and_iff _ _
          (report_implies (is_some r.default_remote_user_ref) (is_some r.default_remote_target_ref)
            _)
          (and_iff _ _
            (report_implied (is_some r.default_remote_user_ref)
              (is_some r.default_remote_target_ref) _)
            (and_iff _ _
              (report_either (r.default_block_applied_message == "") (r.strategy == commit_only) _
                (eq_iff r.default_block_applied_message "") (eq_iff r.strategy commit_only))
              (and_iff _ _
                (report_either (r.strategy == commit_only) (r.strategy == commit_apply) _
                  (eq_iff r.strategy commit_only) (eq_iff r.strategy commit_apply))
                (and_iff _ _ (report-not-nil _ _ (is_git_uri_iff (codes r.remote_repository))) (
                  and_iff _ _ (excluded_iff r.excluded_fields) (
                    report_unless (m == block_default_user) (r.default_branch == "") _
                      (eq_iff m block_default_user) (eq_iff r.default_branch "")))))))) in
    (
      λ h.
          let (modes, (one, (two, (message, (strategy, (uri, (fields, branch))))))) = all.0 h in
          record {
            blocked = modes.0;
            defaulted = modes.1;
            paired = both_ways _ _ one two;
            message = message;
            strategy = strategy;
            repository = uri;
            excluded = fields;
            branch = branch;
          },
      λ w. all.1 (
        (w.blocked, w.defaulted),
        (
          (λ h. sym w.paired ∙ h),
          ((λ h. w.paired ∙ h), (w.message, (w.strategy, (w.repository, (w.excluded, w.branch))))),
        ),
      ),
    )

new_invalid-none :
    (kind name : String) (es : ErrorList) → (new_invalid kind name es ≡ none) ↔ (es ≡ [])
unfolding new_invalid
new_invalid-none kind name [] = (λ h. refl, λ h. refl)
new_invalid-none kind name (e ∷ es) = (λ h. cc, λ h. cc)

-- The policies of a syncer know these values of the annotation.
abbrev pub IsPolicyValue : Syncer → Type 0
IsPolicyValue syncer =
    In (get (syncer_meta syncer).annotations rt_annotation_key_user_specific)
      ("" ∷ rt_annotation_value_one_user_one_branch ∷ rt_annotation_value_one_user_one_fork ∷ [])

validate_syncer_iff :
    (syncer : Syncer)
    → (validate_syncer syncer ≡ []) ↔ (IsWellFormed (syncer_spec syncer) × IsPolicyValue syncer)
unfolding validate_syncer
validate_syncer_iff syncer = and_iff _ _ (validate_remote_syncer_spec_iff (syncer_spec syncer)) (
    report-not-nil _ _ (
      contains_iff
        ("" ∷ rt_annotation_value_one_user_one_branch ∷ rt_annotation_value_one_user_one_fork ∷ [])
        (get (syncer_meta syncer).annotations rt_annotation_key_user_specific)))

-- A RemoteSyncer is accepted exactly if its spec is well-formed and its annotation has a value that
-- the policies know.
pub validate_remote_syncer-none :
    (rs : RemoteSyncer)
    → (validate_remote_syncer rs ≡ none) ↔ (IsWellFormed rs.spec × IsPolicyValue (namespaced rs))
unfolding validate_remote_syncer
validate_remote_syncer-none rs =
    let outer = new_invalid-none "RemoteSyncer" rs.meta.name (validate_syncer (namespaced rs)) in
    let inner = validate_syncer_iff (namespaced rs) in
    (λ h. inner.0 (outer.0 h), λ h. outer.1 (inner.1 h))

abbrev pub is_ok {ℓ} : {A : Type ℓ} → Result A → Bool
is_ok (ok a) = true
is_ok (err e) = false

failed_iff :
    {A : Type 0} (r : Result A) (e : FieldError) → (report (failed r) e ≡ []) ↔ (is_ok r ≡ true)
unfolding failed
failed_iff (ok a) e = (λ h. refl, λ h. refl)
failed_iff (err x) e = (λ h. cc, λ h. cc)

abbrev pub IsParsed :
    {Selector : Type 0} → (LabelSelector → Result Selector) → Option LabelSelector → Type 0
IsParsed as_selector none = Unit
IsParsed as_selector (some selector) = is_ok (as_selector selector) ≡ true

selector_failed_iff :
    {Selector : Type 0} (as_selector : LabelSelector → Result Selector) (o : Option LabelSelector)
    (e : FieldError)
    → (report (selector_failed as_selector o) e ≡ []) ↔ IsParsed as_selector o
unfolding selector_failed
selector_failed_iff as_selector none e = (λ h. tt, λ h. refl)
selector_failed_iff as_selector (some selector) e = failed_iff (as_selector selector) e

report-nonempty : (s : String) (e : FieldError) → (report (s == "") e ≡ []) ↔ (s ≢ "")
report-nonempty s e = elim (Bool-cases (s == "")) [
  | inl empty ↦ rw empty (λ h. cc, λ h. absurd (h ((eq_iff s "").0 empty)))
  | inr other ↦ rw other (λ h t. cc ((eq_iff s "").1 t), λ h. refl)
]

-- A ClusterWideRemoteSyncer is accepted exactly if its spec is well-formed, its annotation has a
-- value that the policies know, all its references resolve, the namespace of its identity store is
-- set, and its namespace selector can be parsed.
pub validate_cluster_wide_remote_syncer-none :
    {Selector : Type 0} (as_selector : LabelSelector → Result Selector)
    (cwrs : ClusterWideRemoteSyncer)
    → (validate_cluster_wide_remote_syncer as_selector cwrs ≡ none) ↔ (
        (IsWellFormed cwrs.spec.remote_syncer_spec × IsPolicyValue (cluster_wide cwrs))
        × ((is_ok (remote_syncer_refs cwrs.spec.remote_syncer_spec "") ≡ true)
            × ((cwrs.spec.identity_store_namespace ≢ "")
                × IsParsed as_selector cwrs.spec.namespace_selector)))
unfolding validate_cluster_wide_remote_syncer
validate_cluster_wide_remote_syncer-none as_selector cwrs =
    let inner = and_iff _ _ (validate_syncer_iff (cluster_wide cwrs)) (
      and_iff _ _ (failed_iff (remote_syncer_refs cwrs.spec.remote_syncer_spec "") _) (
        and_iff _ _ (report-nonempty cwrs.spec.identity_store_namespace _)
          (selector_failed_iff as_selector cwrs.spec.namespace_selector _))) in
    let outer = new_invalid-none "ClusterWideRemoteSyncer" cwrs.meta.name _ in
    (λ h. inner.0 (outer.0 h), λ h. outer.1 (inner.1 h))
