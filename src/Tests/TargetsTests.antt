-- ===== src/Tests/TargetsTests.antt =====
-- Runs of the policies of the branches and of the users, on a small store.
use Prim.Native.Char.{Char}
use syngit.Common.{
  String, none, Option, List, [], ◌∷◌, ◌≡◌, ◌⊎◌, refl, sym, ◌∙◌, In, here, there, string_eq, map,
}
use syngit.Common.Errors.{Error, Result, ok, err, ◌>>=◌}
use syngit.Api.{
  RemoteSyncer, Syncer, namespaced, RemoteTarget, RemoteUserBinding,
  rt_annotation_key_one_or_many_branches, rt_annotation_key_user_specific,
  rt_annotation_value_one_user_one_branch, managed_by_label_key, managed_by_label_value,
  k8s_user_label_key,
}
use syngit.Naming.Target.{remote_target_name}
use syngit.Targets.{Store, Call, other_syncers}
use syngit.Targets.Branches.{branches_from_annotation}
use syngit.Targets.Shrinks.{IsGone}
use syngit.Targets.Branch
use syngit.Targets.Branch.{is_branch_used_by_other_syncer}
use syngit.Targets.User
use syngit.Targets.Branch.Kept.{IsOrphan}
use syngit.Targets.Branch.Cleaned.{cleanup-IsGone}
use syngit.Targets.Branch.Served.{reconcile-IsServed, IsServed, IsTaken}
use syngit.Targets.User.Cleaned.{user_cleanup-IsGone}
use syngit.Targets.User.Kept
use syngit.Tests.Sample.{spec, meta_of, name_of}

two_branches : branches_from_annotation "main, dev ,feature" ≡ "main" ∷ "dev" ∷ "feature" ∷ []
unfolding branches_from_annotation
two_branches = refl

abbrev path_of : String → Result String
path_of url = ok "/team/repo.git"

abbrev to_lower : Char → Char
to_lower c = c

abbrev fine : Call → Store → Option Error
fine call s = none

-- A syncer that lists the branches main and dev, and wants a target for each user.
abbrev annotated : RemoteSyncer
annotated = record {
  meta = record (meta_of "team" "syncer") {
    annotations =
        (rt_annotation_key_one_or_many_branches, "main, dev")
        ∷ (rt_annotation_key_user_specific, rt_annotation_value_one_user_one_branch)
        ∷ [];
  };
  spec = spec;
}

abbrev self : Syncer
self = namespaced annotated

-- The target of a branch that is no longer listed, with a binding that refers to it.
abbrev old : RemoteTarget
old = Branch.target_of self "team-repo-main-team-repo-old" "old"

abbrev bound : RemoteUserBinding
bound = record {
  meta = record (meta_of "team" "associated-rub-alice") {
    labels = (managed_by_label_key, managed_by_label_value) ∷ (k8s_user_label_key, "alice") ∷ [];
  };
  spec = record {
    subject = record { kind = "User"; name = "alice" };
    remote_user_refs = name_of "" "alice-user" ∷ [];
    remote_target_refs = name_of "" "team-repo-main-team-repo-old" ∷ [];
  };
}

abbrev store : Store
store = record {
  remote_syncers = annotated ∷ [];
  cluster_wide_remote_syncers = [];
  targets = old ∷ [];
  bindings = bound ∷ [];
}

abbrev names_of : Result Store → Result (List String)
names_of r = r >>= λ s. ok (map (λ (rt : RemoteTarget). rt.meta.name) s.targets)

abbrev reconciled : Result Store
reconciled = Branch.reconcile path_of to_lower fine self store

branches_reconciled :
    names_of reconciled ≡ ok ("team-repo-main-team-repo-main" ∷ "team-repo-main-team-repo-dev" ∷ [])
unfolding Branch.reconcile branches_from_annotation remote_target_name syngit.Naming.is_allowed
    syngit.Managed.remove_remote_target_ref_from_rubs
branches_reconciled = refl

abbrev cleaned : Result Store
cleaned = Branch.cleanup path_of to_lower fine self store

branches_cleaned : names_of cleaned ≡ ok []
unfolding Branch.cleanup syngit.Managed.remove_remote_target_ref_from_rubs
branches_cleaned = refl

abbrev user_reconciled : Result Store
user_reconciled = User.reconcile path_of to_lower fine self store

users_reconciled :
    names_of user_reconciled
    ≡ ok ("team-repo-main-team-repo-old" ∷ "team-repo-main-team-repo-alice" ∷ [])
unfolding User.reconcile remote_target_name syngit.Naming.is_allowed syngit.Managed.mutate_or_delete
users_reconciled = refl

abbrev or_else : Store → Result Store → Store
or_else s (ok t) = t
or_else s (err e) = s

abbrev after : Store
after = or_else store reconciled

reconciled_ok : reconciled ≡ ok after
unfolding Branch.reconcile branches_from_annotation remote_target_name syngit.Naming.is_allowed
    syngit.Managed.remove_remote_target_ref_from_rubs
reconciled_ok = refl

abbrev after_cleanup : Store
after_cleanup = or_else store cleaned

cleaned_ok : cleaned ≡ ok after_cleanup
unfolding Branch.cleanup syngit.Managed.remove_remote_target_ref_from_rubs
cleaned_ok = refl

abbrev only {ℓ} : {A : Type ℓ} (a x : A) → In x (a ∷ []) → a ≡ x
only a x (here e) = e
only a x (there m) = elim m [ ]

listed_dev : In "dev" (Branch.listed_branches self)
unfolding branches_from_annotation
listed_dev = there (here refl)

orphaned : IsOrphan self store old
unfolding is_branch_used_by_other_syncer other_syncers
orphaned = (here refl, refl, refl, refl)

reconcile-IsServed_example :
    IsServed path_of to_lower fine self after "dev" ⊎ IsTaken path_of to_lower fine self store "dev"
reconcile-IsServed_example =
    reconcile-IsServed path_of to_lower fine self store after "dev" (λ rt s h. cc)
      (λ x y m n h. sym (only old x m) ∙ only old y n) listed_dev reconciled_ok

cleanup-IsGone_example : IsGone old after_cleanup
cleanup-IsGone_example =
    cleanup-IsGone path_of to_lower fine self store after_cleanup old (λ rt s h. cc) cleaned_ok
      orphaned

-- The target of a user who has no binding.
abbrev carols : RemoteTarget
carols = User.target_of path_of to_lower fine self "team-repo-main-team-repo-carol" "carol" "carol"

abbrev user_store : Store
user_store = record store { targets = carols ∷ [] }

abbrev after_users : Store
after_users = or_else user_store (User.reconcile path_of to_lower fine self user_store)

abbrev after_user_cleanup : Store
after_user_cleanup = or_else user_store (User.cleanup path_of to_lower fine self user_store)

user_cleanup_ok : User.cleanup path_of to_lower fine self user_store ≡ ok after_user_cleanup
unfolding User.cleanup syngit.Managed.remove_remote_target_ref_from_rubs
user_cleanup_ok = refl

carol_orphaned : Kept.IsOrphan self user_store carols
unfolding User.is_rt_used_by_other_syncer other_syncers
carol_orphaned = (here refl, refl, refl, refl)

user_cleanup-IsGone_example : IsGone carols after_user_cleanup
user_cleanup-IsGone_example =
    user_cleanup-IsGone path_of to_lower fine self user_store after_user_cleanup carols
      (λ rt s h. cc) user_cleanup_ok carol_orphaned
