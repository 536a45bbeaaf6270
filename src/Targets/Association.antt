-- ===== src/Targets/Association.antt =====
-- internal/policy/association_policy.go: the managed binding of a user, which is found or created and
-- gets references to the user and to the targets of the branches.
pub mod Found
pub mod Names
pub mod References
pub mod Associated
pub mod Total
use Prim.Native.String.{slice, ◌++◌ as str_append}
use syngit.Common.{
  ℕ, zero, suc, ◌+◌, ◌/◌, ◌%◌, ltb, String, Bool, true, false, not, ◌&&◌, ◌||◌, Option, none, some,
  List, [], ◌∷◌, ◌++◌, ◌==◌, string_eq, if◌then◌else◌, select, any, nat_beq,
}
use syngit.Common.Errors.{Error, Result, ok, err, ◌>>=◌, not_found, already_exists, other}
use syngit.Api.{
  get, RemoteUser, RemoteTarget, RemoteUserBinding, ObjectReference, managed_by_label_key,
  managed_by_label_value, k8s_user_label_key, rub_name_prefix, rub_annotation_key_managed,
  rt_label_value_one_or_many_branches,
}
use syngit.Managed.{
  Bindings, has_name, find, is_managed, add_remote_target_ref, mutate_or_delete, or_gone, visit_all,
}
use syngit.Targets.{
  Store, Call, list_bindings, list_targets, get_binding, create_binding, add_ref, attempt,
  is_policy_target, list_policy_targets, with_bindings,
}

abbrev digit : ℕ → String
digit d = slice "0123456789" d (d + 1)

-- The decimal digits of a number that has at most as many as the fuel, and one.
decimal : ℕ → ℕ → String
decimal zero n = digit n
decimal (suc fuel) n =
    let front = decimal fuel (n / 10) in
    if ltb n 10 then digit n else str_append front (digit (n % 10))

-- `AssociationPolicy.Applies`
unfoldable pub applies : RemoteUser → Bool
applies remote_user = get remote_user.meta.annotations rub_annotation_key_managed == "true"

abbrev pub sanitized_of : RemoteUser → String
sanitized_of remote_user = get remote_user.meta.labels k8s_user_label_key

abbrev pub raw_of : RemoteUser → String
raw_of remote_user = get remote_user.meta.annotations k8s_user_label_key

-- The binding is managed, and of the user.
abbrev pub is_of_user : String → RemoteUserBinding → Bool
is_of_user sanitized_username rub =
    get rub.meta.labels managed_by_label_key == managed_by_label_value
    && get rub.meta.labels k8s_user_label_key == sanitized_username

abbrev pub is_listed : String → String → RemoteUserBinding → Bool
is_listed namespace sanitized_username rub =
    rub.meta.namespace == namespace && is_of_user sanitized_username rub

abbrev pub reference_to : String → ObjectReference
reference_to name = record { namespace = ""; name = name }

-- The name of the attempt `i`.
unfoldable pub candidate_name : String → ℕ → String
unfolding decimal
candidate_name sanitized_username i =
    let base = str_append rub_name_prefix (str_append "-" sanitized_username) in
    if nat_beq i 0 then base else str_append base (str_append "-" (decimal 2 i))

abbrev pub with_user_refs : RemoteUserBinding → List ObjectReference → RemoteUserBinding
with_user_refs rub refs = record rub { spec = record rub.spec { remote_user_refs = refs } }

abbrev pub add_user_ref : String → RemoteUserBinding → RemoteUserBinding
add_user_ref name rub =
    if any (λ ref. ref.name == name) rub.spec.remote_user_refs
    then rub
    else with_user_refs rub (rub.spec.remote_user_refs ++ reference_to name ∷ [])

abbrev pub remove_user_ref : String → RemoteUserBinding → RemoteUserBinding
remove_user_ref name rub =
    with_user_refs rub (select (λ ref. not (ref.name == name)) rub.spec.remote_user_refs)

pub add_all : List RemoteTarget → RemoteUserBinding → RemoteUserBinding
unfolding add_remote_target_ref
add_all [] rub = rub
add_all (rt ∷ rts) rub = add_all rts (add_remote_target_ref rt.meta.name rub)

abbrev pub max_attempts : ℕ
max_attempts = 100

-- The answer of a read, of what is stored.
abbrev pub or_missing {ℓ} : {A : Type ℓ} → Option A → Result A
or_missing none = err not_found
or_missing (some a) = ok a

module _ (fault : Call → Store → Option Error) (remote_user : RemoteUser) where
  abbrev pub candidate : ℕ → RemoteUserBinding
  candidate i = record {
    meta = record {
      name = candidate_name (sanitized_of remote_user) i;
      namespace = remote_user.meta.namespace;
      labels =
          (managed_by_label_key, managed_by_label_value)
          ∷ (k8s_user_label_key, sanitized_of remote_user)
          ∷ [];
      annotations = [];
      finalizers = [];
      deleting = false;
    };
    spec = record {
      subject = record { kind = "User"; name = raw_of remote_user };
      remote_user_refs = reference_to remote_user.meta.name ∷ [];
      remote_target_refs = [];
    };
  }

  pub create_rub : RemoteUserBinding → Store → Result Store
  unfolding attempt
  create_rub rub s = attempt fault (create_binding rub) s (
      if any (has_name rub) s.bindings
      then err already_exists
      else ok (with_bindings s (s.bindings ++ rub ∷ [])))

  pub get_rub : RemoteUserBinding → Store → Result RemoteUserBinding
  unfolding attempt find
  get_rub rub s = attempt fault (get_binding rub) s (or_missing (find rub s.bindings))

  -- The name is taken: by the user's managed binding, by another one, or no longer.
  pub reuse : Store → Result RemoteUserBinding → Result (Option (RemoteUserBinding × Store))
  reuse s (ok existing) =
      ok (if is_of_user (sanitized_of remote_user) existing then some (existing, s) else none)
  reuse s (err not_found) = ok none
  reuse s (err e) = err e

  pub claim : RemoteUserBinding → Store → Result Store → Result (Option (RemoteUserBinding × Store))
  unfolding get_rub reuse
  claim rub s (ok s') = ok (some (rub, s'))
  claim rub s (err already_exists) = reuse s (get_rub rub s)
  claim rub s (err e) = err e

  -- The loop over the names, with the attempts that are left.
  pub try_names : ℕ → ℕ → Store → Result (RemoteUserBinding × Store)
  unfolding create_rub claim
  try_names zero i s = err (other "could not allocate a name for managed RemoteUserBinding")
  try_names (suc left) i s = claim (candidate i) s (create_rub (candidate i) s) >>= λ claimed.
      elim claimed [ some r ↦ ok r | none ↦ try_names left (suc i) s ]

  abbrev pub first_or_new : List RemoteUserBinding → Store → Result (RemoteUserBinding × Store)
  first_or_new [] s = try_names max_attempts 0 s
  first_or_new (rub ∷ rubs) s = get_rub rub s >>= λ fresh. ok (fresh, s)

  pub list_rubs : Store → Result (List RemoteUserBinding)
  unfolding attempt
  list_rubs s =
      attempt fault list_bindings s
        (ok (select (is_listed remote_user.meta.namespace (sanitized_of remote_user)) s.bindings))

  -- `findOrCreateManagedRUB`
  unfoldable pub find_or_create_managed_rub : Store → Result (RemoteUserBinding × Store)
  unfolding list_rubs get_rub try_names
  find_or_create_managed_rub s = list_rubs s >>= λ rubs. first_or_new rubs s

  -- A change of the binding, tried until it meets no conflict.
  pub change_rub :
      RemoteUserBinding → (RemoteUserBinding → Result RemoteUserBinding) → Store → Result Store
  unfolding attempt mutate_or_delete
  change_rub rub change s =
      attempt fault (add_ref rub) s
        (mutate_or_delete change rub s.bindings >>= λ bindings. ok (with_bindings s bindings))

  -- `ensureRemoteUserRef`
  unfoldable pub ensure_remote_user_ref : RemoteUserBinding → Store → Result Store
  unfolding change_rub
  ensure_remote_user_ref rub s =
      change_rub rub (λ fresh. ok (add_user_ref remote_user.meta.name fresh)) s

  -- `associateExistingRemoteTargets`
  unfoldable pub associate_existing_remote_targets : RemoteUserBinding → Store → Result Store
  unfolding change_rub list_policy_targets add_all
  associate_existing_remote_targets rub s =
      change_rub rub
        (λ fresh.
          list_policy_targets fault rt_label_value_one_or_many_branches rub.meta.namespace s
          >>= λ rts. ok (add_all rts fresh))
        s

  -- The binding is found or created, and then gets its references.
  abbrev pub associate : Store → Result Store
  associate s = find_or_create_managed_rub s >>= λ (rub, s').
      ensure_remote_user_ref rub s' >>= λ s''. associate_existing_remote_targets rub s''

  -- `AssociationPolicy.Reconcile`
  unfoldable pub reconcile : Store → Result Store
  unfolding find_or_create_managed_rub ensure_remote_user_ref associate_existing_remote_targets
  reconcile s =
      if sanitized_of remote_user == "" || raw_of remote_user == "" then ok s else associate s

  -- The loop of the clean-up.
  pub leave_all : List RemoteUserBinding → Store → Result Store
  unfolding attempt visit_all
  leave_all rubs s =
      visit_all (remove_user_ref remote_user.meta.name) rubs s.bindings >>= λ bindings.
      ok (with_bindings s bindings)

  -- `cleanupAssociation`, which Cleanup calls.
  unfoldable pub cleanup : Store → Result Store
  unfolding list_rubs leave_all
  cleanup s =
      if sanitized_of remote_user == "" then ok s else list_rubs s >>= λ rubs. leave_all rubs s
