-- ===== src/Managed.antt =====
-- pkg/managed/remoteuserbinding.go: the references that syngit keeps in its managed bindings. The
-- API server's bindings are a list. An update or a deletion that meets a conflict is tried again on
-- what is stored by then, so that a call is its last try, on the bindings of that time.
pub mod Ref
pub mod Names
pub mod Visits
pub mod Cleared
pub mod Stable
use syngit.Common.{
  String, Bool, true, false, not, ◌&&◌, ◌||◌, Option, none, some, List, [], ◌∷◌, ◌++◌, ◌==◌,
  string_eq, if◌then◌else◌, any, select,
}
use syngit.Common.Errors.{Error, Result, ok, err, ◌>>=◌, not_found, already_exists}
use syngit.Api.{
  NamespacedName, ObjectReference, RemoteTarget, RemoteUserBinding, get, managed_by_label_key,
  managed_by_label_value,
}

-- `refersTo`
unfoldable pub refers_to : RemoteUserBinding → String → ObjectReference → Bool
refers_to rub rt_name ref =
    ref.name == rt_name && (ref.namespace == "" || ref.namespace == rub.meta.namespace)

abbrev pub with_targets : RemoteUserBinding → List ObjectReference → RemoteUserBinding
with_targets rub refs = record rub { spec = record rub.spec { remote_target_refs = refs } }

-- `AddRemoteTargetRef`
unfoldable pub add_remote_target_ref : String → RemoteUserBinding → RemoteUserBinding
unfolding refers_to
add_remote_target_ref rt_name rub =
    if any (refers_to rub rt_name) rub.spec.remote_target_refs
    then rub
    else with_targets rub
        (rub.spec.remote_target_refs ++ record { namespace = ""; name = rt_name } ∷ [])

-- `RemoveRemoteTargetRef`
unfoldable pub remove_remote_target_ref : String → RemoteUserBinding → RemoteUserBinding
unfolding refers_to
remove_remote_target_ref rt_name rub =
    with_targets rub (select (λ ref. not (refers_to rub rt_name ref)) rub.spec.remote_target_refs)

abbrev pub Bindings : Type 0
Bindings = List RemoteUserBinding

abbrev pub has_name : RemoteUserBinding → RemoteUserBinding → Bool
has_name rub other = other.meta.namespace == rub.meta.namespace && other.meta.name == rub.meta.name

-- The stored binding with the name of another.
unfoldable pub find : RemoteUserBinding → Bindings → Option RemoteUserBinding
find rub [] = none
find rub (other ∷ store) = if has_name rub other then some other else find rub store

unfoldable pub update : RemoteUserBinding → RemoteUserBinding → Bindings → Bindings
update rub new [] = []
update rub new (other ∷ store) =
    let rest = update rub new store in if has_name rub other then new ∷ rest else other ∷ rest

pub delete : RemoteUserBinding → Bindings → Bindings
delete rub [] = []
delete rub (other ∷ store) =
    let rest = delete rub store in if has_name rub other then rest else other ∷ rest

-- Neither users nor targets are left.
abbrev pub is_empty : RemoteUserBinding → Bool
is_empty rub = elim rub.spec.remote_user_refs [
  | [] ↦ elim rub.spec.remote_target_refs [ [] ↦ true | r ∷ rs ↦ false ]
  | r ∷ rs ↦ false
]

unfoldable pub write : RemoteUserBinding → RemoteUserBinding → Bindings → Bindings
unfolding update delete
write rub new store = if is_empty new then delete rub store else update rub new store

mutate_found :
    (RemoteUserBinding → Result RemoteUserBinding)
    → RemoteUserBinding
    → Bindings
    → Option RemoteUserBinding
    → Result Bindings
unfolding write
mutate_found mutate rub store none = err not_found
mutate_found mutate rub store (some found) = mutate found >>= λ new. ok (write rub new store)

-- `MutateOrDeleteRemoteUserBinding`, of the binding with the name of `rub`.
unfoldable pub mutate_or_delete :
    (RemoteUserBinding → Result RemoteUserBinding) → RemoteUserBinding → Bindings → Result Bindings
unfolding find mutate_found
mutate_or_delete mutate rub store = mutate_found mutate rub store (find rub store)

abbrev pub is_managed : String → RemoteUserBinding → Bool
is_managed namespace rub =
    rub.meta.namespace == namespace
    && get rub.meta.labels managed_by_label_key == managed_by_label_value

-- The loop that adds: any failure ends it.
pub associate_all : String → Bindings → Bindings → Result Bindings
unfolding mutate_or_delete
associate_all rt_name [] store = ok store
associate_all rt_name (rub ∷ rubs) store =
    mutate_or_delete (λ r. ok (add_remote_target_ref rt_name r)) rub store >>= λ store'.
    associate_all rt_name rubs store'

-- A target that exists already is as good as a new one.
ignore_existing : Result (Unit {0}) → Result (Unit {0})
ignore_existing (ok a) = ok a
ignore_existing (err already_exists) = ok tt
ignore_existing (err e) = err e

-- `CreateRemoteTargetAndAssociate`; `created` is the answer to the creation of the target.
unfoldable pub create_remote_target_and_associate :
    Result (Unit {0}) → RemoteTarget → Bindings → Result Bindings
unfolding associate_all ignore_existing
create_remote_target_and_associate created rt store = ignore_existing created >>= λ _.
    associate_all rt.meta.name (select (is_managed rt.meta.namespace) store) store

-- The loop that removes: a binding that is gone is passed over.
pub or_gone : Result Bindings → Bindings → Result Bindings
or_gone (ok store') store = ok store'
or_gone (err not_found) store = ok store
or_gone (err e) store = err e

-- The loop over bindings that were listed, for any change.
unfoldable pub visit_all :
    (RemoteUserBinding → RemoteUserBinding) → Bindings → Bindings → Result Bindings
unfolding mutate_or_delete or_gone
visit_all change [] store = ok store
visit_all change (rub ∷ rubs) store =
    or_gone (mutate_or_delete (λ r. ok (change r)) rub store) store >>= λ store'.
    visit_all change rubs store'

-- `RemoveRemoteTargetRefFromRUBs`
unfoldable pub remove_remote_target_ref_from_rubs : String → String → Bindings → Result Bindings
unfolding visit_all
remove_remote_target_ref_from_rubs namespace rt_name store =
    visit_all (remove_remote_target_ref rt_name) (select (is_managed namespace) store) store
