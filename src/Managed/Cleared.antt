-- ===== src/Managed/Cleared.antt =====
-- What is left of a target's references when it goes (pkg/managed/remoteuserbinding.go).
use syngit.Common.{String, false, ◌≡◌, ◌⊎◌, All}
use syngit.Common.Errors.{ok}
use syngit.Api.{RemoteUserBinding}
use syngit.Managed.{
  remove_remote_target_ref, Bindings, is_managed, remove_remote_target_ref_from_rubs,
}
use syngit.Managed.Ref.{refers, remove-refers}
use syngit.Managed.Visits.{visit_all-All}

module _ (namespace rt : String) where
  -- The binding is not managed in the namespace, or does not refer to the target.
  abbrev pub IsCleared : RemoteUserBinding → Type 0
  IsCleared r = (refers rt r ≡ false) ⊎ (is_managed namespace r ≡ false)

  -- When the references to a target have been removed, no managed binding of the namespace refers
  -- to the target any more.
  pub remove_remote_target_ref_from_rubs-IsCleared :
      (store store' : Bindings)
      → remove_remote_target_ref_from_rubs namespace rt store ≡ ok store'
      → All IsCleared store'
  unfolding remove_remote_target_ref_from_rubs
  remove_remote_target_ref_from_rubs-IsCleared =
      visit_all-All (remove_remote_target_ref rt) (is_managed namespace) (refers rt)
        (remove-refers rt)
