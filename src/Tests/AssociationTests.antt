-- ===== src/Tests/AssociationTests.antt =====
-- Runs of the association policy, on a store where another binding has the user's first name.
use syngit.Common.{
  false, true, none, Option, [], ◌∷◌, ◌≡◌, refl, sym, ◌∙◌, In, here, there, map, any, string_eq,
  arith,
}
use syngit.Common.Errors.{Error, Result, ok, err}
use syngit.Api.{
  RemoteUser, RemoteUserBinding, k8s_user_label_key, managed_by_label_key, managed_by_label_value,
}
use syngit.Managed.{has_name}
use syngit.Targets.{Store, Call}
use syngit.Targets.Association
use syngit.Targets.Association.{candidate, is_listed, max_attempts}
use syngit.Targets.Association.References.{has_user}
use syngit.Targets.Association.Associated.{cleanup-has_user}
use syngit.Targets.Association.Total.{reconcile-total}
use syngit.Tests.Sample.{remote_user, meta_of, name_of}

abbrev alices : RemoteUser
alices = record remote_user {
  meta = record (meta_of "team" "alice-user") {
    labels = (k8s_user_label_key, "alice") ∷ [];
    annotations = (k8s_user_label_key, "alice") ∷ [];
  };
}

-- A binding that a user made by hand.
abbrev manual : RemoteUserBinding
manual = record {
  meta = meta_of "team" "associated-rub-alice";
  spec = record {
    subject = record { kind = "User"; name = "bob" };
    remote_user_refs = name_of "" "bob-user" ∷ [];
    remote_target_refs = [];
  };
}

abbrev crowded : Store
crowded = record {
  remote_syncers = [];
  cluster_wide_remote_syncers = [];
  targets = [];
  bindings = manual ∷ [];
}

abbrev fine : Call → Store → Option Error
fine call s = none

abbrev associated : Result Store
associated = Association.reconcile fine alices crowded

abbrev or_else : Store → Result Store → Store
or_else s (ok t) = t
or_else s (err e) = s

abbrev after_association : Store
after_association = or_else crowded associated

association_names :
    map (λ (r : RemoteUserBinding). r.meta.name) after_association.bindings
    ≡ "associated-rub-alice" ∷ "associated-rub-alice-1" ∷ []
unfolding Association.reconcile Association.candidate_name
association_names = refl

abbrev only : (a x : RemoteUserBinding) → In x (a ∷ []) → a ≡ x
only a x (here e) = e
only a x (there m) = elim m [ ]

distinct_names :
    (x y : RemoteUserBinding)
    → In x crowded.bindings
    → In y crowded.bindings
    → has_name x y ≡ true
    → x ≡ y
distinct_names x y m n h = sym (only manual x m) ∙ only manual y n

second_free : any (has_name (candidate fine alices 1)) crowded.bindings ≡ false
unfolding Association.candidate_name
second_free = refl

reconcile-total_example : (t : Store) × (Association.reconcile fine alices crowded ≡ ok t)
reconcile-total_example =
    reconcile-total fine (λ call s. refl) alices 1 crowded distinct_names (omega arith) second_free

-- The managed binding of two users of one author.
abbrev shared : RemoteUserBinding
shared = record {
  meta = record (meta_of "team" "associated-rub-alice") {
    labels = (managed_by_label_key, managed_by_label_value) ∷ (k8s_user_label_key, "alice") ∷ [];
  };
  spec = record {
    subject = record { kind = "User"; name = "alice" };
    remote_user_refs = name_of "" "alice-user" ∷ name_of "" "other-user" ∷ [];
    remote_target_refs = [];
  };
}

abbrev sharing : Store
sharing = record crowded { bindings = shared ∷ [] }

abbrev left : Store
left = or_else sharing (Association.cleanup fine alices sharing)

left_ok : Association.cleanup fine alices sharing ≡ ok left
unfolding Association.cleanup
left_ok = refl

abbrev remaining : RemoteUserBinding
remaining = record shared {
  spec = record shared.spec { remote_user_refs = name_of "" "other-user" ∷ [] };
}

still_there : In remaining left.bindings
unfolding Association.cleanup
still_there = here refl

cleanup-has_user_example : has_user "alice-user" remaining ≡ false
cleanup-has_user_example =
    cleanup-has_user fine alices sharing left remaining (λ h. cc) left_ok still_there refl
