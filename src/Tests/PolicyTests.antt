-- ===== src/Tests/PolicyTests.antt =====
-- Runs of two policies, on small servers.
use syngit.Common.{
  String, Bool, true, false, none, List, [], ◌∷◌, ◌≡◌, refl, contains, string_eq, In, here, there,
  ◌⊎◌,
}
use syngit.Common.Errors.{ok}
use syngit.Api.{ObjectMeta}
use syngit.Policy.{
  cleaned, reconciled, ensured, released, Policy, Server, needed_finalizers, run_policies,
}
use syngit.Policy.Released.{IsOrdered, run_policies-IsOrdered}
use syngit.Policy.Ensured.{IsHolding, run_policies-IsHolding}
use syngit.Tests.Sample.{meta_of}

-- A policy of the objects with a label, which cleans up at once.
abbrev labelled : String → Policy
labelled fin = record {
  finalizer = fin;
  applies = λ object. contains object.finalizers "active";
  reconcile = λ object events. (5, none);
  cleanup = λ object events. none;
}

abbrev policies : List Policy
policies = labelled "a" ∷ labelled "b" ∷ []

abbrev holding : Bool → List String → ObjectMeta
holding deleting finalizers = record (meta_of "team" "user") {
  finalizers = finalizers;
  deleting = deleting;
}

abbrev serving : ObjectMeta → Server
serving object = record { get = λ events. ok object; update = λ object events. none }

deletion :
    (run_policies
      (serving (holding true ("a" ∷ "b" ∷ [])))
      policies
      (holding true ("a" ∷ "b" ∷ []))).0.events
    ≡ released "b" ∷ cleaned "b" ∷ released "a" ∷ cleaned "a" ∷ []
unfolding run_policies
deletion = refl

first_run :
    (run_policies
      (serving (holding false ("active" ∷ [])))
      policies
      (holding false ("active" ∷ []))).0.events
    ≡ ensured ("active" ∷ "a" ∷ "b" ∷ []) ∷ []
unfolding run_policies
first_run = refl

second_run :
    (run_policies
      (serving (holding false ("active" ∷ "a" ∷ "b" ∷ [])))
      policies
      (holding false ("active" ∷ "a" ∷ "b" ∷ []))).0.events
    ≡ reconciled "b" ∷ reconciled "a" ∷ []
unfolding run_policies
second_run = refl

run_policies-IsOrdered_example :
    IsOrdered
      (run_policies
        (serving (holding true ("a" ∷ "b" ∷ [])))
        policies
        (holding true ("a" ∷ "b" ∷ []))).0.events
run_policies-IsOrdered_example =
    run_policies-IsOrdered (serving (holding true ("a" ∷ "b" ∷ []))) policies
      (holding true ("a" ∷ "b" ∷ []))

second_run_reconciles :
    In
      (reconciled "a")
      (run_policies
        (serving (holding false ("active" ∷ "a" ∷ "b" ∷ [])))
        policies
        (holding false ("active" ∷ "a" ∷ "b" ∷ []))).0.events
unfolding run_policies
second_run_reconciles = there (here refl)

run_policies-IsHolding_example :
    (false ≡ false)
    × ((needed_finalizers
            (serving (holding false ("active" ∷ "a" ∷ "b" ∷ [])))
            policies
            (holding false ("active" ∷ "a" ∷ "b" ∷ []))
          ≡ [])
        ⊎ IsHolding
            (needed_finalizers
              (serving (holding false ("active" ∷ "a" ∷ "b" ∷ [])))
              policies
              (holding false ("active" ∷ "a" ∷ "b" ∷ [])))
            (ok (holding false ("active" ∷ "a" ∷ "b" ∷ []))))
run_policies-IsHolding_example =
    run_policies-IsHolding (serving (holding false ("active" ∷ "a" ∷ "b" ∷ []))) policies
      (holding false ("active" ∷ "a" ∷ "b" ∷ [])) "a" second_run_reconciles
