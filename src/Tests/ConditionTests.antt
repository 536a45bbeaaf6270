-- ===== src/Tests/ConditionTests.antt =====
-- The conditions of a status, on two of them.
use syngit.Common.{String, List, [], ◌∷◌, ◌++◌, ◌≡◌, refl}
use syngit.Conditions.{Condition, remove_condition, set_condition}
use syngit.Conditions.Distinct.{Distinct, others, set_condition-Distinct}

abbrev condition : String → String → Condition
condition type status = record {
  type = type;
  status = status;
  observed_generation = 1;
  last_transition_time = 0;
  reason = "Test";
  message = "";
}

abbrev conditions : List Condition
conditions = condition "Ready" "False" ∷ condition "Pushed" "True" ∷ []

replaced :
    set_condition conditions (condition "Ready" "True")
    ≡ condition "Pushed" "True" ∷ condition "Ready" "True" ∷ []
unfolding set_condition
replaced = refl

-- Of two conditions of the same type only the last one goes.
doubled :
    remove_condition (condition "Ready" "True" ∷ condition "Ready" "False" ∷ []) "Ready"
    ≡ condition "Ready" "True" ∷ []
unfolding remove_condition
doubled = refl

set_condition-Distinct_example :
    (set_condition conditions (condition "Ready" "True")
      ≡ others "Ready" conditions ++ condition "Ready" "True" ∷ [])
    × Distinct (set_condition conditions (condition "Ready" "True"))
set_condition-Distinct_example =
    set_condition-Distinct conditions (condition "Ready" "True") ((refl, tt), (tt, tt))
