-- ===== src/Conditions.antt =====
-- pkg/kube/conditions.go: the conditions of a status.
pub mod Distinct
use syngit.Common.{
  ℕ, zero, suc, String, Bool, Option, none, some, List, [], ◌∷◌, ◌++◌, ◌==◌, string_eq,
  if◌then◌else◌,
}

-- `metav1.Condition`
pub record Condition : Type 0 where
  pub type : String
  pub status : String
  pub observed_generation : ℕ
  pub last_transition_time : ℕ
  pub reason : String
  pub message : String

-- The loop that looks for the index to remove, from an index on: the last one wins.
last_index : String → List Condition → ℕ → Option ℕ → Option ℕ
last_index type_kind [] i remove_index = remove_index
last_index type_kind (c ∷ cs) i remove_index =
    last_index type_kind cs (suc i) (if type_kind == c.type then some i else remove_index)

-- `slices.Delete(conditions, i, i + 1)`
abbrev delete_at : List Condition → ℕ → List Condition
delete_at [] i = []
delete_at (c ∷ cs) zero = cs
delete_at (c ∷ cs) (suc i) = c ∷ delete_at cs i

abbrev delete_found : List Condition → Option ℕ → List Condition
delete_found cs none = cs
delete_found cs (some i) = delete_at cs i

unfoldable pub remove_condition : List Condition → String → List Condition
unfolding last_index
remove_condition cs type_kind = delete_found cs (last_index type_kind cs 0 none)

unfoldable pub set_condition : List Condition → Condition → List Condition
unfolding remove_condition
set_condition cs c = remove_condition cs c.type ++ c ∷ []
