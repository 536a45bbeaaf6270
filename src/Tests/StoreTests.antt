-- ===== src/Tests/StoreTests.antt =====
-- Managed bindings and the cache, on small stores.
use syngit.Common.{ℕ, String, false, some, List, [], ◌∷◌, nat_eq, ◌≡◌, refl, All, arith}
use syngit.Common.Errors.{ok}
use syngit.Managed.{
  Bindings, remove_remote_target_ref, remove_remote_target_ref_from_rubs, refers_to,
}
use syngit.Managed.Ref.{refers}
use syngit.Managed.Cleared.{IsCleared, remove_remote_target_ref_from_rubs-IsCleared}
use syngit.Cache.{Entry, Lfu, get, set}
use syngit.Cache.Entries.{Distinct, keys}
use syngit.Cache.Valid.{IsValid, set-IsValid}
use syngit.Cache.Reads.{get-set}
use syngit.Tests.Sample.{binding}

absent : refers "other" binding ≡ false
unfolding refers_to
absent = refl

abbrev cleared : Bindings
cleared = remove_remote_target_ref "target" binding ∷ []

clearing : remove_remote_target_ref_from_rubs "team" "target" (binding ∷ []) ≡ ok cleared
unfolding remove_remote_target_ref_from_rubs remove_remote_target_ref
clearing = refl

remove_remote_target_ref_from_rubs-IsCleared_example : All (IsCleared "team" "target") cleared
remove_remote_target_ref_from_rubs-IsCleared_example =
    remove_remote_target_ref_from_rubs-IsCleared "team" "target" (binding ∷ []) cleared clearing

abbrev empty : Lfu ℕ String
empty = record { max = 1; entries = [] }

empty-IsValid : IsValid empty
unfolding Distinct keys
empty-IsValid = record { room = omega arith; distinct = tt; bounded = tt; sized = omega arith }

abbrev one : Lfu ℕ String
one = set empty 1 "a"

one-IsValid : IsValid one
one-IsValid = set-IsValid empty 1 "a" empty-IsValid

-- The second key evicts the first.
set-IsValid_example : IsValid (set one 2 "b")
set-IsValid_example = set-IsValid one 2 "b" one-IsValid

get-set_example : (get (set one 2 "b") 2).1 ≡ some "b"
get-set_example = get-set one 2 "b"

abbrev entries : List (ℕ × Entry String)
entries =
    (1, record { value = "a"; use_count = 5 }) ∷ (2, record { value = "b"; use_count = 3 }) ∷ []
