-- ===== src/Interceptor/Subject.antt =====
-- internal/interceptor/subject.go: who bypasses the interception.
use text.Mathlib.Text.{starts_with}
use syngit.Common.{
  ℕ, ◌+◌, ltb, String, Bool, true, false, List, [], ◌∷◌, ◌==◌, string_eq, if◌then◌else◌, ◌≡◌, arith,
  any, length, select, ◌||◌,
}
use syngit.Common.Errors.{Result, ok, err, too_much_subject}
use syngit.Api.{Subject, UserInfo}
use syngit.Interceptor.Context.{SyncerContext}

-- The loop over the subjects: whether one has the name, and how many do.
count_subjects : String → List Subject → Bool → ℕ → Bool × ℕ
count_subjects username [] found n = (found, n)
count_subjects username (s ∷ ss) found n =
    if s.name == username
    then count_subjects username ss true (n + 1)
    else count_subjects username ss found n

bypass_result : Bool × ℕ → Result Bool
bypass_result (found, n) = if ltb 1 n then err (too_much_subject n) else ok found

unfoldable pub is_bypass_subject : UserInfo → SyncerContext → Result Bool
unfolding count_subjects bypass_result
is_bypass_subject user_info sc =
    bypass_result (count_subjects user_info.username sc.spec.bypass_interception_subjects false 0)

unfoldable pub is_service_account : UserInfo → Bool
is_service_account user_info = starts_with user_info.username "system:serviceaccount:"

abbrev pub names : String → List Subject → ℕ
names username ss = length (select (λ s. s.name == username) ss)

count_subjects-names :
    (username : String) (ss : List Subject) (found : Bool) (n : ℕ)
    → (count_subjects username ss found n).1 ≡ n + names username ss
unfolding count_subjects
count_subjects-names username [] found n = omega arith
count_subjects-names username (s ∷ ss) found n =
    ground (
      arith,
      count_subjects-names username ss true (n + 1),
      count_subjects-names username ss found n,
    )

count_subjects-any :
    (username : String) (ss : List Subject) (found : Bool) (n : ℕ)
    → (count_subjects username ss found n).0 ≡ (found || any (λ s. s.name == username) ss)
unfolding count_subjects
count_subjects-any username [] found n = ground arith
count_subjects-any username (s ∷ ss) found n =
    ground
      (arith, count_subjects-any username ss true (n + 1), count_subjects-any username ss found n)

-- The user bypasses exactly if one subject has its name, and a name that several subjects share is
-- refused with their number.
pub is_bypass_subject-names :
    (user : UserInfo) (sc : SyncerContext)
    → is_bypass_subject user sc ≡ (
        if ltb 1 (names user.username sc.spec.bypass_interception_subjects)
        then err (too_much_subject (names user.username sc.spec.bypass_interception_subjects))
        else ok (any (λ s. s.name == user.username) sc.spec.bypass_interception_subjects))
unfolding is_bypass_subject
is_bypass_subject-names user sc = ground (
  arith,
  count_subjects-names user.username sc.spec.bypass_interception_subjects false 0,
  count_subjects-any user.username sc.spec.bypass_interception_subjects false 0,
)
