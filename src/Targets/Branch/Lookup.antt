-- ===== src/Targets/Branch/Lookup.antt =====
-- The map of the existing branches (internal/policy/branchtarget_policy.go).
use mathlib.Core.Path.{subst}
use syngit.Common.{
  String, true, false, ◌==◌, none, some, List, [], ◌∷◌, ◌≡◌, ◌≢◌, refl, sym, ap, ◌∙◌, In, here,
  there, In-cons, string_eq, inl, inr, Bool-cases,
}
use syngit.Api.{RemoteTarget}
use syngit.Targets.{put_target, find_target}
use syngit.Targets.Branch.{existing_branches}

pub apart : (x y : String) → (x == y) ≡ false → x ≢ y
apart x y h e = let same : (x == y) ≡ true = (string_eq.beq_iff x y).1 e in absurd cc

find-miss :
    (branch k : String) (rt : RemoteTarget) (m : List (String × RemoteTarget))
    → find_target branch ((k, rt) ∷ m) ≡ none
    → ((k == branch) ≡ false) × (find_target branch m ≡ none)
unfolding find_target
find-miss branch k rt m h = elim (Bool-cases (k == branch)) [
  | inl same ↦
      let first : find_target branch ((k, rt) ∷ m) ≡ some rt = rw (same, find_target) refl in
      absurd cc
  | inr other ↦
      let later : find_target branch ((k, rt) ∷ m) ≡ find_target branch m =
        rw (other, find_target) refl in
      (other, sym later ∙ h)
]

find-put_target :
    (branch k : String) (rt : RemoteTarget) (m : List (String × RemoteTarget))
    → find_target branch (put_target k rt m) ≡ none
    → (k ≢ branch) × (find_target branch m ≡ none)
unfolding put_target find_target
find-put_target branch k rt [] h = (apart k branch (find-miss branch k rt [] h).0, refl)
find-put_target branch k rt ((k', old) ∷ m) h = elim (Bool-cases (k' == k)) [
  | inl same ↦
      let put : put_target k rt ((k', old) ∷ m) ≡ ((k', rt) ∷ m) = rw (same, put_target) refl in
      let (miss, rest) = find-miss branch k' rt m (sym (ap (find_target branch) put) ∙ h) in
      let k_branch = subst (λ y. (y == branch) ≡ false) ((string_eq.beq_iff k' k).0 same) miss in
      (apart k branch k_branch, rw (miss, find_target) rest)
  | inr other ↦
      let put : put_target k rt ((k', old) ∷ m) ≡ ((k', old) ∷ put_target k rt m) =
        rw (other, put_target) refl in
      let (miss, rest) =
        find-miss branch k' old (put_target k rt m) (sym (ap (find_target branch) put) ∙ h) in
      let (k_branch, later) = find-put_target branch k rt m rest in
      (k_branch, rw (miss, find_target) later)
]

-- A branch that the map misses is the branch of no target that went into it.
pub find-existing_branches :
    (branch : String) (rts : List RemoteTarget) (m : List (String × RemoteTarget))
    → find_target branch (existing_branches rts m) ≡ none
    → (find_target branch m ≡ none)
      × ((x : RemoteTarget) → In x rts → x.spec.target_branch ≢ branch)
unfolding existing_branches
find-existing_branches branch [] m h = (h, λ x n. elim n [ ])
find-existing_branches branch (rt ∷ rts) m h =
    let (before, later) =
      find-existing_branches branch rts (put_target rt.spec.target_branch rt m) h in
    let (rt_branch, start) = find-put_target branch rt.spec.target_branch rt m before in
    (
      start,
      λ x n. elim (In-cons n) [
        | inl e ↦ subst (λ (y : RemoteTarget). y.spec.target_branch ≢ branch) e rt_branch
        | inr tail ↦ later x tail
      ],
    )

pub find_target-In :
    (branch : String) (rt : RemoteTarget) (m : List (String × RemoteTarget))
    → find_target branch m ≡ some rt
    → (k : String) × In (k, rt) m × (k ≡ branch)
unfolding find_target
find_target-In branch rt [] e = cc
find_target-In branch rt ((k, x) ∷ m) e = elim (Bool-cases (k == branch)) [
  | inl same ↦
      let first : find_target branch ((k, x) ∷ m) ≡ some x = rw (same, find_target) refl in
      let same_rt : x ≡ rt = cc in
      (k, here (ap (λ y. (k, y)) same_rt), (string_eq.beq_iff k branch).0 same)
  | inr other ↦
      let later : find_target branch ((k, x) ∷ m) ≡ find_target branch m =
        rw (other, find_target) refl in
      let (k', n, h) = find_target-In branch rt m (sym later ∙ e) in (k', there n, h)
]
