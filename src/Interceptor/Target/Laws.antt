-- ===== src/Interceptor/Target/Laws.antt =====
-- The map from users to targets (internal/interceptor/target.go).
use mathlib.Core.Path.{subst}
use syngit.Common.{
  ◌+◌, [], ◌∷◌, ◌==◌, ◌≡◌, sym, refl, arith, All, All-append, Bool-cases, inl, inr, length-append,
}
use syngit.Api.{RemoteTarget}
use syngit.Interceptor.Target.{
  GitUserInfo, git_user_info_eq, same_info_iff, UserTargets, append_target, total_targets,
}

-- Every pair of a user and one of its targets.
abbrev pub Entries : (GitUserInfo → RemoteTarget → Type 0) → UserTargets → Type 0
Entries P [] = Unit
Entries P ((info, rts) ∷ m) = All (P info) rts × Entries P m

pub append_target-Entries :
    (P : GitUserInfo → RemoteTarget → Type 0) (info : GitUserInfo) (rt : RemoteTarget)
    (m : UserTargets)
    → P info rt
    → Entries P m
    → Entries P (append_target info rt m)
unfolding append_target
append_target-Entries P info rt [] p h = ((p, tt), tt)
append_target-Entries P info rt ((k, rts) ∷ m) p h = elim (Bool-cases (k == info)) [
  | inl e ↦ rw e (
    All-append (P k) rts (rt ∷ []) h.0
        (subst (λ i. P i rt) (sym ((same_info_iff k info).0 e)) p, tt),
    h.1,
  )
  | inr e ↦ rw e (h.0, append_target-Entries P info rt m p h.1)
]

pub total_targets-append_target :
    (info : GitUserInfo) (rt : RemoteTarget) (m : UserTargets)
    → total_targets (append_target info rt m) ≡ total_targets m + 1
unfolding append_target
total_targets-append_target info rt [] = omega arith
total_targets-append_target info rt ((k, rts) ∷ m) =
    ground (arith, total_targets-append_target info rt m, length-append rts (rt ∷ []))

pub append_target_empty :
    (info : GitUserInfo) (rt : RemoteTarget) → append_target info rt [] ≡ (info, rt ∷ []) ∷ []
unfolding append_target
append_target_empty info rt = refl
