-- ===== src/Policy/Ensured.antt =====
-- The finalizers that stand before a policy is reconciled (internal/policy/policy.go).
use syngit.Common.{
  String, true, false, not, ◌||◌, Option, none, some, List, [], ◌∷◌, string_eq, contains,
  if◌then◌else◌, ◌≡◌, refl, ◌⊎◌, inl, inr, In, All, All-at, Bool-cases,
}
use mathlib.Core.Path.{subst}
use mathlib.Core.Bool.{true≢false}
use syngit.Common.Errors.{Error, Result, ok, err}
use syngit.Api.{ObjectMeta}
use syngit.Policy.{
  Event, reconciled, ensured, Policy, Server, Run, after_update, ensure, ensure_read, ensure_needed,
  needed_finalizers, ensure_finalizers, delete_loop, after_ensure, deleted, run_policies,
  with_finalizers, add_finalizers, missing,
}
use syngit.Policy.Kept.{delete_loop-Kept}

abbrev IsOther : Event → Type 0
IsOther (reconciled fin) = ⊥
IsOther _ = Unit

-- The object that was read holds all the finalizers.
abbrev pub IsHolding : List String → Result ObjectMeta → Type 0
IsHolding needed (ok object) = All (λ fin. contains object.finalizers fin ≡ true) needed
IsHolding needed (err e) = ⊥

missing-All :
    (needed fins : List String)
    → missing needed fins ≡ false
    → All (λ fin. contains fins fin ≡ true) needed
missing-All [] fins h = tt
missing-All (fin ∷ needed) fins h = elim (Bool-cases (contains fins fin)) [
  | inl held ↦
      (held, missing-All needed fins (subst (λ b. (not b || missing needed fins) ≡ false) held h))
  | inr gone ↦ absurd (true≢false (subst (λ b. (not b || missing needed fins) ≡ false) gone h))
]

other-absurd : {fin : String} {es : List Event} → All IsOther es → In (reconciled fin) es → ⊥
other-absurd h m = All-at IsOther m h

-- The run after the finalizers were ensured: what its events tell when a policy was reconciled.
module _ (server : Server) (ps : List Policy) (object : ObjectMeta) (fin : String) where
  abbrev start : Run
  start = record { object = object; events = [] }

  after_update-other :
      (object' : ObjectMeta) (answer : Option Error)
      → ¬ In (reconciled fin) (after_ensure server ps (after_update object' start answer)).0.events
  unfolding after_update after_ensure
  after_update-other object' (some e) = other-absurd {es = []} tt
  after_update-other object' none = other-absurd {es = ensured object'.finalizers ∷ []} (tt, tt)

  ensure-IsHolding :
      (needed : List String) (object' : ObjectMeta)
      → In (reconciled fin) (after_ensure server ps (ensure server needed object' start)).0.events
      → All (λ f. contains object'.finalizers f ≡ true) needed
  unfolding ensure
  ensure-IsHolding needed object' = elim (Bool-cases (missing needed object'.finalizers)) [
    | inr present ↦ λ _. missing-All needed object'.finalizers present
    | inl some_missing ↦
        let more = with_finalizers object' (add_finalizers needed object'.finalizers) in
        rw (ensure, some_missing) (λ m. absurd (after_update-other more (server.update more []) m))
  ]

  ensure_read-IsHolding :
      (needed : List String) (read : Result ObjectMeta)
      → In (reconciled fin) (after_ensure server ps (ensure_read server needed read start)).0.events
      → IsHolding needed read
  unfolding ensure_read after_ensure
  ensure_read-IsHolding needed (err e) m = other-absurd {es = []} tt m
  ensure_read-IsHolding needed (ok object') m = ensure-IsHolding needed object' m

  ensure_needed-IsHolding :
      (needed : List String)
      → In (reconciled fin) (after_ensure server ps (ensure_needed server needed start)).0.events
      → (needed ≡ []) ⊎ IsHolding needed (server.get [])
  unfolding ensure_needed
  ensure_needed-IsHolding [] m = inl refl
  ensure_needed-IsHolding (f ∷ needed) m =
      inr (ensure_read-IsHolding (f ∷ needed) (server.get []) m)

-- If a run reconciles any policy, then the object was not being deleted, and either none of the
-- policies needed a finalizer for it or the API server, read before, held all that they needed.
pub run_policies-IsHolding :
    (server : Server) (ps : List Policy) (object : ObjectMeta) (fin : String)
    → In (reconciled fin) (run_policies server ps object).0.events
    → (object.deleting ≡ false)
      × ((needed_finalizers server ps object ≡ [])
          ⊎ IsHolding (needed_finalizers server ps object) (server.get []))
unfolding run_policies deleted ensure_finalizers
run_policies-IsHolding server ps object fin =
    let run : Run = record { object = object; events = [] } in
    elim object.deleting
      as (λ b.
        In (reconciled fin)
          (if b
            then deleted server (delete_loop server ps run)
            else after_ensure server ps (ensure_finalizers server ps run)).0.events
        → (b ≡ false)
          × ((needed_finalizers server ps object ≡ [])
              ⊎ IsHolding (needed_finalizers server ps object) (server.get []))) [
                | true ↦ λ m. absurd (
                    other-absurd
                      (delete_loop-Kept (All IsOther) (λ f es h. (tt, h)) (λ f es before h. (tt, h))
                        server ps run tt)
                      m)
                | false ↦ λ m. (
                  refl,
                  ensure_needed-IsHolding server ps object fin (needed_finalizers server ps object)
                      m,
                )
              ]
