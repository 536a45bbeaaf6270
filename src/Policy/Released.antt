-- ===== src/Policy/Released.antt =====
-- The order of clean-ups and finalizers in a run (internal/policy/policy.go).
use syngit.Common.{
  ℕ, String, Bool, true, false, Option, none, some, List, [], ◌∷◌, string_eq, if◌then◌else◌, inl,
  inr, In, Bool-cases,
}
use syngit.Common.Errors.{Error, Result, ok, err}
use syngit.Api.{ObjectMeta}
use syngit.Policy.{
  Event, cleaned, reconciled, ensured, released, Policy, Server, Run, after_update, ensure,
  ensure_read, ensure_needed, needed_finalizers, ensure_finalizers, clean_and_release, delete_loop,
  apply_loop, after_ensure, deleted, run_policies, missing,
}
use syngit.Policy.Kept.{clean_and_release-Kept, delete_loop-Kept}

-- Each finalizer that goes was cleaned up for before; the latest event stands first.
abbrev pub IsOrdered : List Event → Type 0
IsOrdered [] = Unit
IsOrdered (cleaned fin ∷ es) = IsOrdered es
IsOrdered (reconciled fin ∷ es) = IsOrdered es
IsOrdered (ensured fins ∷ es) = IsOrdered es
IsOrdered (released fin ∷ es) = In (cleaned fin) es × IsOrdered es

keep_cleaned : (fin : String) (es : List Event) → IsOrdered es → IsOrdered (cleaned fin ∷ es)
keep_cleaned fin es h = h

keep_released :
    (fin : String) (es : List Event)
    → In (cleaned fin) es
    → IsOrdered es
    → IsOrdered (released fin ∷ es)
keep_released fin es before h = (before, h)

after_update-IsOrdered :
    (object : ObjectMeta) (run : Run) (answer : Option Error)
    → IsOrdered run.events
    → IsOrdered (after_update object run answer).0.events
unfolding after_update
after_update-IsOrdered object run (some e) h = h
after_update-IsOrdered object run none h = h

module _ (server : Server) where
  apply_loop-IsOrdered :
      (ps : List Policy) (run : Run) (delay : ℕ) (errs : List Error)
      → IsOrdered run.events
      → IsOrdered (apply_loop server ps run delay errs).0.events
  unfolding apply_loop
  apply_loop-IsOrdered [] run delay errs h = h
  apply_loop-IsOrdered (p ∷ ps) run delay errs h = elim (Bool-cases (p.applies run.object)) [
    | inl applies ↦ rw (applies, apply_loop) (apply_loop-IsOrdered ps _ _ _ h)
    | inr other ↦
        rw (other, apply_loop)
          (apply_loop-IsOrdered ps (clean_and_release server p run).0 _ _
            (clean_and_release-Kept IsOrdered keep_cleaned keep_released server p run h))
  ]

  ensure-IsOrdered :
      (needed : List String) (object : ObjectMeta) (run : Run)
      → IsOrdered run.events
      → IsOrdered (ensure server needed object run).0.events
  unfolding ensure
  ensure-IsOrdered needed object run h = elim (Bool-cases (missing needed object.finalizers)) [
    | inr present ↦ rw (ensure, present) h
    | inl some_missing ↦ rw (ensure, some_missing) (after_update-IsOrdered _ run _ h)
  ]

  ensure_read-IsOrdered :
      (needed : List String) (read : Result ObjectMeta) (run : Run)
      → IsOrdered run.events
      → IsOrdered (ensure_read server needed read run).0.events
  unfolding ensure_read
  ensure_read-IsOrdered needed (err e) run h = h
  ensure_read-IsOrdered needed (ok object) run h = ensure-IsOrdered needed object run h

  ensure_needed-IsOrdered :
      (needed : List String) (run : Run)
      → IsOrdered run.events
      → IsOrdered (ensure_needed server needed run).0.events
  unfolding ensure_needed
  ensure_needed-IsOrdered [] run h = h
  ensure_needed-IsOrdered (fin ∷ needed) run h = ensure_read-IsOrdered (fin ∷ needed) _ run h

  after_ensure-IsOrdered :
      (ps : List Policy) (r : Run × Result Bool)
      → IsOrdered r.0.events
      → IsOrdered (after_ensure server ps r).0.events
  unfolding after_ensure
  after_ensure-IsOrdered ps (run, err e) h = h
  after_ensure-IsOrdered ps (run, ok true) h = h
  after_ensure-IsOrdered ps (run, ok false) h = apply_loop-IsOrdered ps run 0 [] h

-- Whatever the API server and the policies answer, a run of the policies removes a finalizer only
-- after the clean-up of a policy with this finalizer succeeded in the same run.
pub run_policies-IsOrdered :
    (server : Server) (ps : List Policy) (object : ObjectMeta)
    → IsOrdered (run_policies server ps object).0.events
unfolding run_policies deleted ensure_finalizers
run_policies-IsOrdered server ps object =
    let run : Run = record { object = object; events = [] } in
    elim object.deleting
      as (λ b.
        IsOrdered
          (if b
            then deleted server (delete_loop server ps run)
            else after_ensure server ps (ensure_finalizers server ps run)).0.events) [
              | true ↦ delete_loop-Kept IsOrdered keep_cleaned keep_released server ps run tt
              | false ↦
                  after_ensure-IsOrdered server ps (ensure_finalizers server ps run)
                    (ensure_needed-IsOrdered server (needed_finalizers server ps object) run tt)
            ]
