-- ===== src/Policy/Kept.antt =====
-- What holds of the events of a run throughout its clean-ups (internal/policy/policy.go): a property
-- that a clean-up keeps, and the release of a finalizer whose clean-up succeeded before.
use syngit.Common.{
  String, Option, none, some, List, [], ◌∷◌, string_eq, contains, ◌≡◌, refl, inl, inr, In, here,
  Bool-cases, Option-cases,
}
use syngit.Common.Errors.{Error, Result-cases}
use syngit.Api.{ObjectMeta}
use syngit.Policy.{
  Event, cleaned, released, Policy, Server, Run, release, remove_finalizer, after_cleanup, clean,
  holds, clean_and_release, clean_and_remove, delete_loop, with_finalizers, drop_finalizer,
}

after_cleanup-In :
    (fin : String) (run : Run) (answer : Option Error)
    → (after_cleanup fin run answer).1 ≡ none
    → In (cleaned fin) (after_cleanup fin run answer).0.events
unfolding after_cleanup
after_cleanup-In fin run (some e) failed = absurd cc
after_cleanup-In fin run none done = here refl

clean-In :
    (p : Policy) (run : Run)
    → (clean p run).1 ≡ none
    → In (cleaned p.finalizer) (clean p run).0.events
unfolding clean
clean-In p run = after_cleanup-In p.finalizer run (p.cleanup run.object run.events)

module _ (Kept : List Event → Type 0)
    (on_cleaned : (fin : String) (es : List Event) → Kept es → Kept (cleaned fin ∷ es))
    (on_released : (fin : String) (es : List Event)
      → In (cleaned fin) es
      → Kept es
      → Kept (released fin ∷ es)) where
  after_cleanup-Kept :
      (fin : String) (run : Run) (answer : Option Error)
      → Kept run.events
      → Kept (after_cleanup fin run answer).0.events
  unfolding after_cleanup
  after_cleanup-Kept fin run (some e) h = h
  after_cleanup-Kept fin run none h = on_cleaned fin run.events h

  clean-Kept : (p : Policy) (run : Run) → Kept run.events → Kept (clean p run).0.events
  unfolding clean
  clean-Kept p run = after_cleanup-Kept p.finalizer run (p.cleanup run.object run.events)

  release-Kept :
      (server : Server) (fin : String) (object : ObjectMeta) (run : Run)
      → In (cleaned fin) run.events
      → Kept run.events
      → Kept (release server fin object run).0.events
  unfolding release
  release-Kept server fin object run before h = elim (Bool-cases (contains object.finalizers fin)) [
    | inr gone ↦ rw gone h
    | inl held ↦
        elim (Option-cases (
          server.update (with_finalizers object (drop_finalizer fin object.finalizers))
            run.events)) [
              | inl stored ↦ rw (held, stored) (on_released fin run.events before h)
              | inr (e, failed) ↦ rw (held, failed) h
            ]
  ]

  remove_finalizer-Kept :
      (server : Server) (fin : String) (run : Run)
      → In (cleaned fin) run.events
      → Kept run.events
      → Kept (remove_finalizer server fin run).0.events
  unfolding remove_finalizer
  remove_finalizer-Kept server fin run before h = elim (Result-cases (server.get run.events)) [
    | inl (object, read) ↦ rw (remove_finalizer, read) (release-Kept server fin object run before h)
    | inr (e, failed) ↦ rw (remove_finalizer, failed) h
  ]

  pub clean_and_release-Kept :
      (server : Server) (p : Policy) (run : Run)
      → Kept run.events
      → Kept (clean_and_release server p run).0.events
  unfolding clean_and_release
  clean_and_release-Kept server p run h =
      let first = clean p run in
      elim (Option-cases first.1) [
        | inr (e, failed) ↦ rw (clean_and_release, failed) (clean-Kept p run h)
        | inl done ↦ elim (Bool-cases (holds p first.0)) [
          | inr gone ↦ rw (clean_and_release, done, gone) (clean-Kept p run h)
          | inl held ↦
              rw (clean_and_release, done, held)
                (remove_finalizer-Kept server p.finalizer first.0 (clean-In p run done)
                  (clean-Kept p run h))
        ]
      ]

  clean_and_remove-Kept :
      (server : Server) (p : Policy) (run : Run)
      → Kept run.events
      → Kept (clean_and_remove server p run).0.events
  unfolding clean_and_remove
  clean_and_remove-Kept server p run h =
      let first = clean p run in
      elim (Option-cases first.1) [
        | inr (e, failed) ↦ rw (clean_and_remove, failed) (clean-Kept p run h)
        | inl done ↦
            rw (clean_and_remove, done)
              (remove_finalizer-Kept server p.finalizer first.0 (clean-In p run done)
                (clean-Kept p run h))
      ]

  pub delete_loop-Kept :
      (server : Server) (ps : List Policy) (run : Run)
      → Kept run.events
      → Kept (delete_loop server ps run).0.events
  unfolding delete_loop
  delete_loop-Kept server [] run h = h
  delete_loop-Kept server (p ∷ ps) run h = elim (Bool-cases (holds p run)) [
    | inr gone ↦ rw (gone, delete_loop) (delete_loop-Kept server ps run h)
    | inl held ↦
        let next = clean_and_remove server p run in
        elim (Option-cases next.1) [
          | inl done ↦
              rw (held, delete_loop, done)
                (delete_loop-Kept server ps next.0 (clean_and_remove-Kept server p run h))
          | inr (e, failed) ↦ rw (held, delete_loop, failed) (clean_and_remove-Kept server p run h)
        ]
  ]
