-- ===== src/Policy.antt =====
-- internal/policy/policy.go: the lifecycle of the policies of an object. A run keeps its copy of the
-- object and the events so far, the latest first; what the API server and the policies answer may
-- depend on both.
pub mod Kept
pub mod Released
pub mod Ensured
use syngit.Common.{
  ℕ, ltb, nat_beq, String, Bool, true, false, not, ◌&&◌, ◌||◌, Option, none, some, List, [], ◌∷◌,
  ◌++◌, ◌==◌, string_eq, contains, if◌then◌else◌, select,
}
use syngit.Common.Errors.{Error, Result, ok, err, not_found}
use syngit.Api.{ObjectMeta}

-- What a run does to the world, by the finalizer of the policy.
pub data Event : Type 0 where
  -- A clean-up that succeeded.
  cleaned : String → Event
  reconciled : String → Event
  -- The finalizers of an update that adds to them.
  ensured : List String → Event
  -- An update without the finalizer.
  released : String → Event

pub record Policy : Type 0 where
  pub finalizer : String
  pub applies : ObjectMeta → Bool
  -- The delay until the next run, zero for none, and the error.
  pub reconcile : ObjectMeta → List Event → ℕ × Option Error
  pub cleanup : ObjectMeta → List Event → Option Error

-- A read, and a write, of the object. A write that meets a conflict is tried again, so that these
-- are the answers to the last try.
pub record Server : Type 0 where
  pub get : List Event → Result ObjectMeta
  pub update : ObjectMeta → List Event → Option Error

pub record Run : Type 0 where
  pub object : ObjectMeta
  pub events : List Event

-- `MergeResults` (pkg/kube/result.go)
unfoldable pub merge_results : ℕ → ℕ → ℕ
merge_results a b = if ltb 0 b && (nat_beq a 0 || ltb b a) then b else a

-- `controllerutil.AddFinalizer` for each in turn, and `RemoveFinalizer`.
pub add_finalizers : List String → List String → List String
add_finalizers [] fins = fins
add_finalizers (fin ∷ needed) fins =
    add_finalizers needed (if contains fins fin then fins else fins ++ fin ∷ [])

abbrev drop_finalizer : String → List String → List String
drop_finalizer fin = select (λ f. not (f == fin))

abbrev missing : List String → List String → Bool
missing [] fins = false
missing (fin ∷ needed) fins = not (contains fins fin) || missing needed fins

abbrev with_finalizers : ObjectMeta → List String → ObjectMeta
with_finalizers object fins = record object { finalizers = fins }

abbrev is_not_found : Error → Bool
is_not_found not_found = true
is_not_found _ = false

-- The run's copy of the object holds the finalizer of the policy.
abbrev holds : Policy → Run → Bool
holds p run = not (p.finalizer == "") && contains run.object.finalizers p.finalizer

-- The run after the answer of a clean-up.
after_cleanup : String → Run → Option Error → Run × Option Error
after_cleanup fin run (some e) = (run, some e)
after_cleanup fin run none = (record run { events = cleaned fin ∷ run.events }, none)

clean : Policy → Run → Run × Option Error
unfolding after_cleanup
clean p run = after_cleanup p.finalizer run (p.cleanup run.object run.events)

-- The run after the answer to an update with more finalizers.
after_update : ObjectMeta → Run → Option Error → Run × Result Bool
after_update object run (some e) = (record run { object = object }, err e)
after_update object run none =
    (record { object = object; events = ensured object.finalizers ∷ run.events }, ok true)

module _ (server : Server) where
  -- The update of `removeFinalizer`, on the object that was read.
  release : String → ObjectMeta → Run → Run × Option Error
  release fin object run =
      if contains object.finalizers fin
      then (let object' = with_finalizers object (drop_finalizer fin object.finalizers) in
          elim (server.update object' run.events) [
            | some e ↦ (record run { object = object' }, some e)
            | none ↦ (record { object = object'; events = released fin ∷ run.events }, none)
          ])
      else (record run { object = object }, none)

  -- `removeFinalizer`
  pub remove_finalizer : String → Run → Run × Option Error
  unfolding release
  remove_finalizer fin run = elim (server.get run.events) [
    | err e ↦ (run, if is_not_found e then none else some e)
    | ok object ↦ release fin object run
  ]

  pub needed_finalizers : List Policy → ObjectMeta → List String
  needed_finalizers [] object = []
  needed_finalizers (p ∷ ps) object =
      let rest = needed_finalizers ps object in
      if not (p.finalizer == "") && p.applies object then p.finalizer ∷ rest else rest

  -- The update of `ensureFinalizers`, on the object that was read; whether some were added.
  ensure : List String → ObjectMeta → Run → Run × Result Bool
  unfolding add_finalizers after_update
  ensure needed object run =
      if missing needed object.finalizers
      then (let object' = with_finalizers object (add_finalizers needed object.finalizers) in
          after_update object' run (server.update object' run.events))
      else (record run { object = object }, ok false)

  -- Of the object as it was read.
  ensure_read : List String → Result ObjectMeta → Run → Run × Result Bool
  unfolding ensure
  ensure_read needed (err e) run = (run, err e)
  ensure_read needed (ok object) run = ensure needed object run

  ensure_needed : List String → Run → Run × Result Bool
  unfolding ensure_read
  ensure_needed [] run = (run, ok false)
  ensure_needed (fin ∷ needed) run = ensure_read (fin ∷ needed) (server.get run.events) run

  -- `ensureFinalizers`
  pub ensure_finalizers : List Policy → Run → Run × Result Bool
  unfolding needed_finalizers ensure_needed
  ensure_finalizers ps run = ensure_needed (needed_finalizers ps run.object) run

  -- The clean-up of a policy, and the finalizer that it leaves.
  pub clean_and_release : Policy → Run → Run × Option Error
  unfolding clean remove_finalizer
  clean_and_release p run =
      let first = clean p run in
      elim first.1 [
        | some e ↦ (first.0, some e)
        | none ↦ if holds p first.0 then remove_finalizer p.finalizer first.0 else (first.0, none)
      ]

  -- The same for an object that is being deleted, of which the finalizer is known to stand.
  pub clean_and_remove : Policy → Run → Run × Option Error
  unfolding clean remove_finalizer
  clean_and_remove p run =
      let first = clean p run in
      elim first.1 [ some e ↦ (first.0, some e) | none ↦ remove_finalizer p.finalizer first.0 ]

  -- The loop over the policies of an object that is being deleted: an error ends it.
  pub delete_loop : List Policy → Run → Run × Option Error
  unfolding clean_and_remove
  delete_loop [] run = (run, none)
  delete_loop (p ∷ ps) run = elim (holds p run) [
    | false ↦ delete_loop ps run
    | true ↦
        let next = clean_and_remove p run in
        elim next.1 [ some e ↦ (next.0, some e) | none ↦ delete_loop ps next.0 ]
  ]

  add_error : Option Error → List Error → List Error
  add_error none errs = errs
  add_error (some e) errs = errs ++ e ∷ []

  -- The loop over the policies of a live object: errors are collected.
  pub apply_loop : List Policy → Run → ℕ → List Error → Run × ℕ × List Error
  unfolding clean_and_release add_error merge_results
  apply_loop [] run delay errs = (run, delay, errs)
  apply_loop (p ∷ ps) run delay errs = elim (p.applies run.object) [
    | true ↦
        let (after, e) = p.reconcile run.object run.events in
        apply_loop ps (record run { events = reconciled p.finalizer ∷ run.events })
          (merge_results delay after) (add_error e errs)
    | false ↦
        let next = clean_and_release p run in apply_loop ps next.0 delay (add_error next.1 errs)
  ]

  after_ensure : List Policy → Run × Result Bool → Run × ℕ × List Error
  unfolding apply_loop
  after_ensure ps (run, err e) = (run, 0, e ∷ [])
  after_ensure ps (run, ok true) = (run, 0, [])
  after_ensure ps (run, ok false) = apply_loop ps run 0 []

  deleted : Run × Option Error → Run × ℕ × List Error
  unfolding add_error
  deleted (run, e) = (run, 0, add_error e [])

  -- `RunPolicies`: the run, the delay until the next one, and the errors.
  unfoldable pub run_policies : List Policy → ObjectMeta → Run × ℕ × List Error
  unfolding delete_loop ensure_finalizers after_ensure deleted
  run_policies ps object =
      let run : Run = record { object = object; events = [] } in
      if object.deleting
      then deleted (delete_loop ps run)
      else after_ensure ps (ensure_finalizers ps run)
