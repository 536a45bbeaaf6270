-- ===== src/Targets/Branch/Served.antt =====
-- Which of the listed branches get a target (internal/policy/branchtarget_policy.go).
use Prim.Native.Char.{Char}
use mathlib.Core.Path.{subst}
use syngit.Common.{
  String, true, false, ◌&&◌, ◌==◌, Option, some, List, [], ◌≡◌, ◌≢◌, ◌⊎◌, refl, sym, ap, ◌∙◌, In,
  &&-eq-true, contains, contains_iff, string_eq, beq_refl, All, All-at, inl, inr, Bool-cases,
}
use syngit.Common.Errors.{Error, Result, ok, Returns, Returns-bind, Returns-map, Returns-ok}
use syngit.Api.{RemoteTarget, Syncer, rt_annotation_key_one_or_many_branches}
use syngit.Targets.{Store, Call, has_key, has_upstream, get_other_syncers_with, find_target}
use syngit.Targets.Losses.{Loses}
use syngit.Targets.Branch.{
  listed_branches, target_of, create_missing, prune, existing_branches, own_targets, settle,
  reconcile, repo, upstream,
}
use syngit.Targets.Branch.Kept.{
  IsEntry, existing_branches-IsEntry, matching, matching-In, own_targets-matching, prune-Pruned,
  Prunable,
}
use syngit.Targets.Branch.Lookup.{apart, find-existing_branches, find_target-In}
use syngit.Targets.Branch.Created.{
  IsTrueOfCreations, HasDistinctKeys, derived_name, IsSettled, AllOldOrNew, grows, has_key_refl,
  create_missing-IsSettled,
}

module _ (path_of : String → Result String) (to_lower : Char → Char)
    (fault : Call → Store → Option Error) (syncer : Syncer) where
  -- The branch has a target of the syncer's upstream.
  abbrev pub IsServed : Store → String → Type 0
  IsServed t branch =
      (rt : RemoteTarget) × In rt t.targets
      × (rt.spec.target_branch ≡ branch)
      × (has_upstream (repo syncer) (upstream syncer) rt ≡ true)

  -- The name that is derived for the branch is that of a stored target that is not the branch's own,
  -- or of another listed branch.
  abbrev pub IsTaken : Store → String → Type 0
  IsTaken s branch =
      (name : String) × (derived_name path_of to_lower fault syncer branch ≡ ok name)
      × (((x : RemoteTarget) × In x s.targets
            × (has_key (target_of syncer name branch) x ≡ true)
            × (In x (matching syncer s) → x.spec.target_branch ≢ branch))
          ⊎ (other : String) × In other (listed_branches syncer)
            × (other ≢ branch)
            × (name' : String) × (derived_name path_of to_lower fault syncer other ≡ ok name')
            × (has_key (target_of syncer name branch) (target_of syncer name' other) ≡ true))

  has_key-sym : (x y : RemoteTarget) → has_key x y ≡ true → has_key y x ≡ true
  has_key-sym x y h =
      let (spaces, names) =
        &&-eq-true (y.meta.namespace == x.meta.namespace) (y.meta.name == x.meta.name) h in
      let e = sym ((string_eq.beq_iff y.meta.namespace x.meta.namespace).0 spaces) in
      let e' = sym ((string_eq.beq_iff y.meta.name x.meta.name).0 names) in
      ap (λ n. n == y.meta.namespace && x.meta.name == y.meta.name) e
      ∙ ap (λ n. y.meta.namespace == y.meta.namespace && n == y.meta.name) e'
      ∙ has_key_refl path_of to_lower fault syncer y

  module _ (s u t : Store) (others : List Syncer) (branch : String)
      (listed : contains (listed_branches syncer) branch ≡ true)
      (pruned : Loses
        (Prunable path_of to_lower fault syncer
          (listed_branches syncer)
          others
          (existing_branches (matching syncer s) []))
        u
        t) where
    entries : All (IsEntry (matching syncer s)) (existing_branches (matching syncer s) [])
    entries = existing_branches-IsEntry (matching syncer s) (matching syncer s) [] (λ rt m. m) tt

    -- A target that shares its name only with a target of the branch is not deleted.
    unpruned :
        (x : RemoteTarget)
        → In x u.targets
        → ((y : RemoteTarget) → In y s.targets → has_key y x ≡ true → y.spec.target_branch ≡ branch)
        → In x t.targets
    unpruned x m only = elim (pruned x m) [
      | inl kept ↦ kept
      | inr (b, y, n, unwanted, unused, same) ↦
          let (at, named) = All-at (IsEntry (matching syncer s)) n entries in
          let stored = (matching-In path_of to_lower fault syncer s y at).0 in
          let b_branch : b ≡ branch = sym named ∙ only y stored same in
          let wanted : contains (listed_branches syncer) b ≡ true =
            ap (contains (listed_branches syncer)) b_branch ∙ listed in
          absurd cc
    ]

    old-IsServed :
        (rt : RemoteTarget)
        → HasDistinctKeys s
        → ((x : RemoteTarget) → In x s.targets → In x u.targets)
        → find_target branch (existing_branches (matching syncer s) []) ≡ some rt
        → IsServed t branch
    old-IsServed rt distinct more found =
        let (k, n, k_branch) =
          find_target-In branch rt (existing_branches (matching syncer s) []) found in
        let (at, named) = All-at (IsEntry (matching syncer s)) n entries in
        let (stored, of_policy, of_upstream) = matching-In path_of to_lower fault syncer s rt at in
        (
          rt,
          unpruned rt (more rt stored) (λ y m same.
              ap (λ (r : RemoteTarget). r.spec.target_branch) (distinct y rt m stored same)
              ∙ named
              ∙ k_branch),
          named ∙ k_branch,
          of_upstream,
        )

    new-IsServed :
        (name : String)
        → In (target_of syncer name branch) u.targets
        → ((y : RemoteTarget) → In y s.targets → has_key (target_of syncer name branch) y ≡ false)
        → IsServed t branch
    new-IsServed name made fresh =
        let new = target_of syncer name branch in
        (
          new,
          unpruned new made (λ y m same.
              let other = fresh y m in
              let same' : has_key new y ≡ true = has_key-sym y new same in absurd cc),
          refl,
          rw (beq_refl (repo syncer), beq_refl (upstream syncer)) refl,
        )

    settled-IsServed :
        HasDistinctKeys s
        → ((x : RemoteTarget) → In x s.targets → In x u.targets)
        → AllOldOrNew path_of to_lower fault syncer s (listed_branches syncer) u
        → IsSettled path_of to_lower fault syncer
            (existing_branches (matching syncer s) [])
            u
            branch
        → IsServed t branch ⊎ IsTaken s branch
    settled-IsServed distinct more origin (inl (rt, found)) =
        inl (old-IsServed rt distinct more found)
    settled-IsServed distinct more origin (inr (missing, name, derived, x, m, same)) =
        elim (origin x m) [
          | inl old ↦ inr (
            name,
            derived,
            inl (x, old, same, (find-existing_branches branch (matching syncer s) [] missing).1 x),
          )
          | inr (b, name', n, derived', e, fresh) ↦ elim (Bool-cases (b == branch)) [
            | inl equal ↦
                let b_branch = (string_eq.beq_iff b branch).0 equal in
                let x_new = e ∙ ap (target_of syncer name') b_branch in
                inl (
                  new-IsServed name' (subst (λ y. In y u.targets) x_new m)
                    (λ y at. ap (λ z. has_key z y) (sym x_new) ∙ fresh y at))
            | inr different ↦ inr (
              name,
              derived,
              inr (
                b,
                n,
                apart b branch different,
                name',
                derived',
                ap (has_key (target_of syncer name branch)) (sym e) ∙ same,
              ),
            )
          ]
        ]

  settle-IsServed :
      (s : Store) (branch : String)
      → IsTrueOfCreations fault
      → HasDistinctKeys s
      → In branch (listed_branches syncer)
      → Returns
          (λ t. IsServed t branch ⊎ IsTaken s branch)
          (settle path_of to_lower fault syncer (existing_branches (matching syncer s) []) s)
  settle-IsServed s branch honest distinct m =
      let existing = existing_branches (matching syncer s) [] in
      let desired = listed_branches syncer in
      Returns-bind _ (create_missing path_of to_lower fault syncer desired existing s) _ λ u at.
        Returns-bind _
          (get_other_syncers_with fault syncer rt_annotation_key_one_or_many_branches u) _
          λ others found.
            let (settled, origin) =
              Returns-ok _ (create_missing path_of to_lower fault syncer desired existing s)
                (create_missing-IsSettled path_of to_lower fault syncer s desired desired existing s
                  honest (λ b n. n) (λ x n. n) (λ x n. inl n))
                at in
            Returns-map _ _ (prune path_of to_lower fault syncer desired others existing u)
              (λ t pruned.
                settled-IsServed s u t others branch ((contains_iff desired branch).1 m) pruned
                  distinct (grows path_of to_lower fault syncer desired existing s u at) origin
                  (settled branch m))
              (prune-Pruned path_of to_lower fault syncer desired others existing u)

  reconcile-Returns :
      (P : Store → Type 0) (s : Store)
      → Returns P
          (settle path_of to_lower fault syncer (existing_branches (matching syncer s) []) s)
      → Returns P (reconcile path_of to_lower fault syncer s)
  unfolding reconcile
  reconcile-Returns P s h = Returns-bind _ (own_targets path_of to_lower fault syncer s) _ λ rts at.
      subst (λ rts'. Returns P (settle path_of to_lower fault syncer (existing_branches rts' []) s))
        (sym (
          Returns-ok (λ rts'. rts' ≡ matching syncer s) _
            (own_targets-matching path_of to_lower fault syncer s) at))
        h

  -- After a reconciliation of the branches that ends without an error, each branch that the syncer
  -- lists has a stored target of the syncer's upstream, unless the name that is derived for the
  -- branch is the name of a target that was stored before and is not a target of the syncer's upstream
  -- with this branch, managed under the policy of the branches in the namespace, or is the name
  -- derived for another listed branch. It is assumed that a target's name is unique in its namespace, and that the API server
  -- never fails the creation of a target with "already exists" of its own accord.
  pub reconcile-IsServed :
      (s t : Store) (branch : String)
      → IsTrueOfCreations fault
      → HasDistinctKeys s
      → In branch (listed_branches syncer)
      → reconcile path_of to_lower fault syncer s ≡ ok t
      → IsServed t branch ⊎ IsTaken s branch
  reconcile-IsServed s t branch honest distinct m =
      Returns-ok _ (reconcile path_of to_lower fault syncer s) (
        reconcile-Returns (λ t'. IsServed t' branch ⊎ IsTaken s branch) s
          (settle-IsServed s branch honest distinct m))
