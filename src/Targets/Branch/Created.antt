-- ===== src/Targets/Branch/Created.antt =====
-- The creation of what the listed branches miss (internal/policy/branchtarget_policy.go).
use Prim.Native.Char.{Char}
use mathlib.Core.Path.{subst}
use syngit.Common.{
  String, true, false, Option, none, some, List, [], ◌∷◌, ◌++◌, ◌≡◌, ◌≢◌, ◌⊎◌, refl, sym, ap, ◌∙◌,
  In, here, there, In-cons, In-either, In-right, In-any, any-In, string_eq, beq_refl, inl, inr,
  Bool-cases, Option-cases, any,
}
use syngit.Common.Errors.{
  Error, Result, ok, err, Returns, Returns-bind, Returns-map, Returns-ok, Returns-intro,
  already_exists, >>=-eq-ok, ok-injective,
}
use syngit.Api.{RemoteTarget, Syncer}
use syngit.Naming.Target.{remote_target_name}
use syngit.Targets.{
  Store, Call, create_target, has_key, attempt, create, or_exists, with_targets, find_target,
}
use syngit.Targets.Losses.{Loses, create-Loses, or_exists-Returns}
use syngit.Targets.Branch.{target_of, build_remote_target, create_missing, repo, upstream}
use syngit.Targets.Branch.Kept.{create_missing-Loses}

-- The creation of a target is never refused with the answer that the target exists, unless it does.
abbrev pub IsTrueOfCreations : (Call → Store → Option Error) → Type 0
IsTrueOfCreations fault =
    (rt : RemoteTarget) (s : Store) → fault (create_target rt) s ≢ some already_exists

-- One target at most is stored under a name.
abbrev pub HasDistinctKeys : Store → Type 0
HasDistinctKeys s =
    (x y : RemoteTarget) → In x s.targets → In y s.targets → has_key x y ≡ true → x ≡ y

module _ (fault : Call → Store → Option Error) where
  refused-or_exists :
      (P : Store → Type 0) (s : Store) (e : Error)
      → some e ≢ some already_exists
      → Returns P (or_exists fault s (err e))
  unfolding or_exists
  refused-or_exists P s already_exists h = absurd (h refl)
  refused-or_exists P s e h = tt

  create-Returns :
      (P : Store → Type 0) (rt : RemoteTarget) (s : Store)
      → IsTrueOfCreations fault
      → (any (has_key rt) s.targets ≡ true → P s)
      → (any (has_key rt) s.targets ≡ false → P (with_targets s (s.targets ++ rt ∷ [])))
      → Returns P (or_exists fault s (create fault rt s))
  unfolding create attempt or_exists
  create-Returns P rt s honest taken created = elim (Option-cases (fault (create_target rt) s)) [
    | inr (e, failed) ↦
        rw (create, attempt, failed) (refused-or_exists P s e (λ h. honest rt s (failed ∙ h)))
    | inl fine ↦ elim (Bool-cases (any (has_key rt) s.targets)) [
      | inl stored ↦ rw (create, attempt, fine, stored, or_exists) (taken stored)
      | inr free ↦ rw (create, attempt, fine, free, or_exists) (created free)
    ]
  ]

module _ (path_of : String → Result String) (to_lower : Char → Char)
    (fault : Call → Store → Option Error) (syncer : Syncer) where
  abbrev pub derived_name : String → Result String
  derived_name branch =
      remote_target_name path_of to_lower (repo syncer) (upstream syncer) (repo syncer) branch

  -- A target that is stored after the creations was stored before, or was made for a listed branch
  -- under a name that was free.
  abbrev pub IsOldOrNew : Store → List String → RemoteTarget → Type 0
  IsOldOrNew s branches x =
      In x s.targets
      ⊎ (branch : String) × (name : String) × In branch branches
        × (derived_name branch ≡ ok name)
        × (x ≡ target_of syncer name branch)
        × ((y : RemoteTarget) → In y s.targets → has_key x y ≡ false)

  -- The branch has a target in the map, or a target is stored under the name derived for it.
  abbrev pub IsSettled : List (String × RemoteTarget) → Store → String → Type 0
  IsSettled existing t branch =
      ((rt : RemoteTarget) × (find_target branch existing ≡ some rt))
      ⊎ (find_target branch existing ≡ none)
        × (name : String) × (derived_name branch ≡ ok name)
        × (x : RemoteTarget) × In x t.targets
        × (has_key (target_of syncer name branch) x ≡ true)

  IsOldOrNew-there :
      (s : Store) (branch : String) (branches : List String) (x : RemoteTarget)
      → IsOldOrNew s branches x
      → IsOldOrNew s (branch ∷ branches) x
  IsOldOrNew-there s branch branches x (inl m) = inl m
  IsOldOrNew-there s branch branches x (inr (b, name, m, derived, e, fresh)) =
      inr (b, name, there m, derived, e, fresh)

  pub has_key_refl : (rt : RemoteTarget) → has_key rt rt ≡ true
  has_key_refl rt = rw (beq_refl rt.meta.namespace, beq_refl rt.meta.name) refl

  none-has_key :
      (rt : RemoteTarget) (rts : List RemoteTarget)
      → any (has_key rt) rts ≡ false
      → (y : RemoteTarget) → In y rts
      → has_key rt y ≡ false
  none-has_key rt rts free y m = elim (Bool-cases (has_key rt y)) [
    | inl same ↦
        let found : any (has_key rt) rts ≡ true = In-any (has_key rt) rts m same in absurd cc
    | inr other ↦ other
  ]

  -- One creation.
  abbrev Creates : RemoteTarget → Store → Store → Type 0
  Creates rt s t =
      ((x : RemoteTarget) × In x t.targets × (has_key rt x ≡ true))
      × ((x : RemoteTarget)
          → In x t.targets
          → In x s.targets
            ⊎ (x ≡ rt) × ((y : RemoteTarget) → In y s.targets → has_key rt y ≡ false))

  create-Creates :
      (rt : RemoteTarget) (s : Store)
      → IsTrueOfCreations fault
      → Returns (Creates rt s) (or_exists fault s (create fault rt s))
  create-Creates rt s honest =
      create-Returns fault (Creates rt s) rt s honest
        (λ taken. (any-In (has_key rt) s.targets taken, λ x m. inl m))
        (λ free. (
          (rt, In-right s.targets (rt ∷ []) (here refl), has_key_refl rt),
          λ x m. elim (In-either s.targets (rt ∷ []) m) [
            | inl old ↦ inl old
            | inr new ↦ elim (In-cons new) [
              | inl e ↦ inr (sym e, none-has_key rt s.targets free)
              | inr n ↦ elim n [ ]
            ]
          ],
        ))

  pub grows :
      (branches : List String) (existing : List (String × RemoteTarget)) (t u : Store)
      → create_missing path_of to_lower fault syncer branches existing t ≡ ok u
      → (x : RemoteTarget) → In x t.targets
      → In x u.targets
  grows branches existing t u at x m =
      let (kept, same) =
        Returns-ok (λ u'. Loses (λ y. true ≡ false) t u' × _) _
          (create_missing-Loses path_of to_lower fault syncer (λ y. true ≡ false) branches existing
            t)
          at in
      elim (kept x m) [ inl n ↦ n | inr h ↦ absurd cc ]

  create_grows :
      (rt : RemoteTarget) (t u : Store)
      → or_exists fault t (create fault rt t) ≡ ok u
      → (x : RemoteTarget) → In x t.targets
      → In x u.targets
  create_grows rt t u at x m =
      elim (Returns-ok (Loses (λ y. true ≡ false) t) _
        (or_exists-Returns fault (Loses (λ y. true ≡ false) t) t (create fault rt t) (λ y n. inl n)
          (create-Loses fault (λ y. true ≡ false) rt t))
        at x m) [ inl n ↦ n | inr h ↦ absurd cc ]

  build-derived :
      (branch : String) (rt : RemoteTarget)
      → build_remote_target path_of to_lower fault syncer branch ≡ ok rt
      → (name : String) × (derived_name branch ≡ ok name) × (rt ≡ target_of syncer name branch)
  unfolding build_remote_target
  build-derived branch rt built =
      let (name, derived, e) =
        >>=-eq-ok (derived_name branch) (λ n. ok (target_of syncer n branch)) built in
      (name, derived, sym (ok-injective e))

  module _ (s : Store) (desired : List String) where
    abbrev pub AllOldOrNew : Store → Type 0
    AllOldOrNew t = (x : RemoteTarget) → In x t.targets → IsOldOrNew s desired x

    AllOldOrNew-create :
        (branch name : String) (t u : Store)
        → In branch desired
        → derived_name branch ≡ ok name
        → ((x : RemoteTarget) → In x s.targets → In x t.targets)
        → AllOldOrNew t
        → Creates (target_of syncer name branch) t u
        → AllOldOrNew u
    AllOldOrNew-create branch name t u listed derived more before (stored, origin) x m =
        elim (origin x m) [
          | inl old ↦ before x old
          | inr (e, fresh) ↦ inr (
            branch,
            name,
            listed,
            derived,
            e,
            λ y n. ap (λ z. has_key z y) e ∙ fresh y (more y n),
          )
        ]

    pub create_missing-IsSettled :
        (branches : List String) (existing : List (String × RemoteTarget)) (t : Store)
        → IsTrueOfCreations fault
        → ((branch : String) → In branch branches → In branch desired)
        → ((x : RemoteTarget) → In x s.targets → In x t.targets)
        → AllOldOrNew t
        → Returns
            (λ u.
              ((branch : String) → In branch branches → IsSettled existing u branch)
              × AllOldOrNew u)
            (create_missing path_of to_lower fault syncer branches existing t)
    unfolding create_missing
    create_missing-IsSettled [] existing t honest listed more before = (λ b m. elim m [ ], before)
    create_missing-IsSettled (branch ∷ branches) existing t honest listed more before =
        elim (Option-cases (find_target branch existing)) [
          | inr (rt, found) ↦
              rw (create_missing, found)
                (Returns-map _ _ (create_missing path_of to_lower fault syncer branches existing t)
                  (λ u (later, after). (
                    λ b m. elim (In-cons m) [
                      | inl e ↦ subst (IsSettled existing u) e (inl (rt, found))
                      | inr n ↦ later b n
                    ],
                    after,
                  ))
                  (create_missing-IsSettled branches existing t honest (λ b m. listed b (there m))
                    more before))
          | inl missing ↦
              rw (create_missing, missing)
                (Returns-bind _ (build_remote_target path_of to_lower fault syncer branch) _
                  λ rt built. Returns-bind _ (or_exists fault t (create fault rt t)) _ λ t' at.
                    let (name, derived, e) = build-derived branch rt built in
                    let made =
                      subst (λ r. Creates r t t') e
                        (Returns-ok (Creates rt t) _ (create-Creates rt t honest) at) in
                    let wider : (x : RemoteTarget) → In x s.targets → In x t'.targets =
                      λ x m. create_grows rt t t' at x (more x m) in
                    Returns-intro _
                      (create_missing path_of to_lower fault syncer branches existing t')
                      λ u after.
                        let (later, all) =
                          Returns-ok _
                            (create_missing path_of to_lower fault syncer branches existing t')
                            (create_missing-IsSettled branches existing t' honest
                              (λ b m. listed b (there m)) wider
                              (AllOldOrNew-create branch name t t' (listed branch (here refl))
                                derived more before made))
                            after in
                        let (x, stored, same) = made.0 in
                        (
                          λ b m. elim (In-cons m) [
                            | inl h ↦ subst (IsSettled existing u) h (
                                inr (
                                  missing,
                                  name,
                                  derived,
                                  x,
                                  grows branches existing t' u after x stored,
                                  same,
                                ))
                            | inr n ↦ later b n
                          ],
                          all,
                        ))
        ]
