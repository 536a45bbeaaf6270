-- ===== src/Targets/Association/Found.antt =====
-- The managed binding that a user gets (internal/policy/association_policy.go).
use mathlib.Core.Path.{subst}
use syngit.Common.{
  ℕ, zero, suc, Bool, true, ◌&&◌, Option, none, some, List, [], ◌∷◌, string_eq, any, select, ◌≡◌,
  refl, sym, ◌∙◌, inl, inr, In, here, select-In, Bool-cases, beq_refl, arith,
}
use syngit.Common.Errors.{
  Error, Result, ok, err, Returns, Returns-bind, Returns-ok, not_found, already_exists,
}
use syngit.Api.{RemoteUser, RemoteUserBinding}
use syngit.Managed.{has_name, find}
use syngit.Managed.Names.{has_name-meta, find-In, find_self, find-append}
use syngit.Targets.{Store, Call, list_bindings, get_binding, create_binding}
use syngit.Targets.Losses.{attempt-Returns}
use syngit.Targets.Association.{
  sanitized_of, is_of_user, is_listed, candidate, max_attempts, or_missing, create_rub, get_rub,
  reuse, claim, try_names, first_or_new, list_rubs, find_or_create_managed_rub,
}

-- One binding at most is stored under a name.
abbrev pub HasDistinctNames : Store → Type 0
HasDistinctNames s =
    (x y : RemoteUserBinding) → In x s.bindings → In y s.bindings → has_name x y ≡ true → x ≡ y

-- The binding is stored, managed and of the user, in the user's namespace.
abbrev pub IsFound : RemoteUser → RemoteUserBinding → Store → Type 0
IsFound remote_user rub s =
    (find rub s.bindings ≡ some rub)
    × (is_listed remote_user.meta.namespace (sanitized_of remote_user) rub ≡ true)

or_missing-some : (o : Option RemoteUserBinding) → Returns (λ r. o ≡ some r) (or_missing o)
or_missing-some none = tt
or_missing-some (some r) = refl

and_true : (a b : Bool) → a ≡ true → b ≡ true → (a && b) ≡ true
and_true a b h k = ground (arith, h, k)

module _ (fault : Call → Store → Option Error) (remote_user : RemoteUser) where
  candidate-is_listed :
      (i : ℕ)
      → is_listed remote_user.meta.namespace
          (sanitized_of remote_user)
          (candidate fault remote_user i)
        ≡ true
  candidate-is_listed i =
      rw (beq_refl remote_user.meta.namespace, beq_refl (sanitized_of remote_user)) refl

  get_rub-find :
      (rub : RemoteUserBinding) (s : Store)
      → Returns (λ r. find rub s.bindings ≡ some r) (get_rub fault remote_user rub s)
  unfolding get_rub
  get_rub-find rub s =
      attempt-Returns fault (λ r. find rub s.bindings ≡ some r) (get_binding rub) s _
        (or_missing-some (find rub s.bindings))

  -- A claim that succeeds.
  abbrev IsClaimed : Option (RemoteUserBinding × Store) → Type 0
  IsClaimed none = Unit
  IsClaimed (some (rub, s)) = IsFound remote_user rub s

  create_rub-IsFound :
      (rub : RemoteUserBinding) (s : Store)
      → is_listed remote_user.meta.namespace (sanitized_of remote_user) rub ≡ true
      → Returns (IsFound remote_user rub) (create_rub fault remote_user rub s)
  unfolding create_rub
  create_rub-IsFound rub s listed =
      attempt-Returns fault (IsFound remote_user rub) (create_binding rub) s _
        (elim (Bool-cases (any (has_name rub) s.bindings)) [
          | inl taken ↦ rw taken tt
          | inr free ↦ rw free (find-append rub s.bindings free, listed)
        ])

  reuse-IsClaimed :
      (rub : RemoteUserBinding) (s : Store) (r : Result RemoteUserBinding)
      → rub.meta.namespace ≡ remote_user.meta.namespace
      → Returns (λ x. find rub s.bindings ≡ some x) r
      → Returns IsClaimed (reuse fault remote_user s r)
  unfolding reuse
  reuse-IsClaimed rub s (ok existing) same at =
      elim (Bool-cases (is_of_user (sanitized_of remote_user) existing)) [
        | inl own ↦
            let spaces = (has_name-meta rub existing (find-In rub existing s.bindings at).1).0 in
            rw own (
              find_self rub existing s.bindings at,
              and_true _ _
                  ((string_eq.beq_iff existing.meta.namespace remote_user.meta.namespace).1
                    (spaces ∙ same))
                  own,
            )
        | inr foreign ↦ rw foreign tt
      ]
  reuse-IsClaimed rub s (err not_found) same at = tt
  reuse-IsClaimed rub s (err e) same at = tt

  claim-IsClaimed :
      (rub : RemoteUserBinding) (s : Store) (r : Result Store)
      → rub.meta.namespace ≡ remote_user.meta.namespace
      → Returns (IsFound remote_user rub) r
      → Returns IsClaimed (claim fault remote_user rub s r)
  unfolding claim
  claim-IsClaimed rub s (ok s') same made = made
  claim-IsClaimed rub s (err already_exists) same made =
      reuse-IsClaimed rub s (get_rub fault remote_user rub s) same (get_rub-find rub s)
  claim-IsClaimed rub s (err e) same made = tt

  abbrev Claim : ℕ → Store → Result (Option (RemoteUserBinding × Store))
  Claim i s =
      claim fault remote_user (candidate fault remote_user i) s
        (create_rub fault remote_user (candidate fault remote_user i) s)

  next-IsFound :
      (left i : ℕ) (s : Store) (claimed : Option (RemoteUserBinding × Store))
      → IsClaimed claimed
      → Returns (λ p. IsFound remote_user p.0 p.1) (try_names fault remote_user left (suc i) s)
      → Returns
          (λ p. IsFound remote_user p.0 p.1)
          (elim claimed [ some r ↦ ok r | none ↦ try_names fault remote_user left (suc i) s ])
  next-IsFound left i s none h later = later
  next-IsFound left i s (some (rub, s')) h later = h

  pub try_names-IsFound :
      (left i : ℕ) (s : Store)
      → Returns (λ p. IsFound remote_user p.0 p.1) (try_names fault remote_user left i s)
  unfolding try_names
  try_names-IsFound zero i s = tt
  try_names-IsFound (suc left) i s =
      let rub = candidate fault remote_user i in
      Returns-bind _ (Claim i s) _ λ claimed at.
        next-IsFound left i s claimed
          (Returns-ok IsClaimed _
            (claim-IsClaimed rub s (create_rub fault remote_user rub s) refl
              (create_rub-IsFound rub s (candidate-is_listed i)))
            at)
          (try_names-IsFound left (suc i) s)

  pub list_rubs-select :
      (s : Store)
      → Returns
          (λ rubs.
            rubs
            ≡ select (is_listed remote_user.meta.namespace (sanitized_of remote_user)) s.bindings)
          (list_rubs fault remote_user s)
  unfolding list_rubs
  list_rubs-select s = attempt-Returns fault (λ rubs. rubs ≡ _) list_bindings s _ refl

  first_or_new-IsFound :
      (rubs : List RemoteUserBinding) (s : Store)
      → HasDistinctNames s
      → ((rub : RemoteUserBinding)
          → In rub rubs
          → In rub s.bindings
            × (is_listed remote_user.meta.namespace (sanitized_of remote_user) rub ≡ true))
      → Returns (λ p. IsFound remote_user p.0 p.1) (first_or_new fault remote_user rubs s)
  first_or_new-IsFound [] s distinct listed = try_names-IsFound max_attempts 0 s
  first_or_new-IsFound (rub ∷ rubs) s distinct listed =
      Returns-bind _ (get_rub fault remote_user rub s) _ λ fresh read.
        let at = Returns-ok (λ r. find rub s.bindings ≡ some r) _ (get_rub-find rub s) read in
        let (stored, same) = find-In rub fresh s.bindings at in
        let (m, h) = listed rub (here refl) in
        (
          find_self rub fresh s.bindings at,
          subst (λ r. is_listed remote_user.meta.namespace (sanitized_of remote_user) r ≡ true)
              (distinct rub fresh m stored same) h,
        )

  -- The binding that is found or created for a user is stored, managed, labelled with the user, and
  -- in the user's namespace, if no two bindings have the same name and namespace. Any call may fail.
  pub find_or_create_managed_rub-IsFound :
      (s : Store)
      → HasDistinctNames s
      → Returns (λ p. IsFound remote_user p.0 p.1) (find_or_create_managed_rub fault remote_user s)
  unfolding find_or_create_managed_rub
  find_or_create_managed_rub-IsFound s distinct =
      Returns-bind _ (list_rubs fault remote_user s) _ λ rubs at.
        subst
          (λ rs. Returns (λ p. IsFound remote_user p.0 p.1) (first_or_new fault remote_user rs s))
          (sym (Returns-ok _ (list_rubs fault remote_user s) (list_rubs-select s) at))
          (first_or_new-IsFound
            (select (is_listed remote_user.meta.namespace (sanitized_of remote_user)) s.bindings) s
            distinct
            (λ rub.
              select-In (is_listed remote_user.meta.namespace (sanitized_of remote_user))
                s.bindings))
