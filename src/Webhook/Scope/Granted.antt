-- ===== src/Webhook/Scope/Granted.antt =====
-- The right to an operation on a resource (internal/webhook/v1beta5/syncer_permissions.go).
use syngit.Common.{
  String, Bool, true, false, List, [], ◌∷◌, string_eq, ◌≡◌, refl, All, In, here, there, inl, inr,
  Bool-cases,
}
use syngit.Common.Errors.{
  Error, Result, ok, err, Result-cases, Returns, Returns-bind, Returns-ok, Returns-map,
}
use syngit.Api.{UserInfo}
use syngit.Rbac.{SubjectAccessReviewSpec, check_access}
use syngit.Webhook.{is_invalid_combination_error}
use syngit.Webhook.Scope.{
  Held, held, invalid_combination, attributes, held_verb, one_namespace, is_operation_allowed,
}

module _ (review : SubjectAccessReviewSpec → Result Bool) (error_text : Error → String)
    (user : UserInfo) where
  -- The user holds the verb on the resource in the namespace.
  abbrev pub Holds : String → String → String → String → String → Type 0
  Holds namespace group version resource verb =
      check_access review user (attributes namespace verb group version resource) ≡ ok true

  -- The user holds one of the verbs in every namespace, or the API server knows no such resource.
  pub data HasRight (namespaces : List String) (group version resource : String)
      (verbs : List String) : Type 0 where
    everywhere :
        All
          (λ ns. (verb : String) × In verb verbs × Holds ns group version resource verb)
          namespaces
        → HasRight namespaces group version resource verbs
    no_resource :
        {namespace verb : String} {e : Error}
        → In namespace namespaces
        → In verb verbs
        → check_access review user (attributes namespace verb group version resource) ≡ err e
        → is_invalid_combination_error (error_text e) ≡ true
        → HasRight namespaces group version resource verbs

  -- What one namespace contributes.
  IsHeld : String → String → String → String → List String → Held → Type 0
  IsHeld ns group version resource verbs (held true) =
      (verb : String) × In verb verbs × Holds ns group version resource verb
  IsHeld ns group version resource verbs (held false) = Unit
  IsHeld ns group version resource verbs invalid_combination =
      (verb : String) × (e : Error) × In verb verbs
      × (check_access review user (attributes ns verb group version resource) ≡ err e)
      × (is_invalid_combination_error (error_text e) ≡ true)

  IsHeld-there :
      (ns group version resource v : String) (verbs : List String) (h : Held)
      → IsHeld ns group version resource verbs h
      → IsHeld ns group version resource (v ∷ verbs) h
  unfolding IsHeld
  IsHeld-there ns group version resource v verbs (held true) (verb, m, e) = (verb, there m, e)
  IsHeld-there ns group version resource v verbs (held false) h = tt
  IsHeld-there ns group version resource v verbs invalid_combination (verb, e, m, at, bad) =
      (verb, e, there m, at, bad)

  held_verb-IsHeld :
      (ns group version resource : String) (verbs : List String)
      → Returns
          (IsHeld ns group version resource verbs)
          (held_verb review error_text user ns group version resource verbs)
  unfolding held_verb IsHeld
  held_verb-IsHeld ns group version resource [] = tt
  held_verb-IsHeld ns group version resource (verb ∷ verbs) =
      elim (Result-cases (check_access review user (attributes ns verb group version resource))) [
        | inl (true, e) ↦ rw (e, held_verb) (verb, here refl, e)
        | inl (false, e) ↦
            rw (e, held_verb)
              (Returns-map (IsHeld ns group version resource verbs)
                (IsHeld ns group version resource (verb ∷ verbs))
                (held_verb review error_text user ns group version resource verbs)
                (IsHeld-there ns group version resource verb verbs)
                (held_verb-IsHeld ns group version resource verbs))
        | inr (e, bad) ↦ elim (Bool-cases (is_invalid_combination_error (error_text e))) [
          | inl granted ↦ rw (bad, held_verb, granted) (verb, e, here refl, bad, granted)
          | inr unknown ↦ rw (bad, held_verb, unknown) tt
        ]
      ]

  HasRight-cons :
      (ns group version resource : String) (namespaces verbs : List String)
      → ((verb : String) × In verb verbs × Holds ns group version resource verb)
      → HasRight namespaces group version resource verbs
      → HasRight (ns ∷ namespaces) group version resource verbs
  HasRight-cons ns group version resource namespaces verbs h (everywhere all) = everywhere (h, all)
  HasRight-cons ns group version resource namespaces verbs h (no_resource m v e bad) =
      no_resource (there m) v e bad

  one_namespace-HasRight :
      (ns group version resource : String) (namespaces verbs : List String) (h : Held)
      → IsHeld ns group version resource verbs h
      → (rest : Result Bool)
      → Returns (λ granted. granted ≡ true → HasRight namespaces group version resource verbs) rest
      → Returns
          (λ granted. granted ≡ true → HasRight (ns ∷ namespaces) group version resource verbs)
          (one_namespace h rest)
  unfolding one_namespace IsHeld
  one_namespace-HasRight ns group version resource namespaces verbs (held true) h rest r =
      Returns-map _ _ rest
        (λ granted f e. HasRight-cons ns group version resource namespaces verbs h (f e)) r
  one_namespace-HasRight ns group version resource namespaces verbs (held false) h rest r = λ e. cc
  one_namespace-HasRight ns group version resource namespaces verbs invalid_combination h rest r =
      let (verb, e, m, at, bad) = h in λ _. no_resource (here refl) m at bad

  -- An operation that is allowed is one that the user has the right to.
  pub is_operation_allowed-HasRight :
      (namespaces : List String) (group version resource : String) (verbs : List String)
      → Returns
          (λ granted. granted ≡ true → HasRight namespaces group version resource verbs)
          (is_operation_allowed review error_text user namespaces group version resource verbs)
  unfolding is_operation_allowed IsHeld
  is_operation_allowed-HasRight [] group version resource verbs = λ _. everywhere tt
  is_operation_allowed-HasRight (ns ∷ namespaces) group version resource verbs =
      let P : Bool → Type 0 =
        λ granted. granted ≡ true → HasRight (ns ∷ namespaces) group version resource verbs in
      let first = held_verb review error_text user ns group version resource verbs in
      let rest =
        is_operation_allowed review error_text user namespaces group version resource verbs in
      Returns-bind P first _ λ h at.
        one_namespace-HasRight ns group version resource namespaces verbs h
          (Returns-ok (IsHeld ns group version resource verbs) first
            (held_verb-IsHeld ns group version resource verbs) at)
          rest (is_operation_allowed-HasRight namespaces group version resource verbs)
