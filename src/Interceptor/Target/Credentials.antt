-- ===== src/Interceptor/Target/Credentials.antt =====
-- Whose objects the reads of internal/interceptor/target.go and k8s_references.go return.
use syngit.Common.{
  ℕ, suc, ◌+◌, ltb, nat_beq, String, Bool, true, false, Option, none, some, List, [], ◌∷◌, ◌==◌,
  string_eq, if◌then◌else◌, ◌≡◌, refl, sym, ap, Bool-cases, inl, inr, In, here, there, All, All-map,
}
use syngit.Common.Errors.{
  wrong_label_parsing, Result, ok, err, Returns, Returns-bind, Returns-ok, Returns-if, Returns-map,
  FieldPath, child,
}
use syngit.Api.{
  NamespacedName, ObjectReference, StringMap, LabelSelector, RemoteUser, RemoteUserBinding,
}
use syngit.Refs.{resolve_namespace}
use syngit.Refs.Named.{key_of, resolve_namespace_lem}
use syngit.Interceptor.Context.{SyncerContext}
use syngit.Interceptor.Target.{
  Secret, Cluster, GitUserInfo, is_not_found, spec_index, keep_found, resolve_refs, read_secret,
  git_user_info, selector_of, user_bindings, one_binding, fresh_binding, git_user_info_by_binding,
  binding_by_username,
}

-- The object is read for one of the references.
abbrev pub IsReferenced {ℓ} :
    {T : Type ℓ} → (NamespacedName → Result T) → String → List ObjectReference → T → Type ℓ
IsReferenced get owner refs object =
    (ref : ObjectReference) × In ref refs × (get (key_of owner ref.namespace ref.name) ≡ ok object)

module _ {ℓ} {T : Type ℓ} (get : NamespacedName → Result T) (owner : String) where
  IsReferenced-there :
      (ref : ObjectReference) (refs : List ObjectReference) (objects : List T)
      → All (IsReferenced get owner refs) objects
      → All (IsReferenced get owner (ref ∷ refs)) objects
  IsReferenced-there ref refs objects =
      All-map (IsReferenced get owner refs) (IsReferenced get owner (ref ∷ refs)) objects
        λ object (r, at, got). (r, there at, got)

  keep_found-IsReferenced :
      (ref : ObjectReference) (refs : List ObjectReference) (found : Result T)
      (rest : Result (List T))
      → get (key_of owner ref.namespace ref.name) ≡ found
      → Returns (All (IsReferenced get owner refs)) rest
      → Returns (All (IsReferenced get owner (ref ∷ refs))) (keep_found found rest)
  unfolding keep_found
  keep_found-IsReferenced ref refs (ok object) rest got h = Returns-bind _ rest _ λ objects e.
      ((ref, here refl, got), IsReferenced-there ref refs objects (Returns-ok _ rest h e))
  keep_found-IsReferenced ref refs (err e) (ok objects) got h =
      Returns-if (All (IsReferenced get owner (ref ∷ refs))) (is_not_found e) (ok objects) (err e)
        (IsReferenced-there ref refs objects h) tt
  keep_found-IsReferenced ref refs (err e) (err e') got h =
      Returns-if (All (IsReferenced get owner (ref ∷ refs))) (is_not_found e) (err e') (err e) tt tt

  pub resolve_refs-IsReferenced :
      (field : String) (i : ℕ) (refs : List ObjectReference)
      → Returns (All (IsReferenced get owner refs)) (resolve_refs get owner field i refs)
  unfolding resolve_refs
  resolve_refs-IsReferenced field i [] = tt
  resolve_refs-IsReferenced field i (ref ∷ refs) =
      let rest = resolve_refs get owner field (suc i) refs in
      let later : Returns (All (IsReferenced get owner refs)) rest =
        resolve_refs-IsReferenced field (suc i) refs in
      Returns-if (All (IsReferenced get owner (ref ∷ refs))) (ref.name == "") rest _
        (Returns-map _ (All (IsReferenced get owner (ref ∷ refs))) rest
          (λ objects. IsReferenced-there ref refs objects) later)
        (Returns-bind _ (resolve_namespace ref.namespace owner (spec_index field i))
          (λ namespace. keep_found (get (record { namespace = namespace; name = ref.name })) rest)
          λ namespace e.
            let at : namespace ≡ (if ref.namespace == "" then owner else ref.namespace) =
              Returns-ok _ (resolve_namespace ref.namespace owner (spec_index field i))
                (resolve_namespace_lem ref.namespace owner (spec_index field i)) e in
            keep_found-IsReferenced ref refs
              (get (record { namespace = namespace; name = ref.name })) rest
              (ap (λ ns. get (record { namespace = ns; name = ref.name })) (sym at)) later)

module _ (cluster : Cluster) where
  open cluster use {as_selector, get_secret, get_remote_user_binding, list_remote_user_bindings}

  -- The credentials are those of the Secret that the user names, which has a password.
  abbrev pub HasCredentials : RemoteUser → GitUserInfo → Type 0
  HasCredentials ru info =
      (secret : Secret) × (get_secret
          (key_of ru.meta.namespace ru.spec.secret_ref.namespace ru.spec.secret_ref.name)
        ≡ ok secret)
      × ((secret.password == "") ≡ false)
      × (info ≡ record { user = secret.username; email = ru.spec.email; token = secret.password })

  read_secret-HasCredentials :
      (ru : RemoteUser) (name : String) (read : Result Secret)
      → get_secret (key_of ru.meta.namespace ru.spec.secret_ref.namespace ru.spec.secret_ref.name)
        ≡ read
      → Returns (HasCredentials ru) (read_secret cluster ru name read)
  unfolding read_secret
  read_secret-HasCredentials ru name (err e) at =
      Returns-if (HasCredentials ru) (is_not_found e) (err _) (err _) tt tt
  read_secret-HasCredentials ru name (ok secret) at = elim (Bool-cases (secret.password == "")) [
    | inl empty ↦ rw empty tt
    | inr full ↦ rw full (secret, at, full, refl)
  ]

  pub git_user_info-HasCredentials :
      (ru : RemoteUser) → Returns (HasCredentials ru) (git_user_info cluster ru)
  unfolding git_user_info
  git_user_info-HasCredentials ru =
      let ref = ru.spec.secret_ref in
      let path : FieldPath = child "spec" ∷ child "secretRef" ∷ [] in
      Returns-bind _ (resolve_namespace ref.namespace ru.meta.namespace path)
        (λ namespace.
          read_secret cluster ru ref.name
            (get_secret (record { namespace = namespace; name = ref.name })))
        λ namespace e.
          let at =
            Returns-ok _ (resolve_namespace ref.namespace ru.meta.namespace path)
              (resolve_namespace_lem ref.namespace ru.meta.namespace path) e in
          read_secret-HasCredentials ru ref.name _
            (ap (λ ns. get_secret (record { namespace = ns; name = ref.name })) (sym at))

  -- The bindings of a namespace that pass a selector, if there is one.
  abbrev pub IsListing : Option LabelSelector → String → List RemoteUserBinding → Type 0
  IsListing none namespace items = list_remote_user_bindings namespace none ≡ ok items
  IsListing (some selector) namespace items =
      (matches : StringMap → Bool) × (as_selector selector ≡ ok matches)
      × (list_remote_user_bindings namespace (some matches) ≡ ok items)

  abbrev Finds : Option LabelSelector → String → Option (StringMap → Bool) → Type 0
  Finds selector namespace chosen =
      (items : List RemoteUserBinding)
      → list_remote_user_bindings namespace chosen ≡ ok items
      → IsListing selector namespace items

  parsed-Finds :
      (selector : LabelSelector) (namespace : String) (parsed : Result (StringMap → Bool))
      → as_selector selector ≡ parsed
      → Returns
          (Finds (some selector) namespace)
          (elim parsed [ ok matches ↦ ok (some matches) | err e ↦ err wrong_label_parsing ])
  parsed-Finds selector namespace (ok matches) e = λ items listed. (matches, e, listed)
  parsed-Finds selector namespace (err x) e = tt

  selector_of-Finds :
      (selector : Option LabelSelector) (namespace : String)
      → Returns (Finds selector namespace) (selector_of cluster selector)
  unfolding selector_of
  selector_of-Finds none namespace = λ items listed. listed
  selector_of-Finds (some selector) namespace =
      parsed-Finds selector namespace (as_selector selector) refl

  -- The binding is read for one that the syncer lists and whose subject is the user.
  abbrev pub IsBindingOf : SyncerContext → String → RemoteUserBinding → Type 0
  IsBindingOf sc username rub =
      (items : List RemoteUserBinding) × (item : RemoteUserBinding) × In item items
      × (item.spec.subject.name ≡ username)
      × (get_remote_user_binding (record { namespace = item.meta.namespace; name = item.meta.name })
          ≡ ok rub)
      × IsListing sc.spec.remote_user_binding_selector sc.rub_namespace items

  -- What the loop over the bindings has found.
  abbrev IsSubjectOf : String → List RemoteUserBinding → Option RemoteUserBinding → Type 0
  IsSubjectOf username items none = Unit
  IsSubjectOf username items (some item) =
      In item items × ((item.spec.subject.name == username) ≡ true)

  user_bindings-IsSubjectOf :
      (username fqdn : String) (all items : List RemoteUserBinding) (rub : Option RemoteUserBinding)
      (n : ℕ)
      → ((item : RemoteUserBinding) → In item items → In item all)
      → IsSubjectOf username all rub
      → Returns
          (λ found. IsSubjectOf username all found.0)
          (user_bindings cluster username fqdn items rub n)
  unfolding user_bindings
  user_bindings-IsSubjectOf username fqdn all [] rub n inside h = h
  user_bindings-IsSubjectOf username fqdn all (item ∷ items) rub n inside h =
      elim (Bool-cases (item.spec.subject.name == username)) [
        | inl same ↦
            rw (same, user_bindings)
              (Returns-bind _ (git_user_info_by_binding cluster item fqdn)
                (λ _. user_bindings cluster username fqdn items (some item) (n + 1))
                λ _ _.
                  user_bindings-IsSubjectOf username fqdn all items (some item) (n + 1)
                    (λ x m. inside x (there m)) (inside item (here refl), same))
        | inr other ↦
            rw (other, user_bindings)
              (user_bindings-IsSubjectOf username fqdn all items rub n (λ x m. inside x (there m))
                h)
      ]

  abbrev IsFresh : Option RemoteUserBinding → Option RemoteUserBinding → Type 0
  IsFresh item none = Unit
  IsFresh none (some rub) = ⊥
  IsFresh (some item) (some rub) =
      get_remote_user_binding (record { namespace = item.meta.namespace; name = item.meta.name })
      ≡ ok rub

  fresh_binding-IsFresh :
      (item : Option RemoteUserBinding) → Returns (IsFresh item) (fresh_binding cluster item)
  unfolding fresh_binding
  fresh_binding-IsFresh none = tt
  fresh_binding-IsFresh (some item) =
      Returns-bind _
        (get_remote_user_binding
          (record { namespace = item.meta.namespace; name = item.meta.name }))
        _ λ fresh e. e

  one_binding-IsFresh :
      (item : Option RemoteUserBinding) (n : ℕ)
      → Returns (IsFresh item) (one_binding cluster (item, n))
  unfolding one_binding
  one_binding-IsFresh item n = Returns-if (IsFresh item) (ltb 1 n) (err _) _ tt (
      Returns-if (IsFresh item) (nat_beq n 0) (ok none) (fresh_binding cluster item) tt
        (fresh_binding-IsFresh item))

  IsFresh-IsBindingOf :
      (sc : SyncerContext) (username : String) (items : List RemoteUserBinding)
      (item found : Option RemoteUserBinding) {rub : RemoteUserBinding}
      → IsListing sc.spec.remote_user_binding_selector sc.rub_namespace items
      → IsSubjectOf username items item
      → IsFresh item found
      → found ≡ some rub
      → IsBindingOf sc username rub
  IsFresh-IsBindingOf sc username items item none listed at fresh e = absurd cc
  IsFresh-IsBindingOf sc username items none (some r) listed at fresh e = absurd fresh
  IsFresh-IsBindingOf sc username items (some item) (some r) listed at fresh e =
      (items, item, at.0, (string_eq.beq_iff item.spec.subject.name username).0 at.1, cc, listed)

  pub binding_by_username-IsBindingOf :
      (sc : SyncerContext) (username fqdn : String) (rub : RemoteUserBinding)
      → binding_by_username cluster sc username fqdn ≡ ok (some rub)
      → IsBindingOf sc username rub
  unfolding binding_by_username
  binding_by_username-IsBindingOf sc username fqdn rub h =
      let Found : Option RemoteUserBinding → Type 0 =
        λ found. (r : RemoteUserBinding) → found ≡ some r → IsBindingOf sc username r in
      let steps : Returns Found (binding_by_username cluster sc username fqdn) =
        Returns-bind Found (selector_of cluster sc.spec.remote_user_binding_selector) _
          λ selector chosen.
            Returns-bind Found (list_remote_user_bindings sc.rub_namespace selector) _
              λ items listed.
                Returns-bind Found (user_bindings cluster username fqdn items none 0)
                  (one_binding cluster)
                  λ (item, n) looped.
                    Returns-map (IsFresh item) Found (one_binding cluster (item, n))
                      (λ found fresh r e.
                        IsFresh-IsBindingOf sc username items item found
                          (Returns-ok (Finds sc.spec.remote_user_binding_selector sc.rub_namespace)
                            _
                            (selector_of-Finds sc.spec.remote_user_binding_selector
                              sc.rub_namespace)
                            chosen items listed)
                          (Returns-ok (λ f. IsSubjectOf username items f.0)
                            (user_bindings cluster username fqdn items none 0)
                            (user_bindings-IsSubjectOf username fqdn items items none 0 (λ x m. m)
                              tt)
                            looped)
                          fresh e)
                      (one_binding-IsFresh item n) in
      Returns-ok Found (binding_by_username cluster sc username fqdn) steps h rub refl
