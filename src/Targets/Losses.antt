-- ===== src/Targets/Losses.antt =====
-- What a run of the policies may lose of the stored targets (internal/policy), call by call.
use syngit.Common.{
  true, not, Option, [], ◌∷◌, ◌≡◌, refl, ap, ◌⊎◌, inl, inr, In, In-left, In-select, any, Bool-cases,
  Option-cases,
}
use syngit.Common.Errors.{
  Error, Result, ok, err, Returns, Returns-bind, Returns-map, not_found, already_exists,
}
use syngit.Api.{RemoteTarget}
use syngit.Managed.{Bindings, remove_remote_target_ref_from_rubs}
use syngit.Targets.{
  Store, Call, create_target, delete_target, remove_refs, has_key, attempt, create, delete, clear,
  or_exists, or_not_found, with_bindings,
}

-- A target that was stored is still stored, or `P` holds of it.
abbrev pub Loses : (RemoteTarget → Type 0) → Store → Store → Type 0
Loses P s s' = (rt : RemoteTarget) → In rt s.targets → In rt s'.targets ⊎ P rt

-- The syncers stay as they are.
abbrev pub SameSyncers : Store → Store → Type 0
SameSyncers s s' =
    (s'.remote_syncers ≡ s.remote_syncers)
    × (s'.cluster_wide_remote_syncers ≡ s.cluster_wide_remote_syncers)

pub Loses-trans :
    (P : RemoteTarget → Type 0) (s t u : Store) → Loses P s t → Loses P t u → Loses P s u
Loses-trans P s t u h k rt m = elim (h rt m) [ inl n ↦ k rt n | inr p ↦ inr p ]

pub Loses-map :
    (P Q : RemoteTarget → Type 0) (s t : Store)
    → ((rt : RemoteTarget) → P rt → Q rt)
    → Loses P s t
    → Loses Q s t
Loses-map P Q s t f h rt m = elim (h rt m) [ inl n ↦ inl n | inr p ↦ inr (f rt p) ]

module _ (fault : Call → Store → Option Error) where
  pub attempt-Returns {ℓ κ} :
      {A : Type ℓ} (P : A → Type κ) (call : Call) (s : Store) (r : Result A)
      → Returns P r
      → Returns P (attempt fault call s r)
  unfolding attempt
  attempt-Returns P call s r h = elim (Option-cases (fault call s)) [
    | inl fine ↦ rw (attempt, fine) h
    | inr (e, failed) ↦ rw (attempt, failed) tt
  ]

  pub or_exists-Returns {κ} :
      (P : Store → Type κ) (s : Store) (r : Result Store)
      → P s
      → Returns P r
      → Returns P (or_exists fault s r)
  unfolding or_exists
  or_exists-Returns P s (ok s') h k = k
  or_exists-Returns P s (err already_exists) h k = h
  or_exists-Returns P s (err e) h k = tt

  pub or_not_found-Returns {κ} :
      (P : Store → Type κ) (s : Store) (r : Result Store)
      → P s
      → Returns P r
      → Returns P (or_not_found fault s r)
  unfolding or_not_found
  or_not_found-Returns P s (ok s') h k = k
  or_not_found-Returns P s (err not_found) h k = h
  or_not_found-Returns P s (err e) h k = tt

  pub create-Loses :
      (P : RemoteTarget → Type 0) (rt : RemoteTarget) (s : Store)
      → Returns (Loses P s) (create fault rt s)
  unfolding create
  create-Loses P rt s =
      attempt-Returns (Loses P s) (create_target rt) s _
        (elim (Bool-cases (any (has_key rt) s.targets)) [
          | inl taken ↦ rw taken tt
          | inr free ↦ rw free λ old m. inl (In-left s.targets (rt ∷ []) m)
        ])

  pub create-SameSyncers :
      (rt : RemoteTarget) (s : Store) → Returns (SameSyncers s) (create fault rt s)
  unfolding create
  create-SameSyncers rt s =
      attempt-Returns (SameSyncers s) (create_target rt) s _
        (elim (Bool-cases (any (has_key rt) s.targets)) [
          | inl taken ↦ rw taken tt
          | inr free ↦ rw free (refl, refl)
        ])

  pub delete-Loses :
      (rt : RemoteTarget) (s : Store)
      → Returns (Loses (λ lost. has_key rt lost ≡ true) s) (delete fault rt s)
  unfolding delete
  delete-Loses rt s =
      attempt-Returns (Loses (λ lost. has_key rt lost ≡ true) s) (delete_target rt) s _
        (elim (Bool-cases (any (has_key rt) s.targets)) [
          | inr gone ↦ rw gone tt
          | inl stored ↦ rw stored λ old m. elim (Bool-cases (has_key rt old)) [
            | inl same ↦ inr same
            | inr other ↦ inl (In-select (λ o. not (has_key rt o)) s.targets m (rw other refl))
          ]
        ])

  pub delete-SameSyncers :
      (rt : RemoteTarget) (s : Store) → Returns (SameSyncers s) (delete fault rt s)
  unfolding delete
  delete-SameSyncers rt s =
      attempt-Returns (SameSyncers s) (delete_target rt) s _
        (elim (Bool-cases (any (has_key rt) s.targets)) [
          | inr gone ↦ rw gone tt
          | inl stored ↦ rw stored (refl, refl)
        ])

  -- The removal of references touches only the bindings.
  pub clear-bindings :
      (rt : RemoteTarget) (s : Store)
      → Returns
          (λ s'.
            (bindings : Bindings) × (remove_remote_target_ref_from_rubs rt.meta.namespace
                rt.meta.name s.bindings
              ≡ ok bindings)
            × (s' ≡ with_bindings s bindings))
          (clear fault rt s)
  unfolding clear
  clear-bindings rt s = attempt-Returns _ (remove_refs rt) s _ (
      Returns-bind _ (remove_remote_target_ref_from_rubs rt.meta.namespace rt.meta.name s.bindings)
        _ λ bindings at. (bindings, at, refl))

  pub clear-targets :
      (rt : RemoteTarget) (s : Store) → Returns (λ s'. s'.targets ≡ s.targets) (clear fault rt s)
  clear-targets rt s =
      Returns-map _ _ (clear fault rt s) (λ s' (b, e, q). ap (λ (t : Store). t.targets) q)
        (clear-bindings rt s)
