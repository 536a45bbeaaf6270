-- ===== src/Targets/Sweep.antt =====
-- The loops that delete the stale ones of some targets (internal/policy/branchtarget_policy.go,
-- userspecific_policy.go).
use mathlib.Core.Path.{subst}
use syngit.Common.{
  Bool, true, List, [], ◌∷◌, if◌then◌else◌, ◌≡◌, refl, In, here, there, In-cons, inl, inr,
  Bool-cases,
}
use syngit.Common.Errors.{Result, ok, ◌>>=◌, Returns, Returns-bind, Returns-map, Returns-ok}
use syngit.Api.{RemoteTarget}
use syngit.Targets.{Store, has_key}
use syngit.Targets.Losses.{Loses, Loses-trans, Loses-map}
use syngit.Targets.Shrinks.{IsGone, IsGone-Shrinks, Shrinks, Shrinks-refl, Shrinks-trans}

module _ {A : Type 0} (target : A → RemoteTarget) (remove : RemoteTarget → Store → Result Store)
    (stale : A → Bool) where
  pub sweep_one : A → Store → Result Store
  sweep_one a s = if stale a then remove (target a) s else ok s

  unfoldable pub sweep : List A → Store → Result Store
  unfolding sweep_one
  sweep [] s = ok s
  sweep (a ∷ rest) s = sweep_one a s >>= λ s'. sweep rest s'

  -- An item that is stale, with a target of the name of the lost one.
  abbrev pub WasStale : List A → RemoteTarget → Type 0
  WasStale items lost = (a : A) × In a items × (stale a ≡ true) × (has_key (target a) lost ≡ true)

  WasStale-there :
      (a : A) (items : List A) (lost : RemoteTarget)
      → WasStale items lost
      → WasStale (a ∷ items) lost
  WasStale-there a items lost (b, m, h, same) = (b, there m, h, same)

  module _
      (removed : (rt : RemoteTarget) (s : Store)
        → Returns (Loses (λ lost. has_key rt lost ≡ true) s) (remove rt s)) where
    sweep_one-Loses :
        (a : A) (rest : List A) (s : Store)
        → Returns (Loses (WasStale (a ∷ rest)) s) (sweep_one a s)
    unfolding sweep_one
    sweep_one-Loses a rest s = elim (Bool-cases (stale a)) [
      | inl old ↦ rw old (
          Returns-map _ _ (remove (target a) s)
            (λ t. Loses-map _ (WasStale (a ∷ rest)) s t (λ lost same. (a, here refl, old, same)))
            (removed (target a) s))
      | inr fresh ↦ rw fresh λ x m. inl m
    ]

    -- What a sweep loses has the name of a stale target.
    pub sweep-Loses :
        (items : List A) (s : Store) → Returns (Loses (WasStale items) s) (sweep items s)
    unfolding sweep
    sweep-Loses [] s = λ x m. inl m
    sweep-Loses (a ∷ rest) s =
        let P = WasStale (a ∷ rest) in
        Returns-bind _ (sweep_one a s) _ λ t at.
          let kept = Returns-ok (Loses P s) _ (sweep_one-Loses a rest s) at in
          Returns-map _ _ (sweep rest t)
            (λ u more. Loses-trans P s t u kept (Loses-map _ P t u (WasStale-there a rest) more))
            (sweep-Loses rest t)

  module _
      (removed : (rt : RemoteTarget) (s : Store)
        → Returns (λ t. IsGone rt t × Shrinks s t) (remove rt s)) where
    sweep_one-IsGone :
        (a : A) (s : Store)
        → Returns (λ t. (stale a ≡ true → IsGone (target a) t) × Shrinks s t) (sweep_one a s)
    unfolding sweep_one
    sweep_one-IsGone a s = elim (Bool-cases (stale a)) [
      | inl old ↦ rw old (
          Returns-map _ _ (remove (target a) s) (λ t (gone, less). (λ h. gone, less))
            (removed (target a) s))
      | inr fresh ↦ rw fresh (λ h. absurd cc, Shrinks-refl s)
    ]

    -- Of the stale targets a sweep leaves nothing.
    pub sweep-IsGone :
        (items : List A) (s : Store)
        → Returns
            (λ t. ((a : A) → In a items → stale a ≡ true → IsGone (target a) t) × Shrinks s t)
            (sweep items s)
    unfolding sweep
    sweep-IsGone [] s = (λ a m h. elim m [ ], Shrinks-refl s)
    sweep-IsGone (a ∷ rest) s = Returns-bind _ (sweep_one a s) _ λ t at.
        let (first, less) =
          Returns-ok (λ t'. (stale a ≡ true → IsGone (target a) t') × Shrinks s t') _
            (sweep_one-IsGone a s) at in
        Returns-map _ _ (sweep rest t)
          (λ u (later, lesser). (
            λ b m h. elim (In-cons m) [
              | inl e ↦
                  IsGone-Shrinks (target b) t u lesser
                    (subst (λ c. stale c ≡ true → IsGone (target c) t) e first h)
              | inr n ↦ later b n h
            ],
            Shrinks-trans s t u less lesser,
          ))
          (sweep-IsGone rest t)
