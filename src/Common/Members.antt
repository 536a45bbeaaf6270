-- ===== src/Common/Members.antt =====
-- Membership in a list, by the Boolean tests that the program uses.
use mathlib.Core.Path.{◌≡◌, refl, sym, ap, ◌∙◌}
use mathlib.Core.Bool.{Bool, true, false, ◌||◌}
use mathlib.Core.List.{List, [], ◌∷◌, ◌++◌}
use mathlib.Core.Logic.{◌↔◌, ◌⊎◌, inl, inr}
use native.Mathlib.Omega.{arith}
use package.syngit.Common.Tests.{Bool-cases}
use package.syngit.Common.Lists.{In, here, there, select, any}
use package.syngit.Common.Classes.{Eq, contains}

or-true : (a b : Bool) → (a || b) ≡ true → (a ≡ true) ⊎ (b ≡ true)
or-true true b h = inl refl
or-true false b h = inr h

module _ {ℓ} {A : Type ℓ} where
  pub any-In : (p : A → Bool) (xs : List A) → any p xs ≡ true → (a : A) × In a xs × (p a ≡ true)
  any-In p [] h = cc
  any-In p (x ∷ xs) h = elim (or-true (p x) (any p xs) h) [
    | inl now ↦ (x, here refl, now)
    | inr later ↦ let (a, m, e) = any-In p xs later in (a, there m, e)
  ]

  pub In-any : (p : A → Bool) {a : A} (xs : List A) → In a xs → p a ≡ true → any p xs ≡ true
  In-any p [] m h = elim m [ ]
  In-any p (x ∷ xs) (here e) h = let h' : p x ≡ true = ap p e ∙ h in ground (arith, h')
  In-any p (x ∷ xs) (there m) h = ground (arith, In-any p xs m h)

  pub In-select : (p : A → Bool) {a : A} (xs : List A) → In a xs → p a ≡ true → In a (select p xs)
  In-select p [] m h = elim m [ ]
  In-select p (x ∷ xs) (here e) h = let h' : p x ≡ true = ap p e ∙ h in rw h' (here e)
  In-select p (x ∷ xs) (there m) h = elim (Bool-cases (p x)) [
    | inl kept ↦ rw kept (there (In-select p xs m h))
    | inr dropped ↦ rw dropped (In-select p xs m h)
  ]

  kept_or :
      (p : A → Bool) {a : A} (xs : List A) (x : A)
      → p x ≡ true
      → In a (x ∷ select p xs)
      → (In a (select p xs) → In a xs × (p a ≡ true))
      → In a (x ∷ xs) × (p a ≡ true)
  kept_or p xs x kept (here e) later = (here e, ap p (sym e) ∙ kept)
  kept_or p xs x kept (there m) later = let (n, h) = later m in (there n, h)

  pub select-In : (p : A → Bool) {a : A} (xs : List A) → In a (select p xs) → In a xs × (p a ≡ true)
  select-In p [] = λ m. elim m [ ]
  select-In p (x ∷ xs) = elim (Bool-cases (p x)) [
    | inl kept ↦ rw kept λ m. kept_or p xs x kept m (λ n. select-In p xs n)
    | inr dropped ↦ rw dropped λ m. let (n, e) = select-In p xs m in (there n, e)
  ]

  pub In-left : {a : A} (xs ys : List A) → In a xs → In a (xs ++ ys)
  In-left [] ys m = elim m [ ]
  In-left (x ∷ xs) ys (here e) = here e
  In-left (x ∷ xs) ys (there m) = there (In-left xs ys m)

  pub In-right : {a : A} (xs ys : List A) → In a ys → In a (xs ++ ys)
  In-right [] ys m = m
  In-right (x ∷ xs) ys m = there (In-right xs ys m)

  pub In-either : {a : A} (xs ys : List A) → In a (xs ++ ys) → In a xs ⊎ In a ys
  In-either [] ys m = inr m
  In-either (x ∷ xs) ys (here e) = inl (here e)
  In-either (x ∷ xs) ys (there m) = elim (In-either xs ys m) [
    | inl n ↦ inl (there n)
    | inr n ↦ inr n
  ]

module _ {ℓ} {A : Type ℓ} ⦃e : Eq A⦄ where
  contains-cons :
      (x : A) (xs : List A) (a : A)
      → In a (x ∷ xs)
      → (In a xs → contains xs a ≡ true)
      → contains (x ∷ xs) a ≡ true
  contains-cons x xs a (here h) later = let h' = (e.beq_iff x a).1 h in ground (arith, h')
  contains-cons x xs a (there m) later = ground (arith, later m)

  pub contains_iff : (xs : List A) (a : A) → (contains xs a ≡ true) ↔ In a xs
  contains_iff [] a = (λ h. cc, λ m. elim m [ ])
  contains_iff (x ∷ xs) a = (
    λ h. elim (or-true (e.beq x a) (contains xs a) h) [
      | inl now ↦ here ((e.beq_iff x a).0 now)
      | inr later ↦ there ((contains_iff xs a).0 later)
    ],
    λ m. contains-cons x xs a m (λ n. (contains_iff xs a).1 n),
  )
