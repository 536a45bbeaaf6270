-- ===== src/Common/Errors.antt =====
-- Errors as values (pkg/errors/errors.go, and the errors of the Kubernetes client).
use mathlib.Core.Logic.{◌⊎◌, inl, inr}
use mathlib.Core.Path.{◌≡◌, refl, subst}
use Prim.Native.String.{String}
use mathlib.Core.Bool.{Bool, true, false}
use package.syngit.Common.Tests.{if◌then◌else◌}
use Prim.Native.Nat.{ℕ}
use mathlib.Core.List.{List}

-- A field path of a Kubernetes object, outermost part first.
pub data Segment : Type 0 where
  child : String → Segment
  index : ℕ → Segment

abbrev pub FieldPath : Type 0
FieldPath = List Segment

pub data Error : Type 0 where
  resource_scope_forbidden : List String → Error
  remote_user_denied : String → Error
  remote_target_denied : String → Error
  remote_user_binding_not_found : String → Error
  wrong_remote_target_config : String → Error
  wrong_remote_syncer_config : Error
  remote_target_not_found : String → Error
  remote_user_not_found : String → Error
  credentials_not_found : String → String → Error
  too_much_remote_target : ℕ → Error
  wrong_label_parsing : Error
  too_much_remote_user_binding : ℕ → Error
  too_much_remote_user : ℕ → Error
  too_much_subject : ℕ → Error
  wrong_yaml_format : Error
  cross_namespace_ref_denied : FieldPath → String → String → String → Error
  missing_ref_namespace : FieldPath → Error
  provider_denied : String → Error
  not_found : Error
  already_exists : Error
  conflict : Error
  ca_secret_wrong_type : Error
  other : String → Error

-- A call that returns a value or an error.
pub data Result {ℓ} (T : Type ℓ) : Type ℓ where
  err : Error → Result T
  ok : T → Result T

-- The caller's `if err != nil { return err }`.
infixl 5 ◌>>=◌
abbrev pub ◌>>=◌ {ℓ κ} : {T : Type ℓ} {S : Type κ} → Result T → (T → Result S) → Result S
err e >>= next = err e
ok t >>= next = next t

pub >>=-eq-ok {ℓ κ} :
    {T : Type ℓ} {S : Type κ} (r : Result T) (next : T → Result S) {s : S}
    → (r >>= next) ≡ ok s
    → (t : T) × (r ≡ ok t) × (next t ≡ ok s)
>>=-eq-ok (err e) next h = cc
>>=-eq-ok (ok t) next h = (t, refl, h)

pub Result-cases {ℓ} :
    {A : Type ℓ} (r : Result A) → ((a : A) × (r ≡ ok a)) ⊎ ((e : Error) × (r ≡ err e))
Result-cases (ok a) = inl (a, refl)
Result-cases (err e) = inr (e, refl)

-- If the call returns a value, the value satisfies `P`.
abbrev pub Returns {ℓ κ} : {A : Type ℓ} → (A → Type κ) → Result A → Type κ
Returns P (ok a) = P a
Returns P (err e) = Unit

-- The rest of a chain may use that the first step returned.
pub Returns-bind {ℓ κ μ} :
    {A : Type ℓ} {B : Type κ} (P : B → Type μ) (m : Result A) (f : A → Result B)
    → ((a : A) → m ≡ ok a → Returns P (f a))
    → Returns P (m >>= f)
Returns-bind P (ok a) f h = h a refl
Returns-bind P (err e) f h = tt

pub Returns-ok {ℓ κ} :
    {A : Type ℓ} (P : A → Type κ) (r : Result A) {a : A} → Returns P r → r ≡ ok a → P a
Returns-ok P r h e = subst (Returns P) e h

pub Returns-intro {ℓ κ} :
    {A : Type ℓ} (P : A → Type κ) (r : Result A) → ((a : A) → r ≡ ok a → P a) → Returns P r
Returns-intro P (ok a) f = f a refl
Returns-intro P (err e) f = tt

pub Returns-if {ℓ κ} :
    {A : Type ℓ} (P : A → Type κ) (b : Bool) (r s : Result A)
    → Returns P r
    → Returns P s
    → Returns P (if b then r else s)
Returns-if P true r s h k = h
Returns-if P false r s h k = k

pub ok-injective {ℓ} : {A : Type ℓ} {a b : A} → ok a ≡ ok b → a ≡ b
ok-injective {A} {a} {b} e = cc

pub Returns-map {ℓ κ} :
    {A : Type ℓ} (P Q : A → Type κ) (r : Result A)
    → ((a : A) → P a → Q a)
    → Returns P r
    → Returns Q r
Returns-map P Q (ok a) f h = f a h
Returns-map P Q (err e) f h = tt
