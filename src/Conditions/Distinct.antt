-- ===== src/Conditions/Distinct.antt =====
-- Conditions of which no two have the same type (pkg/kube/conditions.go).
use mathlib.Core.Path.{subst}
use mathlib.Core.Bool.{true≢false}
use syngit.Common.{
  ℕ, suc, String, true, false, not, Option, none, some, List, [], ◌∷◌, ◌++◌, ◌==◌, string_eq,
  select, All, All-append, ◌≡◌, refl, sym, ap, ◌∙◌, inl, inr, Bool-cases,
}
use syngit.Conditions.{Condition, last_index, delete_found, remove_condition, set_condition}

abbrev pub IsOther : String → Condition → Type 0
IsOther type_kind c = (type_kind == c.type) ≡ false

abbrev pub Distinct : List Condition → Type 0
Distinct [] = Unit
Distinct (c ∷ cs) = All (λ d. IsOther c.type d) cs × Distinct cs

-- The conditions of other types, in their order.
abbrev pub others : String → List Condition → List Condition
others type_kind = select (λ c. not (type_kind == c.type))

beq_other : (s t : String) → (s == t) ≡ false → (t == s) ≡ false
beq_other s t other = elim (Bool-cases (t == s)) [
  | inr h ↦ h
  | inl same ↦
      absurd (
        true≢false (sym ((string_eq.beq_iff s t).1 (sym ((string_eq.beq_iff t s).0 same))) ∙ other))
]

abbrev shift : Option ℕ → Option ℕ
shift none = none
shift (some i) = some (suc i)

last_index-shift :
    (type_kind : String) (cs : List Condition) (i : ℕ) (found : Option ℕ)
    → last_index type_kind cs (suc i) (shift found) ≡ shift (last_index type_kind cs i found)
unfolding last_index
last_index-shift type_kind [] i found = refl
last_index-shift type_kind (c ∷ cs) i found = elim (Bool-cases (type_kind == c.type)) [
  | inl same ↦ rw same (last_index-shift type_kind cs (suc i) (some i))
  | inr other ↦ rw other (last_index-shift type_kind cs (suc i) found)
]

last_index-none :
    (type_kind : String) (cs : List Condition) (i : ℕ) (found : Option ℕ)
    → All (IsOther type_kind) cs
    → last_index type_kind cs i found ≡ found
unfolding last_index
last_index-none type_kind [] i found h = refl
last_index-none type_kind (c ∷ cs) i found h =
    rw h.0 (last_index-none type_kind cs (suc i) found h.1)

others-none :
    (type_kind : String) (cs : List Condition)
    → All (IsOther type_kind) cs
    → others type_kind cs ≡ cs
others-none type_kind [] h = refl
others-none type_kind (c ∷ cs) h = rw h.0 (ap (λ ds. c ∷ ds) (others-none type_kind cs h.1))

delete_found-shift :
    (c : Condition) (cs : List Condition) (found : Option ℕ)
    → delete_found (c ∷ cs) (shift found) ≡ c ∷ delete_found cs found
delete_found-shift c cs none = refl
delete_found-shift c cs (some i) = refl

same_type :
    (type_kind : String) (c : Condition) (cs : List Condition)
    → (type_kind == c.type) ≡ true
    → All (λ d. IsOther c.type d) cs
    → All (IsOther type_kind) cs
same_type type_kind c cs same h =
    subst (λ t. All (IsOther t) cs) (sym ((string_eq.beq_iff type_kind c.type).0 same)) h

-- If no two conditions have the same type, then RemoveCondition leaves those of other types, in
-- their order.
pub remove_condition-others :
    (cs : List Condition) (type_kind : String)
    → Distinct cs
    → remove_condition cs type_kind ≡ others type_kind cs
unfolding remove_condition last_index
remove_condition-others [] type_kind h = refl
remove_condition-others (c ∷ cs) type_kind h = elim (Bool-cases (type_kind == c.type)) [
  | inl same ↦
      let absent = same_type type_kind c cs same h.0 in
      rw (same, last_index-none type_kind cs 1 (some 0) absent)
        (sym (others-none type_kind cs absent))
  | inr other ↦
      rw (other, last_index-shift type_kind cs 0 none)
        (delete_found-shift c cs (last_index type_kind cs 0 none)
          ∙ ap (λ ds. c ∷ ds) (remove_condition-others cs type_kind h.1))
]

All-others :
    (type_kind : String) (P : Condition → Type 0) (cs : List Condition)
    → All P cs
    → All P (others type_kind cs)
All-others type_kind P [] h = tt
All-others type_kind P (c ∷ cs) h = elim (Bool-cases (type_kind == c.type)) [
  | inl same ↦ rw same (All-others type_kind P cs h.1)
  | inr other ↦ rw other (h.0, All-others type_kind P cs h.1)
]

Distinct-snoc :
    (c : Condition) (cs : List Condition) → Distinct cs → Distinct (others c.type cs ++ c ∷ [])
Distinct-snoc c [] h = (tt, tt)
Distinct-snoc c (d ∷ ds) h = elim (Bool-cases (c.type == d.type)) [
  | inl same ↦ rw same (Distinct-snoc c ds h.1)
  | inr other ↦ rw other (
    All-append (λ e. IsOther d.type e) (others c.type ds) (c ∷ [])
        (All-others c.type (λ e. IsOther d.type e) ds h.0) (beq_other c.type d.type other, tt),
    Distinct-snoc c ds h.1,
  )
]

-- If no two conditions have the same type, then SetCondition puts the new one behind those of other
-- types, and again no two have the same type.
pub set_condition-Distinct :
    (cs : List Condition) (c : Condition)
    → Distinct cs
    → (set_condition cs c ≡ others c.type cs ++ c ∷ []) × Distinct (set_condition cs c)
unfolding set_condition
set_condition-Distinct cs c h =
    let removed = remove_condition-others cs c.type h in
    (
      ap (λ ds. ds ++ c ∷ []) removed,
      subst (λ ds. Distinct (ds ++ c ∷ [])) (sym removed) (Distinct-snoc c cs h),
    )
