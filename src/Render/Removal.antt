-- ===== src/Render/Removal.antt =====
-- What RemoveExcludedField (pkg/render/excludedfields.go) removes, and what it leaves.
use mathlib.Core.Path.{subst}
use syngit.Common.{
  Bool, true, false, Text, text_eq, text_eq_iff, text_refl, Option, none, some, List, [], ◌∷◌, ◌==◌,
  ◌≡◌, refl, ◌∙◌, arith, if◌then◌else◌, Bool-cases, inl, inr,
}
use syngit.Render.{
  Value, object, null, Fields, end, field, lookup, delete, replace, descend, remove_parts,
  remove_excluded_field, path_parts,
}

lookup-delete :
    (k j : Text) (m : Fields) → lookup j (delete k m) ≡ (if k == j then none else lookup j m)
unfolding delete
lookup-delete k j end = ground arith
lookup-delete k j (field i v m) =
    ground (arith, lookup-delete k j m, text_eq_iff i k, text_eq_iff i j, text_eq_iff k j)

lookup-replace :
    (k j : Text) (v w : Value) (m : Fields)
    → lookup k m ≡ some w
    → lookup j (replace k v m) ≡ (if k == j then some v else lookup j m)
unfolding replace
lookup-replace k j v w end h = cc
lookup-replace k j v w (field i x m) h =
    ground (arith, lookup-replace k j v w m, text_eq_iff i k, text_eq_iff i j, text_eq_iff k j)

-- The value at a path of keys.
abbrev pub at_parts : List Text → Fields → Option Value
at_parts [] m = none
at_parts (part ∷ []) m = lookup part m
at_parts (part ∷ next ∷ parts) m = elim (lookup part m) [
  | some (object n) ↦ at_parts (next ∷ parts) n
  | _ ↦ none
]

at_parts-descend :
    (part next : Text) (parts : List Text) (m : Fields) (o : Option Value)
    → lookup part m ≡ o
    → ((n : Fields) → at_parts (next ∷ parts) (remove_parts (next ∷ parts) n) ≡ none)
    → at_parts (part ∷ next ∷ parts) (descend part o (remove_parts (next ∷ parts)) m) ≡ none
unfolding descend
at_parts-descend part next parts m (some (object n)) e ih =
    let removed = object (remove_parts (next ∷ parts) n) in
    let at : lookup part (replace part removed m) ≡ some removed =
      rw (lookup-replace part part removed (object n) m e, text_refl) refl in
    rw (at_parts, at) (ih n)
at_parts-descend part next parts m none e ih = rw (at_parts, e)
at_parts-descend part next parts m (some null) e ih = rw (at_parts, e)
at_parts-descend part next parts m (some v) e ih = rw (at_parts, e)

remove_parts-at_self :
    (parts : List Text) (m : Fields) → at_parts parts (remove_parts parts m) ≡ none
unfolding remove_parts
remove_parts-at_self [] m = refl
remove_parts-at_self (part ∷ []) m = rw (lookup-delete, text_refl)
remove_parts-at_self (part ∷ next ∷ parts) m =
    at_parts-descend part next parts m (lookup part m) refl (remove_parts-at_self (next ∷ parts))

-- After the removal the object has no value at the path.
pub remove_excluded_field-at_self :
    (m : Fields) (path : Text) → at_parts (path_parts path) (remove_excluded_field m path) ≡ none
unfolding remove_excluded_field
remove_excluded_field-at_self m path = remove_parts-at_self (path_parts path) m

-- The two paths part at some key, neither going on from the other.
abbrev pub diverge : List Text → List Text → Bool
diverge [] qs = false
diverge (p ∷ ps) [] = false
diverge (p ∷ ps) (q ∷ qs) = if p == q then diverge ps qs else true

at_parts_step :
    (q : Text) (qs : List Text) (m m' : Fields)
    → lookup q m ≡ lookup q m'
    → at_parts (q ∷ qs) m ≡ at_parts (q ∷ qs) m'
at_parts_step q [] m m' h = h
at_parts_step q (r ∷ qs) m m' h = rw (at_parts, h)

at_parts_within :
    (part next : Text) (parts : List Text) (q : Text) (qs : List Text) (m n : Fields)
    → lookup part m ≡ some (object n)
    → diverge (part ∷ next ∷ parts) (q ∷ qs) ≡ true
    → (part == q) ≡ true
    → ((n : Fields)
        → diverge (next ∷ parts) qs ≡ true
        → at_parts qs (remove_parts (next ∷ parts) n) ≡ at_parts qs n)
    → at_parts (q ∷ qs) (replace part (object (remove_parts (next ∷ parts) n)) m)
      ≡ at_parts (q ∷ qs) m
at_parts_within part next parts q [] m n e d same ih = absurd (ground arith)
at_parts_within part next parts q (r ∷ qs) m n e d same ih =
    let at : lookup q m ≡ some (object n) =
      subst (λ k. lookup k m ≡ some (object n)) ((text_eq_iff part q).0 same) e in
    let at' : lookup q (replace part (object (remove_parts (next ∷ parts) n)) m)
        ≡ some (object (remove_parts (next ∷ parts) n)) =
      rw (lookup-replace part q (object (remove_parts (next ∷ parts) n)) (object n) m e, same)
        refl in
    rw (at_parts, at, at') (ih n (ground arith))

at_parts_other :
    (part next : Text) (parts : List Text) (q : Text) (qs : List Text) (m : Fields)
    (o : Option Value)
    → lookup part m ≡ o
    → diverge (part ∷ next ∷ parts) (q ∷ qs) ≡ true
    → ((n : Fields)
        → diverge (next ∷ parts) qs ≡ true
        → at_parts qs (remove_parts (next ∷ parts) n) ≡ at_parts qs n)
    → at_parts (q ∷ qs) (descend part o (remove_parts (next ∷ parts)) m) ≡ at_parts (q ∷ qs) m
unfolding descend
at_parts_other part next parts q qs m none e d ih = refl
at_parts_other part next parts q qs m (some (object n)) e d ih = elim (Bool-cases (part == q)) [
  | inr other ↦
      at_parts_step q qs _ m
        (rw (lookup-replace part q (object (remove_parts (next ∷ parts) n)) (object n) m e, other))
  | inl same ↦ at_parts_within part next parts q qs m n e d same ih
]
at_parts_other part next parts q qs m (some v) e d ih = refl

remove_parts-at_other :
    (ps qs : List Text) (m : Fields)
    → diverge ps qs ≡ true
    → at_parts qs (remove_parts ps m) ≡ at_parts qs m
unfolding remove_parts
remove_parts-at_other [] qs m d = refl
remove_parts-at_other (part ∷ ps) [] m d = refl
remove_parts-at_other (part ∷ []) (q ∷ qs) m d =
    at_parts_step q qs _ m (rw lookup-delete (ground arith))
remove_parts-at_other (part ∷ next ∷ ps) (q ∷ qs) m d =
    at_parts_other part next ps q qs m (lookup part m) refl d
      (λ n d'. remove_parts-at_other (next ∷ ps) qs n d')

-- A path that parts from the removed one keeps its value.
pub remove_excluded_field-at_other :
    (m : Fields) (path : Text) (qs : List Text)
    → diverge (path_parts path) qs ≡ true
    → at_parts qs (remove_excluded_field m path) ≡ at_parts qs m
unfolding remove_excluded_field
remove_excluded_field-at_other m path qs d = remove_parts-at_other (path_parts path) qs m d

at_parts_missing :
    (q : Text) (qs : List Text) (m : Fields) → lookup q m ≡ none → at_parts (q ∷ qs) m ≡ none
at_parts_missing q [] m h = h
at_parts_missing q (r ∷ qs) m h = rw (at_parts, h)

at_parts-delete :
    (part q : Text) (qs : List Text) (m : Fields)
    → at_parts (q ∷ qs) m ≡ none
    → at_parts (q ∷ qs) (delete part m) ≡ none
at_parts-delete part q qs m h = elim (Bool-cases (part == q)) [
  | inl same ↦ at_parts_missing q qs _ (rw (lookup-delete, same))
  | inr other ↦ at_parts_step q qs _ m (rw (lookup-delete, other)) ∙ h
]

at_parts_inside :
    (part next : Text) (parts : List Text) (q : Text) (qs : List Text) (m n : Fields)
    → lookup part m ≡ some (object n)
    → at_parts (q ∷ qs) m ≡ none
    → (part == q) ≡ true
    → ((n : Fields) → at_parts qs n ≡ none → at_parts qs (remove_parts (next ∷ parts) n) ≡ none)
    → at_parts (q ∷ qs) (replace part (object (remove_parts (next ∷ parts) n)) m) ≡ none
at_parts_inside part next parts q [] m n e h same ih =
    let at : lookup q m ≡ some (object n) =
      subst (λ k. lookup k m ≡ some (object n)) ((text_eq_iff part q).0 same) e in
    absurd (cc)
at_parts_inside part next parts q (r ∷ qs) m n e h same ih =
    let at : lookup q m ≡ some (object n) =
      subst (λ k. lookup k m ≡ some (object n)) ((text_eq_iff part q).0 same) e in
    let removed = object (remove_parts (next ∷ parts) n) in
    let at' : lookup q (replace part removed m) ≡ some removed =
      rw (lookup-replace part q removed (object n) m e, same) refl in
    let inner : at_parts (r ∷ qs) n ≡ none = rw (at_parts, at) at h in
    rw (at_parts, at') (ih n inner)

-- A removal adds no value.
at_parts-descend-none :
    (part next : Text) (parts : List Text) (q : Text) (qs : List Text) (m : Fields)
    (o : Option Value)
    → lookup part m ≡ o
    → at_parts (q ∷ qs) m ≡ none
    → ((n : Fields) → at_parts qs n ≡ none → at_parts qs (remove_parts (next ∷ parts) n) ≡ none)
    → at_parts (q ∷ qs) (descend part o (remove_parts (next ∷ parts)) m) ≡ none
unfolding descend
at_parts-descend-none part next parts q qs m none e h ih = h
at_parts-descend-none part next parts q qs m (some (object n)) e h ih =
    elim (Bool-cases (part == q)) [
      | inr other ↦
          at_parts_step q qs _ m (
            rw (
              lookup-replace part q (object (remove_parts (next ∷ parts) n)) (object n) m e,
              other,
            ))
          ∙ h
      | inl same ↦ at_parts_inside part next parts q qs m n e h same ih
    ]
at_parts-descend-none part next parts q qs m (some v) e h ih = h

remove_parts-at_none :
    (ps qs : List Text) (m : Fields) → at_parts qs m ≡ none → at_parts qs (remove_parts ps m) ≡ none
unfolding remove_parts
remove_parts-at_none [] qs m h = h
remove_parts-at_none (part ∷ ps) [] m h = refl
remove_parts-at_none (part ∷ []) (q ∷ qs) m h = at_parts-delete part q qs m h
remove_parts-at_none (part ∷ next ∷ ps) (q ∷ qs) m h =
    at_parts-descend-none part next ps q qs m (lookup part m) refl h
      (λ n h'. remove_parts-at_none (next ∷ ps) qs n h')

pub remove_excluded_field-at_none :
    (m : Fields) (path : Text) (qs : List Text)
    → at_parts qs m ≡ none
    → at_parts qs (remove_excluded_field m path) ≡ none
unfolding remove_excluded_field
remove_excluded_field-at_none m path qs h = remove_parts-at_none (path_parts path) qs m h
