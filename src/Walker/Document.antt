-- ===== src/Walker/Document.antt =====
-- The documents of a text, taken apart and put together (internal/walker/document.go).
use syngit.Common.{
  ℕ, zero, suc, true, false, none, some, List, [], ◌∷◌, ◌++◌, Text, nat_eq, ◌≡◌, refl, sym, ap, ◌∙◌,
  inl, inr, Bool-cases, Option-cases,
}
use syngit.Validation.{strip_prefix}
use syngit.Validation.WellFormed.{strip_prefix_iff}
use syngit.Walker.{doc_separator, has_prefix, onto_first, split_docs, join_docs}

drop : ℕ → Text → Text
drop zero s = s
drop (suc n) [] = []
drop (suc n) (c ∷ s) = drop n s

-- At least one document.
IsSome : List Text → Type 0
IsSome docs = (doc : Text) × (rest : List Text) × (docs ≡ doc ∷ rest)

onto_first-IsSome : (c : ℕ) (docs : List Text) → IsSome (onto_first c docs)
unfolding IsSome
onto_first-IsSome c [] = (c ∷ [], [], refl)
onto_first-IsSome c (doc ∷ docs) = (c ∷ doc, docs, refl)

split_docs-IsSome : (skip : ℕ) (s : Text) → IsSome (split_docs skip s)
unfolding split_docs IsSome onto_first-IsSome
split_docs-IsSome skip [] = ([], [], refl)
split_docs-IsSome (suc skip) (c ∷ s) = split_docs-IsSome skip s
split_docs-IsSome zero (c ∷ s) = elim (Bool-cases (has_prefix doc_separator (c ∷ s))) [
  | inl begins ↦ rw (split_docs, begins) ([], split_docs 4 s, refl)
  | inr other ↦ rw (split_docs, other) (onto_first-IsSome c (split_docs zero s))
]

join-onto_first :
    (c : ℕ) (docs : List Text) → IsSome docs → join_docs (onto_first c docs) ≡ c ∷ join_docs docs
unfolding join_docs IsSome
join-onto_first c [] (doc, rest, e) = absurd cc
join-onto_first c (doc ∷ []) h = refl
join-onto_first c (doc ∷ next ∷ docs) h = refl

join_first :
    (docs : List Text) → IsSome docs → join_docs ([] ∷ docs) ≡ doc_separator ++ join_docs docs
unfolding join_docs IsSome
join_first [] (doc, rest, e) = absurd cc
join_first (doc ∷ docs) h = refl

has_prefix-some :
    (prefix s : Text) → has_prefix prefix s ≡ true → (rest : Text) × (s ≡ prefix ++ rest)
has_prefix-some prefix s h = elim (Option-cases (strip_prefix prefix s)) [
  | inl missing ↦
      let h' : has_prefix prefix s ≡ false =
        ap (λ o. elim o [ some rest ↦ true | none ↦ false ]) missing in
      absurd cc
  | inr (rest, found) ↦ (rest, (strip_prefix_iff prefix s rest).0 found)
]

-- What is left of a text that begins with a separator, after its first character.
begins-drop :
    (c : ℕ) (s rest : Text) → (c ∷ s) ≡ doc_separator ++ rest → doc_separator ++ drop 4 s ≡ (c ∷ s)
unfolding drop
begins-drop c s rest e =
    let tail : Text → Text = λ t. drop 1 t in ap (λ t. doc_separator ++ drop 4 (drop 1 t)) e ∙ sym e

join_docs-split_docs_skip : (skip : ℕ) (s : Text) → join_docs (split_docs skip s) ≡ drop skip s
unfolding split_docs drop
join_docs-split_docs_skip zero [] = unfold join_docs in refl
join_docs-split_docs_skip (suc skip) [] = unfold join_docs in refl
join_docs-split_docs_skip (suc skip) (c ∷ s) = join_docs-split_docs_skip skip s
join_docs-split_docs_skip zero (c ∷ s) = elim (Bool-cases (has_prefix doc_separator (c ∷ s))) [
  | inl begins ↦
      let (rest, e) = has_prefix-some doc_separator (c ∷ s) begins in
      rw (split_docs, begins)
        (join_first (split_docs 4 s) (split_docs-IsSome 4 s)
          ∙ (ap (λ t. doc_separator ++ t) (join_docs-split_docs_skip 4 s) ∙ begins-drop c s rest e))
  | inr other ↦
      rw (split_docs, other)
        (join-onto_first c (split_docs zero s) (split_docs-IsSome zero s)
          ∙ ap (λ t. c ∷ t) (join_docs-split_docs_skip zero s))
]

-- The documents of a text, joined again, are the text.
pub join_docs-split_docs : (s : Text) → join_docs (split_docs 0 s) ≡ s
unfolding drop
join_docs-split_docs s = join_docs-split_docs_skip 0 s
