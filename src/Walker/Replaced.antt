-- ===== src/Walker/Replaced.antt =====
-- What a replacement does to the documents of a file, and of a worktree (internal/walker).
use syngit.Common.{
  String, Bool, true, false, Option, none, some, List, [], ◌∷◌, ◌++◌, Text, string_eq, any, ◌≡◌,
  refl, sym, ap, ◌∙◌, inl, inr, Bool-cases, arith,
}
use syngit.Common.Errors.{Result, ok, Returns, Returns-bind, Returns-ok}
use syngit.Walker.{split_docs, join_docs, terminate}
use syngit.Walker.Document.{join_docs-split_docs}
use syngit.Walker.Files.{DocTransform, replacement, replace_first, replace_doc_in_content_func}

module _ (matches : Text → Bool) (new : Text → Result (List Text)) where
  -- The first document that matches has been replaced, and the others are as they were.
  abbrev pub IsReplacedIn : List Text → Option (List Text) → Type 0
  IsReplacedIn docs none = any matches docs ≡ false
  IsReplacedIn docs (some result) =
      (before : List Text) × (doc : Text) × (after : List Text) × (replaced : List Text) × (docs
        ≡ before ++ doc ∷ after)
      × (any matches before ≡ false)
      × (matches doc ≡ true)
      × (new doc ≡ ok replaced)
      × (result ≡ before ++ replaced ++ after)

  IsReplacedIn-there :
      (doc : Text) (docs : List Text) (found : Option (List Text))
      → matches doc ≡ false
      → IsReplacedIn docs found
      → IsReplacedIn (doc ∷ docs) (elim found [ none ↦ none | some ds ↦ some (doc ∷ ds) ])
  IsReplacedIn-there doc docs none other h = ground (arith, other, h)
  IsReplacedIn-there doc docs (some ds) other
        (before, d, after, replaced, e, clean, hit, made, e') =
      (
        doc ∷ before,
        d,
        after,
        replaced,
        ap (λ x. doc ∷ x) e,
        ground (arith, other, clean),
        hit,
        made,
        ap (λ x. doc ∷ x) e',
      )

  pub replace_first-IsReplacedIn :
      (docs : List Text) → Returns (IsReplacedIn docs) (replace_first matches new docs)
  unfolding replace_first
  replace_first-IsReplacedIn [] = refl
  replace_first-IsReplacedIn (doc ∷ docs) = elim (Bool-cases (matches doc)) [
    | inl hit ↦
        rw (replace_first, hit)
          (Returns-bind _ (new doc) _
            λ replaced made. ([], doc, docs, replaced, refl, refl, hit, made, refl))
    | inr other ↦
        rw (replace_first, other)
          (Returns-bind _ (replace_first matches new docs) _ λ found at.
            IsReplacedIn-there doc docs found other
              (Returns-ok (IsReplacedIn docs) _ (replace_first-IsReplacedIn docs) at))
  ]

  pub replace_first-none :
      (docs : List Text) → any matches docs ≡ false → replace_first matches new docs ≡ ok none
  unfolding replace_first
  replace_first-none [] h = refl
  replace_first-none (doc ∷ docs) h =
      let other : matches doc ≡ false = ground (arith, h) in
      let later : any matches docs ≡ false = ground (arith, h) in
      rw (replace_first, other, replace_first-none docs later) refl

-- The documents of the text that match.
abbrev pub holds : (Text → Bool) → Text → Bool
holds matches content = any matches (split_docs 0 content)

-- The content is that of documents of which the first to match has been replaced; the text between
-- them is kept to the letter.
abbrev pub IsMerged : (Text → Bool) → DocTransform → String → Text → Text → Option Text → Type 0
IsMerged matches transform path new_doc content none = holds matches content ≡ false
IsMerged matches transform path new_doc content (some out) =
    (before : List Text) × (doc : Text) × (after : List Text) × (replaced : List Text) × (content
      ≡ join_docs (before ++ doc ∷ after))
    × (any matches before ≡ false)
    × (matches doc ≡ true)
    × (replacement transform path new_doc doc ≡ ok replaced)
    × (out ≡ terminate (join_docs (before ++ replaced ++ after)))

found-IsMerged :
    (matches : Text → Bool) (transform : DocTransform) (path : String) (new_doc content : Text)
    (found : Option (List Text))
    → IsReplacedIn matches (replacement transform path new_doc) (split_docs 0 content) found
    → IsMerged matches transform path new_doc content
        (elim found [ none ↦ none | some docs ↦ some (terminate (join_docs docs)) ])
found-IsMerged matches transform path new_doc content none h = h
found-IsMerged matches transform path new_doc content (some docs)
      (before, d, after, replaced, e, clean, hit, made, e') =
    (
      before,
      d,
      after,
      replaced,
      sym (join_docs-split_docs content) ∙ ap join_docs e,
      clean,
      hit,
      made,
      ap (λ ds. terminate (join_docs ds)) e',
    )

-- A replacement that finds nothing is one where no document of the content matches. Otherwise the
-- first document that matches is replaced by what the transform makes of the new one, or deleted if
-- that is empty; all others, and the separators between them, are kept to the letter, but that the
-- result ends with a line break.
pub replace_doc_in_content_func-IsMerged :
    (matches : Text → Bool) (transform : DocTransform) (path : String) (new_doc content : Text)
    (found : Option Text)
    → replace_doc_in_content_func matches transform path new_doc content ≡ ok found
    → IsMerged matches transform path new_doc content found
unfolding replace_doc_in_content_func
replace_doc_in_content_func-IsMerged matches transform path new_doc content found =
    Returns-ok (IsMerged matches transform path new_doc content) _ (
      Returns-bind _
        (replace_first matches (replacement transform path new_doc) (split_docs 0 content)) _
        λ docs at. found-IsMerged matches transform path new_doc content docs (
          Returns-ok _
            (replace_first matches (replacement transform path new_doc) (split_docs 0 content))
            (replace_first-IsReplacedIn matches (replacement transform path new_doc)
              (split_docs 0 content))
            at))
