-- ===== src/Walker/Found.antt =====
-- What a search of a worktree finds (FindObject of internal/walker/object.go).
use syngit.Common.{
  String, Bool, true, false, Option, none, some, List, [], ◌∷◌, ◌++◌, Text, any, All, ◌≡◌, refl, ap,
  inl, inr, Bool-cases, arith,
}
use syngit.Walker.{split_docs}
use syngit.Walker.Files.{Files, first_match, find_object}
use syngit.Walker.Replaced.{holds}

module _ (matches : Text → Bool) where
  -- The first document that matches, with what stands around it.
  abbrev pub IsFirst : List Text → Option Text → Type 0
  IsFirst docs none = any matches docs ≡ false
  IsFirst docs (some doc) =
      (before : List Text) × (after : List Text) × (docs ≡ before ++ doc ∷ after)
      × (any matches before ≡ false)
      × (matches doc ≡ true)

  IsFirst-there :
      (doc : Text) (docs : List Text) (found : Option Text)
      → matches doc ≡ false
      → IsFirst docs found
      → IsFirst (doc ∷ docs) found
  IsFirst-there doc docs none other h = ground (arith, other, h)
  IsFirst-there doc docs (some d) other (before, after, e, clean, hit) =
      (doc ∷ before, after, ap (λ x. doc ∷ x) e, ground (arith, other, clean), hit)

  first_match-IsFirst : (docs : List Text) → IsFirst docs (first_match matches docs)
  unfolding first_match
  first_match-IsFirst [] = refl
  first_match-IsFirst (doc ∷ docs) = elim (Bool-cases (matches doc)) [
    | inl hit ↦ rw (first_match, hit) ([], docs, refl, refl, hit)
    | inr other ↦
        rw (first_match, other)
          (IsFirst-there doc docs (first_match matches docs) other (first_match-IsFirst docs))
  ]

  -- The first file with a document that matches, and the first such document in it; nothing, if there
  -- is none in any file.
  abbrev pub IsFoundIn : Files → Option (String × Text) → Type 0
  IsFoundIn files none = All (λ f. holds matches f.1 ≡ false) files
  IsFoundIn files (some (path, doc)) =
      (before : Files) × (content : Text) × (after : Files) × (files
        ≡ before ++ (path, content) ∷ after)
      × All (λ f. holds matches f.1 ≡ false) before
      × IsFirst (split_docs 0 content) (some doc)

  IsFoundIn-there :
      (path : String) (content : Text) (files : Files) (found : Option (String × Text))
      → holds matches content ≡ false
      → IsFoundIn files found
      → IsFoundIn ((path, content) ∷ files) found
  IsFoundIn-there path content files none clean h = (clean, h)
  IsFoundIn-there path content files (some (p, doc)) clean (before, c, after, e, apart, first) =
      ((path, content) ∷ before, c, after, ap (λ fs. (path, content) ∷ fs) e, (clean, apart), first)

  either-IsFoundIn :
      (path : String) (content : Text) (files : Files) (first : Option Text)
      (rest : Option (String × Text))
      → IsFirst (split_docs 0 content) first
      → IsFoundIn files rest
      → IsFoundIn
          ((path, content) ∷ files)
          (elim first [ some doc ↦ some (path, doc) | none ↦ rest ])
  either-IsFoundIn path content files none rest clean later =
      IsFoundIn-there path content files rest clean later
  either-IsFoundIn path content files (some doc) rest first later =
      ([], content, files, refl, tt, first)

  -- A search finds the first document that matches in the first file that holds one; it finds nothing
  -- exactly if no document of any file matches.
  pub find_object-IsFoundIn : (files : Files) → IsFoundIn files (find_object matches files)
  unfolding find_object
  find_object-IsFoundIn [] = tt
  find_object-IsFoundIn ((path, content) ∷ files) =
      either-IsFoundIn path content files (first_match matches (split_docs 0 content))
        (find_object matches files) (first_match-IsFirst (split_docs 0 content))
        (find_object-IsFoundIn files)
