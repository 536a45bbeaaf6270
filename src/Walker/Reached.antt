-- ===== src/Walker/Reached.antt =====
-- A walk over files of which only one holds a document that matches (internal/walker/object.go).
use mathlib.Core.Path.{subst}
use syngit.Common.{
  String, Bool, true, false, Option, none, some, [], ◌∷◌, ◌++◌, Text, ◌==◌, string_eq, All, ◌≡◌,
  refl, sym, ap, ◌∙◌, ◌⊎◌, inl, inr, Bool-cases, append_assoc, append-nil,
}
use syngit.Common.Errors.{Error, Result, ok, err, ◌>>=◌}
use syngit.Walker.{split_docs}
use syngit.Walker.Files.{
  DocTransform, replacement, replace_doc_in_content_func, claim, Files, Walk, read_file,
  apply_replacement, visit, walk_files, put_files,
}
use syngit.Walker.Replaced.{holds, replace_first-none}

abbrev pub HasDistinctPaths : Files → Type 0
HasDistinctPaths [] = Unit
HasDistinctPaths (file ∷ files) = All (λ f. (f.0 == file.0) ≡ false) files × HasDistinctPaths files

-- No file but that of the path holds a document that matches.
abbrev pub HoldsOnly : (Text → Bool) → String → Files → Type 0
HoldsOnly matches path files = All (λ f. ((f.0 == path) ≡ true) ⊎ (holds matches f.1 ≡ false)) files

module _ (is_blank : Text → Bool) (disk : String → Option Error) (matches : Text → Bool)
    (transform : DocTransform) (content : Text) where
  apply_none :
      (path : String) (old : Text)
      → holds matches old ≡ false
      → apply_replacement is_blank disk matches transform content path old ≡ ok none
  unfolding apply_replacement replace_doc_in_content_func
  apply_none path old h =
      rw (replace_first-none matches (replacement transform path content) (split_docs 0 old) h) refl

  walk_none :
      (files : Files) (walk : Walk)
      → All (λ f. holds matches f.1 ≡ false) files
      → walk_files is_blank disk matches transform content files walk
        ≡ ok (record walk { files = walk.files ++ files })
  unfolding walk_files visit
  walk_none [] walk h = ap (λ fs. ok (record walk { files = fs })) (sym (append-nil walk.files))
  walk_none ((path, old) ∷ files) walk h =
      ap
        (λ r. r >>= λ found.
          walk_files is_blank disk matches transform content files
            (visit is_blank disk matches transform content path old found walk))
        (apply_none path old h.0)
      ∙ (walk_none files (record walk { files = walk.files ++ (path, old) ∷ [] }) h.1
          ∙ ap (λ fs. ok (record walk { files = fs }))
              (append_assoc walk.files ((path, old) ∷ []) files))

  -- The others of files with distinct paths.
  others_hold :
      (path : String) (files : Files)
      → All (λ f. (f.0 == path) ≡ false) files
      → HoldsOnly matches path files
      → All (λ f. holds matches f.1 ≡ false) files
  others_hold path [] apart only = tt
  others_hold path (file ∷ files) (a, apart) (inl same, only) = absurd cc
  others_hold path (file ∷ files) (a, apart) (inr other, only) =
      (other, others_hold path files apart only)

  put_none :
      (path : String) (new files : Files)
      → All (λ f. (f.0 == path) ≡ false) files
      → put_files is_blank disk matches transform content path new files ≡ files
  unfolding put_files
  put_none path new [] apart = refl
  put_none path new ((p, c) ∷ files) (a, apart) =
      rw (put_files, a) (ap (λ fs. (p, c) ∷ fs) (put_none path new files apart))

  abbrev pub ends_with : String → Files → Walk → Option Files → Walk
  ends_with path files walk none = record walk { files = walk.files ++ files }
  ends_with path files walk (some new) = record {
    files = walk.files ++ put_files is_blank disk matches transform content path new files;
    claimed = claim path content walk.claimed;
    matched = walk.matched ++ path ∷ [];
  }

  reached-rest :
      (path : String) (old : Text) (files : Files) (walk : Walk) (found : Option Files)
      → All (λ f. (f.0 == path) ≡ false) files
      → All (λ f. holds matches f.1 ≡ false) files
      → ((path == path) ≡ true)
      → walk_files is_blank disk matches transform content files
          (visit is_blank disk matches transform content path old found walk)
        ≡ ok (ends_with path ((path, old) ∷ files) walk found)
  unfolding visit put_files
  reached-rest path old files walk none apart clean same =
      walk_none files (record walk { files = walk.files ++ (path, old) ∷ [] }) clean
      ∙ ap (λ fs. ok (record walk { files = fs }))
          (append_assoc walk.files ((path, old) ∷ []) files)
  reached-rest path old files walk (some new) apart clean same =
      let after : Walk = record {
        files = walk.files ++ new;
        claimed = claim path content walk.claimed;
        matched = walk.matched ++ path ∷ [];
      } in
      let put : put_files is_blank disk matches transform content path new ((path, old) ∷ files)
          ≡ new ++ files =
        rw (put_files, same) refl in
      walk_none files after clean
      ∙ ap (λ fs. ok (record after { files = fs }))
          (append_assoc walk.files new files ∙ ap (λ fs. walk.files ++ fs) (sym put))

  bind_ends :
      (r : Result (Option Files)) (f g : Option Files → Result Walk)
      → ((found : Option Files) → f found ≡ g found)
      → (r >>= f) ≡ (r >>= g)
  bind_ends (ok found) f g h = h found
  bind_ends (err e) f g h = refl

  -- A file before the one with the path is kept.
  ends_with-cons :
      (path p : String) (c : Text) (files : Files) (walk : Walk) (found : Option Files)
      → (p == path) ≡ false
      → ends_with path files (record walk { files = walk.files ++ (p, c) ∷ [] }) found
        ≡ ends_with path ((p, c) ∷ files) walk found
  unfolding put_files
  ends_with-cons path p c files walk none other =
      ap (λ fs. record walk { files = fs }) (append_assoc walk.files ((p, c) ∷ []) files)
  ends_with-cons path p c files walk (some new) other =
      let put : put_files is_blank disk matches transform content path new ((p, c) ∷ files)
          ≡ (p, c) ∷ put_files is_blank disk matches transform content path new files =
        rw (put_files, other) refl in
      ap
        (λ fs. record {
          files = fs;
          claimed = claim path content walk.claimed;
          matched = walk.matched ++ path ∷ [];
        })
        (append_assoc walk.files ((p, c) ∷ [])
            (put_files is_blank disk matches transform content path new files)
          ∙ ap (λ fs. walk.files ++ fs) (sym put))

  pub walk_reaches :
      (path : String) (old : Text) (files : Files) (walk : Walk)
      → HasDistinctPaths files
      → HoldsOnly matches path files
      → read_file path files ≡ some old
      → walk_files is_blank disk matches transform content files walk ≡ (
          apply_replacement is_blank disk matches transform content path old >>= λ found.
          ok (ends_with path files walk found))
  unfolding walk_files read_file visit
  walk_reaches path old [] walk distinct only read = absurd cc
  walk_reaches path old ((p, c) ∷ files) walk (apart, distinct) (first, only) read =
      elim (Bool-cases (p == path)) [
        | inl same ↦
            let here_it : p ≡ path = (string_eq.beq_iff p path).0 same in
            let read' : read_file path ((p, c) ∷ files) ≡ some c = rw (same, read_file) refl in
            let old_c : c ≡ old = cc in
            let apart' : All (λ f. (f.0 == path) ≡ false) files =
              subst (λ q. All (λ f. (f.0 == q) ≡ false) files) here_it apart in
            let self : (path == path) ≡ true = (string_eq.beq_iff path path).1 refl in
            subst
              (λ (f : String × Text).
                walk_files is_blank disk matches transform content (f ∷ files) walk ≡ (
                  apply_replacement is_blank disk matches transform content path old >>= λ found.
                  ok (ends_with path (f ∷ files) walk found)))
              (λ i. (sym here_it i, sym old_c i))
              (bind_ends (apply_replacement is_blank disk matches transform content path old) _ _
                (λ found.
                  reached-rest path old files walk found apart' (others_hold path files apart' only)
                    self))
        | inr other ↦
            let read' : read_file path ((p, c) ∷ files) ≡ read_file path files =
              rw (other, read_file) refl in
            let clean : holds matches c ≡ false = elim first [ inl same ↦ absurd cc | inr h ↦ h ] in
            ap
              (λ r. r >>= λ found.
                walk_files is_blank disk matches transform content files
                  (visit is_blank disk matches transform content p c found walk))
              (apply_none p c clean)
            ∙ (walk_reaches path old files (record walk { files = walk.files ++ (p, c) ∷ [] })
                  distinct only (sym read' ∙ read)
                ∙ bind_ends (apply_replacement is_blank disk matches transform content path old) _ _
                    (λ found. ap ok (ends_with-cons path p c files walk found other)))
      ]
