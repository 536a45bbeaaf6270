-- ===== src/Walker/Written.antt =====
-- What a write at a path leaves in a worktree (internal/walker/object.go).
use syngit.Common.{
  String, Bool, true, false, Option, none, some, [], ◌∷◌, ◌==◌, string_eq, Text, ◌≡◌, refl, sym, ap,
  ◌∙◌, ◌⊎◌, inl, inr, Bool-cases,
}
use syngit.Common.Errors.{Error, ok, Returns, Returns-bind, Returns-ok}
use syngit.Walker.{is_empty_text}
use syngit.Walker.Files.{
  DocTransform, apply, replace_doc_in_content_func, ClaimedPaths, no_claims, claim, Files,
  read_file,
}
use syngit.Walker.Replaced.{holds, IsMerged, replace_doc_in_content_func-IsMerged}
use syngit.Walker.Write.{
  write_file, remove_file, existing_of, appended, written, write_at, write_object_at_path,
}

-- Every other file is as it was.
abbrev pub IsKept : String → Files → Files → Type 0
IsKept path files new = (q : String) → (path == q) ≡ false → read_file q new ≡ read_file q files

read-cons :
    (q p : String) (c : Text) (files new : Files)
    → read_file q new ≡ read_file q files
    → read_file q ((p, c) ∷ new) ≡ read_file q ((p, c) ∷ files)
unfolding read_file
read-cons q p c files new e = elim (Bool-cases (p == q)) [
  | inl it ↦ rw (it, read_file) refl
  | inr later ↦ rw (later, read_file) e
]

-- The name of a file that is not the one read.
read_apart :
    (path q p : String) (c : Text) (files : Files)
    → (p == path) ≡ true
    → (path == q) ≡ false
    → read_file q ((p, c) ∷ files) ≡ read_file q files
unfolding read_file
read_apart path q p c files same other =
    let apart : (p == q) ≡ false = ap (λ x. x == q) ((string_eq.beq_iff p path).0 same) ∙ other in
    rw (apart, read_file) refl

write_file-IsKept :
    (path : String) (out : Text) (files : Files) → IsKept path files (write_file path out files)
unfolding write_file
write_file-IsKept path out [] q other = unfold read_file in rw (other, read_file) refl
write_file-IsKept path out ((p, old) ∷ files) q other = elim (Bool-cases (p == path)) [
  | inl same ↦
      rw (same, write_file)
        (read_apart path q p out files same other ∙ sym (read_apart path q p old files same other))
  | inr apart ↦
      rw (apart, write_file)
        (read-cons q p old files (write_file path out files)
          (write_file-IsKept path out files q other))
]

remove_file-IsKept : (path : String) (files : Files) → IsKept path files (remove_file path files)
unfolding remove_file
remove_file-IsKept path [] q other = refl
remove_file-IsKept path ((p, old) ∷ files) q other = elim (Bool-cases (p == path)) [
  | inl same ↦ rw (same, remove_file) (sym (read_apart path q p old files same other))
  | inr apart ↦
      rw (apart, remove_file)
        (read-cons q p old files (remove_file path files) (remove_file-IsKept path files q other))
]

read_file-write_file :
    (path : String) (out : Text) (files : Files)
    → read_file path (write_file path out files) ≡ some out
unfolding write_file read_file
read_file-write_file path out [] = rw ((string_eq.beq_iff path path).1 refl, read_file) refl
read_file-write_file path out ((p, old) ∷ files) = elim (Bool-cases (p == path)) [
  | inl same ↦ rw (same, write_file) (rw (same, read_file) refl)
  | inr apart ↦ rw (apart, write_file) (rw (apart, read_file) (read_file-write_file path out files))
]

module _ (disk : String → Option Error) (matches : Text → Bool) (transform : DocTransform)
    (content : Text) where
  -- The document that matched is replaced; if none did, the transformed content comes behind what was
  -- there, or alone.
  abbrev pub IsMergedOrAppended : String → Option Text → Text → Type 0
  IsMergedOrAppended path old out =
      IsMerged matches transform path content (existing_of old) (some out)
      ⊎ (holds matches (existing_of old) ≡ false)
        × (transformed : Text) × (apply transform path [] content ≡ ok transformed)
        × (out ≡ appended old transformed)

  abbrev pub IsWritten : String → Files → Files × ClaimedPaths → Type 0
  IsWritten path files result =
      IsKept path files result.0
      × (result.1 ≡ claim path content no_claims)
      × (out : Text) × (read_file path result.0 ≡ some out)
      × IsMergedOrAppended path (read_file path files) out

  written-IsMergedOrAppended :
      (path : String) (old found : Option Text)
      → IsMerged matches transform path content (existing_of old) found
      → Returns
          (IsMergedOrAppended path old)
          (written disk matches transform content path old found)
  written-IsMergedOrAppended path old (some out) merged = inl merged
  written-IsMergedOrAppended path old none clean =
      Returns-bind _ (apply transform path [] content) _
        λ transformed at. inr (clean, transformed, at, refl)

  write_at-IsWritten :
      (path : String) (files : Files) (out : Text) (failure : Option Error)
      → IsMergedOrAppended path (read_file path files) out
      → Returns
          (IsWritten path files)
          (write_at disk matches transform content path files out failure)
  write_at-IsWritten path files out (some e) h = tt
  write_at-IsWritten path files out none h =
      (write_file-IsKept path out files, refl, out, read_file-write_file path out files, h)

  -- A write of a content that is not empty and does not fail leaves every other file as it was, and
  -- claims the path. At the path there is then a file where the first document that matched is
  -- replaced and the others are kept; or, if none matched, the transformed content behind the
  -- documents that were there, or alone if there was no file.
  pub write_object_at_path-IsWritten :
      (path : String) (files : Files) (result : Files × ClaimedPaths)
      → is_empty_text content ≡ false
      → write_object_at_path disk matches transform content path files ≡ ok result
      → IsWritten path files result
  unfolding write_object_at_path
  write_object_at_path-IsWritten path files result some_content done =
      let old = read_file path files in
      let merge = replace_doc_in_content_func matches transform path content (existing_of old) in
      let steps : Returns (IsWritten path files)
          (write_object_at_path disk matches transform content path files) =
        rw (some_content, write_object_at_path)
          (Returns-bind _ merge _ λ found at.
            Returns-bind _ (written disk matches transform content path old found) _ λ out made.
              write_at-IsWritten path files out (disk path) (
                Returns-ok _ (written disk matches transform content path old found)
                  (written-IsMergedOrAppended path old found (
                    replace_doc_in_content_func-IsMerged matches transform path content
                      (existing_of old) found at))
                  made)) in
      Returns-ok (IsWritten path files) _ steps done
