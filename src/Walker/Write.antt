-- ===== src/Walker/Write.antt =====
-- internal/walker/object.go: WriteObjectAtPath, of a path that is clean.
use syngit.Common.{String, Bool, Option, none, some, [], ◌∷◌, ◌==◌, string_eq, Text, if◌then◌else◌}
use syngit.Common.Errors.{Error, Result, ok, err, ◌>>=◌}
use syngit.Walker.{is_empty_text}
use syngit.Walker.Files.{
  DocTransform, apply, replace_doc_in_content_func, append_doc, ClaimedPaths, no_claims, claim,
  Files, read_file,
}

-- A new file stands behind the others.
unfoldable pub write_file : String → Text → Files → Files
write_file path out [] = (path, out) ∷ []
write_file path out ((p, old) ∷ files) =
    let rest = write_file path out files in if p == path then (p, out) ∷ files else (p, old) ∷ rest

unfoldable pub remove_file : String → Files → Files
remove_file path [] = []
remove_file path ((p, old) ∷ files) =
    let rest = remove_file path files in if p == path then files else (p, old) ∷ rest

-- What is taken for the content of a file that is not there.
abbrev pub existing_of : Option Text → Text
existing_of none = []
existing_of (some old) = old

-- The transformed document, behind those of the file, if it is there.
abbrev pub appended : Option Text → Text → Text
appended none transformed = transformed
appended (some old) transformed = append_doc old transformed

module _ (disk : String → Option Error) (matches : Text → Bool) (transform : DocTransform)
    (content : Text) where
  abbrev pub written : String → Option Text → Option Text → Result Text
  written path old (some out) = ok out
  written path old none =
      apply transform path [] content >>= λ transformed. ok (appended old transformed)

  -- A removal that fails is passed over.
  abbrev pub delete_at : String → Files → Option Error → Files
  delete_at path files (some e) = files
  delete_at path files none = remove_file path files

  abbrev pub write_at : String → Files → Text → Option Error → Result (Files × ClaimedPaths)
  write_at path files out (some e) = err e
  write_at path files out none = ok (write_file path out files, claim path content no_claims)

  -- `WriteObjectAtPath`
  unfoldable pub write_object_at_path : String → Files → Result (Files × ClaimedPaths)
  unfolding read_file replace_doc_in_content_func write_file remove_file append_doc
  write_object_at_path path files =
      let old = read_file path files in
      let write =
        replace_doc_in_content_func matches transform path content (existing_of old) >>= λ found.
        written path old found >>= λ out. write_at path files out (disk path) in
      if is_empty_text content
      then ok (delete_at path files (disk path), claim path content no_claims)
      else write
