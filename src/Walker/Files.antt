-- ===== src/Walker/Files.antt =====
-- internal/walker/document.go, object.go and cache.go: documents in files, and the files of a worktree.
use syngit.Common.{
  String, Bool, true, false, Option, none, some, List, [], ◌∷◌, ◌++◌, ◌==◌, string_eq, nat_eq,
  text_eq, Text, if◌then◌else◌, list_beq,
}
use syngit.Common.Errors.{Error, Result, ok, err, ◌>>=◌}
use syngit.Walker.{split_docs, join_docs, trim_newlines, terminate, is_empty_text}

-- `DocTransform`: the path, the document that is there, and the one to be written.
abbrev pub DocTransform : Type 0
DocTransform = Option (String → Text → Text → Result Text)

-- `DocTransform.Apply`
abbrev pub apply : DocTransform → String → Text → Text → Result Text
apply none path existing content = ok content
apply (some transform) path existing content =
    if is_empty_text content then ok content else transform path existing content

-- What stands in place of a document: nothing, if it is deleted.
unfoldable pub replacement : DocTransform → String → Text → Text → Result (List Text)
unfolding trim_newlines
replacement transform path new_doc doc =
    if is_empty_text new_doc
    then ok []
    else apply transform path doc new_doc >>= λ transformed. ok (trim_newlines transformed ∷ [])

-- The first document that matches is replaced.
unfoldable pub replace_first :
    (Text → Bool) → (Text → Result (List Text)) → List Text → Result (Option (List Text))
replace_first matches new [] = ok none
replace_first matches new (doc ∷ docs) =
    let rest = replace_first matches new docs in
    if matches doc
    then (new doc >>= λ replaced. ok (some (replaced ++ docs)))
    else (rest >>= λ found. ok (elim found [ none ↦ none | some ds ↦ some (doc ∷ ds) ]))

-- `ReplaceDocInContentFunc`: the merged content, if a document matches.
unfoldable pub replace_doc_in_content_func :
    (Text → Bool) → DocTransform → String → Text → Text → Result (Option Text)
unfolding split_docs join_docs replacement replace_first
replace_doc_in_content_func matches transform path new_doc content =
    replace_first matches (replacement transform path new_doc) (split_docs 0 content) >>= λ found.
    ok (elim found [ none ↦ none | some docs ↦ some (terminate (join_docs docs)) ])

-- `appendDoc`
unfoldable pub append_doc : Text → Text → Text
unfolding trim_newlines
append_doc existing doc = terminate (trim_newlines existing ++ syngit.Walker.doc_separator ++ doc)

-- `ClaimedPaths`
pub record ClaimedPaths : Type 0 where
  pub add : List String
  pub delete : List String

abbrev pub no_claims : ClaimedPaths
no_claims = record { add = []; delete = [] }

abbrev pub claim : String → Text → ClaimedPaths → ClaimedPaths
claim path content claimed =
    if is_empty_text content
    then record claimed { delete = claimed.delete ++ path ∷ [] }
    else record claimed { add = claimed.add ++ path ∷ [] }

abbrev pub Files : Type 0
Files = List (String × Text)

-- Where a walk stands: the files so far, the claims, and the paths that matched.
pub record Walk : Type 0 where
  pub files : Files
  pub claimed : ClaimedPaths
  pub matched : List String

-- `docCacheValue`
pub record DocCacheValue : Type 0 where
  pub path : String
  pub no_cache : Bool

-- What becomes of the entry of the cache.
pub data CacheUpdate : Type 0 where
  keep : CacheUpdate
  delete : CacheUpdate
  set : DocCacheValue → CacheUpdate

pub record Replaced : Type 0 where
  pub files : Files
  pub claimed : ClaimedPaths
  pub cache : CacheUpdate

-- The first document of a file that matches.
unfoldable pub first_match : (Text → Bool) → List Text → Option Text
first_match matches [] = none
first_match matches (doc ∷ docs) =
    let rest = first_match matches docs in if matches doc then some doc else rest

-- `FindObject`, over the walk `WalkWorktreeYAML`: the first document that matches, and its file.
unfoldable pub find_object : (Text → Bool) → Files → Option (String × Text)
unfolding first_match split_docs
find_object matches [] = none
find_object matches ((path, content) ∷ files) =
    let rest = find_object matches files in
    elim (first_match matches (split_docs 0 content)) [ some doc ↦ some (path, doc) | none ↦ rest ]

unfoldable pub read_file : String → Files → Option Text
read_file path [] = none
read_file path ((p, content) ∷ files) = if p == path then some content else read_file path files

-- `recordMatches`
unfoldable pub record_matches : List String → CacheUpdate
record_matches [] = delete
record_matches (path ∷ []) = set (record { path = path; no_cache = false })
record_matches (path ∷ other ∷ paths) = set (record { path = ""; no_cache = true })

-- `is_blank` says whether a text has no other characters than spaces; a write or a removal may fail.
module _ (is_blank : Text → Bool) (disk : String → Option Error) (matches : Text → Bool)
    (transform : DocTransform) (content : Text) where
  -- The file with its new content: without it, if that is blank.
  unfoldable pub store : String → Text → Text → Result Files
  store path old out = if list_beq out old then ok ((path, old) ∷ []) else elim (disk path) [
    | some e ↦ err e
    | none ↦ ok (if is_blank out then [] else (path, out) ∷ [])
  ]

  -- `applyReplacement`: what becomes of the file, if a document in it matches.
  unfoldable pub apply_replacement : String → Text → Result (Option Files)
  unfolding replace_doc_in_content_func store
  apply_replacement path old =
      replace_doc_in_content_func matches transform path content old >>= λ found. elim found [
        | none ↦ ok none
        | some out ↦ store path old out >>= λ files. ok (some files)
      ]

  -- The visit of a file.
  unfoldable pub visit : String → Text → Option Files → Walk → Walk
  visit path old none walk = record walk { files = walk.files ++ (path, old) ∷ [] }
  visit path old (some files) walk = record {
    files = walk.files ++ files;
    claimed = claim path content walk.claimed;
    matched = walk.matched ++ path ∷ [];
  }

  unfoldable pub walk_files : Files → Walk → Result Walk
  unfolding apply_replacement visit
  walk_files [] walk = ok walk
  walk_files ((path, old) ∷ rest) walk =
      apply_replacement path old >>= λ found. walk_files rest (visit path old found walk)

  abbrev pub full_walk : Files → Result Replaced
  full_walk files =
      walk_files files (record { files = []; claimed = no_claims; matched = [] }) >>= λ walk.
      ok (record {
        files = walk.files;
        claimed = walk.claimed;
        cache = if is_empty_text content then delete else record_matches walk.matched;
      })

  -- The file with the path is replaced by what has become of it.
  unfoldable pub put_files : String → Files → Files → Files
  put_files path new [] = []
  put_files path new ((p, old) ∷ files) =
      let rest = put_files path new files in if p == path then new ++ files else (p, old) ∷ rest

  abbrev pub after_fast_path : String → Option Files → Files → Result Replaced
  after_fast_path path none files = full_walk files
  after_fast_path path (some new) files = ok (record {
    files = put_files path new files;
    claimed = claim path content no_claims;
    cache = if is_empty_text content then delete else keep;
  })

  -- The fast path: a single remembered location, validated by reading it again.
  abbrev pub fast_path : String → Option Text → Files → Result Replaced
  fast_path path none files = full_walk files
  fast_path path (some old) files =
      apply_replacement path old >>= λ found. after_fast_path path found files

  -- `ReplaceObject`, with what the cache says.
  unfoldable pub replace_object : Option DocCacheValue → Files → Result Replaced
  unfolding walk_files read_file apply_replacement put_files record_matches
  replace_object none files = full_walk files
  replace_object (some remembered) files =
      if remembered.no_cache
      then full_walk files
      else fast_path remembered.path (read_file remembered.path files) files
