-- ===== src/Walker/Cached.antt =====
-- The fast path of a replacement, against the walk over all files (internal/walker/object.go).
use syngit.Common.{
  String, Bool, Option, none, some, [], Text, if◌then◌else◌, string_eq, ◌≡◌, refl, sym, ap, inl,
  inr, Bool-cases,
}
use syngit.Common.Errors.{Error, Result, ok, err, ◌>>=◌}
use syngit.Walker.{is_empty_text}
use syngit.Walker.Files.{
  DocTransform, ClaimedPaths, no_claims, Files, Walk, DocCacheValue, Replaced, delete,
  record_matches, read_file, apply_replacement, walk_files, full_walk, after_fast_path, fast_path,
  replace_object,
}
use syngit.Walker.Reached.{HasDistinctPaths, HoldsOnly, ends_with, walk_reaches}

-- What a replacement leaves, apart from the cache.
abbrev pub outcome : Result Replaced → Result (Files × ClaimedPaths)
outcome r = r >>= λ replaced. ok (replaced.files, replaced.claimed)

module _ (is_blank : Text → Bool) (disk : String → Option Error) (matches : Text → Bool)
    (transform : DocTransform) (content : Text) where
  -- The state a walk starts from.
  abbrev start : Walk
  start = record { files = []; claimed = no_claims; matched = [] }

  abbrev walk_outcome : Result Walk → Result (Files × ClaimedPaths)
  walk_outcome walked = outcome (
      walked >>= λ walk. ok (record {
        files = walk.files;
        claimed = walk.claimed;
        cache = if is_empty_text content then delete else record_matches walk.matched;
      }))

  outcome-after_fast_path :
      (path : String) (old : Text) (files : Files) (r : Result (Option Files))
      → apply_replacement is_blank disk matches transform content path old ≡ r
      → walk_files is_blank disk matches transform content files start ≡ (
          r >>= λ found.
          ok (ends_with is_blank disk matches transform content path files start found))
      → outcome
          (r >>= λ found. after_fast_path is_blank disk matches transform content path found files)
        ≡ outcome (full_walk is_blank disk matches transform content files)
  outcome-after_fast_path path old files (err e) found walked = ap walk_outcome (sym walked)
  outcome-after_fast_path path old files (ok none) found walked = refl
  outcome-after_fast_path path old files (ok (some new)) found walked = ap walk_outcome (sym walked)

  outcome-fast_path :
      (path : String) (read : Option Text) (files : Files)
      → read_file path files ≡ read
      → HasDistinctPaths files
      → HoldsOnly matches path files
      → outcome (fast_path is_blank disk matches transform content path read files)
        ≡ outcome (full_walk is_blank disk matches transform content files)
  outcome-fast_path path none files at distinct only = refl
  outcome-fast_path path (some old) files at distinct only =
      outcome-after_fast_path path old files
        (apply_replacement is_blank disk matches transform content path old) refl
        (walk_reaches is_blank disk matches transform content path old files start distinct only at)

  -- The remembered path spares the walk and changes nothing: where no other file holds a document that
  -- matches, a replacement by the remembered path, whether the path is still there, still matches or
  -- neither, has the files, the claims and the error that a walk over all the files has.
  pub replace_object-outcome :
      (remembered : DocCacheValue) (files : Files)
      → HasDistinctPaths files
      → HoldsOnly matches remembered.path files
      → outcome (replace_object is_blank disk matches transform content (some remembered) files)
        ≡ outcome (replace_object is_blank disk matches transform content none files)
  unfolding replace_object
  replace_object-outcome remembered files distinct only = elim (Bool-cases remembered.no_cache) [
    | inl never ↦ rw (never) refl
    | inr single ↦ rw (single) (
        outcome-fast_path remembered.path (read_file remembered.path files) files refl distinct
          only)
  ]
