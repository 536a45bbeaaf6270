-- ===== src/Tests/WalkerTests.antt =====
-- Runs of the walk over a worktree of two files, by the comments of their documents.
use syngit.Common.{
  ℕ, Bool, true, false, Option, none, some, [], ◌∷◌, ◌==◌, string_eq, nat_eq, Text, codes, ◌≡◌,
  refl, inl, inr,
}
use syngit.Common.Errors.{ok}
use syngit.Walker.{ObjectSelector, Identity, match_doc}
use syngit.Walker.Files.{
  DocCacheValue, Files, replace_doc_in_content_func, find_object, replace_object,
}
use syngit.Walker.Replaced.{IsMerged, replace_doc_in_content_func-IsMerged}
use syngit.Walker.Write.{write_object_at_path}
use syngit.Walker.Written.{IsWritten, write_object_at_path-IsWritten}
use syngit.Walker.Found.{IsFoundIn, find_object-IsFoundIn}
use syngit.Walker.Cached.{outcome, replace_object-outcome}

abbrev is_space : ℕ → Bool
is_space c = c == 32

-- No document is decoded: they are found by their comments.
abbrev undecoded : Text → Option Identity
undecoded doc = none

abbrev same : Text → Text
same kind = kind

abbrev app : ObjectSelector
app = record {
  group = [];
  resource = [];
  name = codes "app";
  namespace = codes "team";
  comment_prefix = codes "syngit:";
}

abbrev matches : Text → Bool
matches = match_doc is_space undecoded same app

abbrev two_docs : Text
two_docs = codes "# other\na: 1\n---\n# syngit:team/app\nb: 2\n"

abbrev one_doc : Text
one_doc = codes "# syngit:team/web\nc: 3\n"

abbrev worktree : Files
worktree = ("web.yaml", one_doc) ∷ ("app.yaml", two_docs) ∷ []

match_other : match_doc is_space undecoded same app one_doc ≡ false
unfolding match_doc
match_other = refl

replace_second :
    replace_doc_in_content_func matches none "app.yaml" (codes "# syngit:team/app\nb: 4\n") two_docs
    ≡ ok (some (codes "# other\na: 1\n---\n# syngit:team/app\nb: 4\n"))
unfolding replace_doc_in_content_func match_doc syngit.Walker.ends_line
replace_second = refl

delete_second :
    replace_doc_in_content_func matches none "app.yaml" [] two_docs
    ≡ ok (some (codes "# other\na: 1\n"))
unfolding replace_doc_in_content_func match_doc syngit.Walker.ends_line
delete_second = refl

replace_doc_in_content_func-IsMerged_example :
    IsMerged matches none "app.yaml"
      (codes "# syngit:team/app\nb: 4\n")
      two_docs
      (some (codes "# other\na: 1\n---\n# syngit:team/app\nb: 4\n"))
replace_doc_in_content_func-IsMerged_example =
    replace_doc_in_content_func-IsMerged matches none "app.yaml" (codes "# syngit:team/app\nb: 4\n")
      two_docs (some (codes "# other\na: 1\n---\n# syngit:team/app\nb: 4\n")) replace_second

abbrev is_blank : Text → Bool
is_blank [] = true
is_blank (c ∷ s) = false

abbrev remembered : DocCacheValue
remembered = record { path = "app.yaml"; no_cache = false }

replace_object-outcome_example :
    outcome (
      replace_object is_blank
        (λ path. none)
        matches
        none
        (codes "# syngit:team/app\nb: 4\n")
        (some remembered)
        worktree)
    ≡ outcome (
        replace_object is_blank
          (λ path. none)
          matches
          none
          (codes "# syngit:team/app\nb: 4\n")
          none
          worktree)
unfolding match_doc syngit.Walker.split_docs
replace_object-outcome_example =
    replace_object-outcome is_blank (λ path. none) matches none (codes "# syngit:team/app\nb: 4\n")
      remembered worktree ((refl, tt), (tt, tt)) (inr refl, (inl refl, tt))

find_app : find_object matches worktree ≡ some ("app.yaml", codes "# syngit:team/app\nb: 2\n")
unfolding match_doc find_object
find_app = refl

find_object-IsFoundIn_example : IsFoundIn matches worktree (find_object matches worktree)
find_object-IsFoundIn_example = find_object-IsFoundIn matches worktree

-- A copy that has come to stand before the remembered file is not written.
copy_is_kept :
    outcome (
      replace_object is_blank
        (λ path. none)
        matches
        none
        (codes "# syngit:team/app\nb: 4\n")
        (some remembered)
        (("copy.yaml", codes "# syngit:team/app\nb: 2\n") ∷ worktree))
    ≡ ok (
      ("copy.yaml", codes "# syngit:team/app\nb: 2\n")
          ∷ ("web.yaml", one_doc)
          ∷ ("app.yaml", codes "# other\na: 1\n---\n# syngit:team/app\nb: 4\n")
          ∷ [],
      record { add = "app.yaml" ∷ []; delete = [] },
    )
unfolding match_doc replace_object syngit.Walker.ends_line
copy_is_kept = refl

abbrev web_doc : Text
web_doc = codes "# syngit:team/app\nb: 4\n"

-- No document of the file matches: the new one comes behind them.
write_behind :
    write_object_at_path (λ path. none) matches none web_doc "web.yaml" worktree
    ≡ ok (
      ("web.yaml", codes "# syngit:team/web\nc: 3\n---\n# syngit:team/app\nb: 4\n")
          ∷ ("app.yaml", two_docs)
          ∷ [],
      record { add = "web.yaml" ∷ []; delete = [] },
    )
unfolding match_doc write_object_at_path syngit.Walker.ends_line
write_behind = refl

write_object_at_path-IsWritten_example :
    IsWritten
      (λ path. none)
      matches
      none
      web_doc
      "web.yaml"
      worktree
      (
        ("web.yaml", codes "# syngit:team/web\nc: 3\n---\n# syngit:team/app\nb: 4\n")
            ∷ ("app.yaml", two_docs)
            ∷ [],
        record { add = "web.yaml" ∷ []; delete = [] },
      )
write_object_at_path-IsWritten_example =
    write_object_at_path-IsWritten (λ path. none) matches none web_doc "web.yaml" worktree
      (
        ("web.yaml", codes "# syngit:team/web\nc: 3\n---\n# syngit:team/app\nb: 4\n")
            ∷ ("app.yaml", two_docs)
            ∷ [],
        record { add = "web.yaml" ∷ []; delete = [] },
      )
      refl write_behind
