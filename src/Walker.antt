-- ===== src/Walker.antt =====
-- internal/walker: the YAML documents of the files of a repository, found, replaced and deleted. Of a
-- worktree there are its YAML files, by their paths from its root and in the order of the walk, with
-- their characters; all of them can be read. What an error leaves behind in them, and how it spells
-- the path, are left out. `is_space` is that of the package unicode; the YAML decoder is given by what
-- it finds of an object, and `guess` is UnsafeGuessKindToResource of the package meta.
pub mod Files
pub mod Document
pub mod Replaced
pub mod Reached
pub mod Cached
pub mod Found
pub mod Write
pub mod Written
use syngit.Common.{
  ℕ, zero, suc, ◌+◌, nat_beq, String, Bool, true, false, not, ◌&&◌, ◌||◌, Option, none, some, List,
  [], ◌∷◌, ◌++◌, ◌==◌, string_eq, nat_eq, text_eq, Text, codes, if◌then◌else◌, list_beq,
}
use syngit.Common.Errors.{Error, Result, ok, err, ◌>>=◌}
use syngit.Validation.{strip_prefix}

-- `ObjectSelector`, without the version of its resource.
pub record ObjectSelector : Type 0 where
  pub group : Text
  pub resource : Text
  pub name : Text
  pub namespace : Text
  pub comment_prefix : Text

-- What a document says of the object in it.
pub record Identity : Type 0 where
  pub api_version : Text
  pub kind : Text
  pub name : Text
  pub namespace : Text

abbrev pub newline : ℕ
newline = 10

abbrev pub slash : ℕ
slash = 47

abbrev pub doc_separator : Text
doc_separator = codes "\n---\n"

abbrev pub has_prefix : Text → Text → Bool
has_prefix prefix s = elim (strip_prefix prefix s) [ some rest ↦ true | none ↦ false ]

-- `bytes.TrimPrefix`
abbrev pub trim_prefix : Text → Text → Text
trim_prefix prefix s = elim (strip_prefix prefix s) [ some rest ↦ rest | none ↦ s ]

-- One more character for the first of the parts.
abbrev pub onto_first : ℕ → List Text → List Text
onto_first c [] = (c ∷ []) ∷ []
onto_first c (part ∷ parts) = (c ∷ part) ∷ parts

-- `bytes.Split(s, docSeparator)`; a separator that begins is skipped by a count.
unfoldable pub split_docs : ℕ → Text → List Text
unfolding strip_prefix
split_docs skip [] = [] ∷ []
split_docs (suc skip) (c ∷ s) = split_docs skip s
split_docs zero (c ∷ s) =
    let rest = split_docs 4 s in
    let more = split_docs zero s in
    if has_prefix doc_separator (c ∷ s) then [] ∷ rest else onto_first c more

-- `bytes.Join(docs, docSeparator)`
unfoldable pub join_docs : List Text → Text
join_docs [] = []
join_docs (doc ∷ []) = doc
join_docs (doc ∷ docs) = doc ++ doc_separator ++ join_docs docs

-- `bytes.TrimRight(s, "\n")`
unfoldable pub trim_newlines : Text → Text
trim_newlines [] = []
trim_newlines (c ∷ s) =
    let rest = trim_newlines s in
    elim rest [ [] ↦ if nat_beq c newline then [] else c ∷ [] | d ∷ t ↦ c ∷ (d ∷ t) ]

-- `bytes.HasSuffix(s, "\n")`
unfoldable pub ends_line : Text → Bool
ends_line [] = false
ends_line (c ∷ []) = nat_beq c newline
ends_line (c ∷ s) = ends_line s

abbrev pub is_empty_text : Text → Bool
is_empty_text [] = true
is_empty_text (c ∷ s) = false

abbrev pub terminate : Text → Text
terminate s = if not (is_empty_text s) && not (ends_line s) then s ++ newline ∷ [] else s

-- `strings.Cut`, at one character: what stands before it and behind it, if it is there.
unfoldable pub cut : ℕ → Text → Text × Option Text
cut at [] = ([], none)
cut at (c ∷ s) =
    let (before, behind) = cut at s in if nat_beq c at then ([], some s) else (c ∷ before, behind)

abbrev pub behind_or_empty : Option Text → Text
behind_or_empty none = []
behind_or_empty (some s) = s

-- `kindToResource`, over the guess that Kubernetes makes.
abbrev pub kind_to_resource : (Text → Text) → Text → Text
kind_to_resource guess [] = []
kind_to_resource guess (c ∷ s) = guess (c ∷ s)

module _ (is_space : ℕ → Bool) (decode : Text → Option Identity) (guess : Text → Text) where
  unfoldable pub trim_left : Text → Text
  trim_left [] = []
  trim_left (c ∷ s) = let rest = trim_left s in if is_space c then rest else c ∷ s

  unfoldable pub trim_right : Text → Text
  trim_right [] = []
  trim_right (c ∷ s) =
      let rest = trim_right s in
      elim rest [ [] ↦ if is_space c then [] else c ∷ [] | d ∷ t ↦ c ∷ (d ∷ t) ]

  -- `bytes.TrimSpace`
  abbrev pub trim_space : Text → Text
  trim_space s = trim_right (trim_left s)

  abbrev pub is_marker : Text → Text × Option Text → ObjectSelector → Bool
  is_marker value (before, none) sel = list_beq before sel.name && list_beq [] sel.namespace
  is_marker value (namespace, some name) sel =
      list_beq name sel.name && list_beq namespace sel.namespace

  -- The line of the comment, without the sign of a comment.
  abbrev pub marker_line : Text → Text
  marker_line doc = trim_space (trim_prefix (codes "#") (trim_space (cut newline doc).0))

  -- `matchComment`
  unfoldable pub match_comment : Text → ObjectSelector → Bool
  unfolding trim_left trim_right cut strip_prefix
  match_comment doc sel =
      not (is_empty_text sel.comment_prefix)
      && elim (strip_prefix sel.comment_prefix (marker_line doc)) [
        | none ↦ false
        | some value ↦ is_marker value (cut slash value) sel
      ]

  -- The group of an API version: what stands before a slash, if there is one.
  abbrev pub group_of : Text × Option Text → Text
  group_of (before, none) = []
  group_of (before, some version) = before

  abbrev pub match_identity : Option Identity → ObjectSelector → Bool
  match_identity none sel = false
  match_identity (some id) sel =
      not (is_empty_text id.api_version && is_empty_text id.kind)
      && (list_beq (group_of (cut slash id.api_version)) sel.group
          && (list_beq (kind_to_resource guess id.kind) sel.resource
              && (list_beq id.name sel.name
                  && (is_empty_text sel.namespace && list_beq id.namespace (codes "default")
                      || list_beq id.namespace sel.namespace))))

  -- `matchDoc`
  unfoldable pub match_doc : ObjectSelector → Text → Bool
  unfolding match_comment cut
  match_doc sel doc = match_comment doc sel || match_identity (decode doc) sel
