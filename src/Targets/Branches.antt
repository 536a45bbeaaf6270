-- ===== src/Targets/Branches.antt =====
-- pkg/managed/annotations.go: the branches that an annotation lists.
use Prim.Native.Char.{code, Char}
use syngit.Common.{nat_beq, String, Bool, true, false, List, [], ◌∷◌, if◌then◌else◌}

-- One more character for the first of the parts.
abbrev prepend : Char → List String → List String
prepend c [] = []
prepend c (part ∷ parts) = String.◌∷◌ c part ∷ parts

-- `strings.Split(strings.ReplaceAll(in, " ", ""), ",")`
pub split : String → List String
split String.[] = "" ∷ []
split (String.◌∷◌ c s) =
    let rest = split s in
    if nat_beq (code c) 32 then rest else if nat_beq (code c) 44 then "" ∷ rest else prepend c rest

abbrev pub is_blank : List String → Bool
is_blank (String.[] ∷ []) = true
is_blank _ = false

-- `BranchesFromAnnotation`
unfoldable pub branches_from_annotation : String → List String
unfolding split
branches_from_annotation s = if is_blank (split s) then [] else split s
