-- ===== src/Render.antt =====
-- pkg/render: what of an intercepted object is committed. JSON values are trees; a Go map is a list
-- of fields, whose order plays no part.
pub mod Paths
pub mod Removal
pub mod Manifest
use syngit.Common.{
  ℕ, Bool, true, false, Text, codes, text_eq, list_beq, nat_beq, Option, none, some, List, [], ◌∷◌,
  ◌++◌, ◌==◌, if◌then◌else◌,
}

mutual
  pub data Value : Type 0 where
    null : Value
    boolean : Bool → Value
    number : Text → Value
    text : Text → Value
    array : Items → Value
    object : Fields → Value

  pub data Items : Type 0 where
    nil : Items
    cons : Value → Items → Items

  pub data Fields : Type 0 where
    end : Fields
    field : Text → Value → Fields → Fields

-- `m[key]`
abbrev pub lookup : Text → Fields → Option Value
lookup key end = none
lookup key (field k v m) = if k == key then some v else lookup key m

-- `delete(m, key)`
pub delete : Text → Fields → Fields
delete key end = end
delete key (field k v m) = let rest = delete key m in if k == key then rest else field k v rest

-- `m[key] = v` where the key is present.
pub replace : Text → Value → Fields → Fields
replace key v end = end
replace key v (field k w m) = if k == key then field k v m else field k w (replace key v m)

-- The scan of a field path: the parts so far, the current part and whether it stands in brackets.
flush : List Text → Text → List Text
flush parts [] = parts
flush parts (c ∷ current) = parts ++ (c ∷ current) ∷ []

pub record Scan : Type 0 where
  pub parts : List Text
  pub current : Text
  pub in_brackets : Bool

-- The switch on one character.
step : Scan → ℕ → Scan
unfolding flush
step s c =
    if nat_beq c b'.'
    then (if s.in_brackets
        then record s { current = s.current ++ c ∷ [] }
        else record s { parts = flush s.parts s.current; current = [] })
    else if nat_beq c b'['
    then record { parts = flush s.parts s.current; current = []; in_brackets = true }
    else if nat_beq c b']'
    then record { parts = flush s.parts s.current; current = []; in_brackets = false }
    else record s { current = s.current ++ c ∷ [] }

scan : Text → Scan → Scan
unfolding step
scan [] s = s
scan (c ∷ path) s = scan path (step s c)

-- The keys that a path names, outermost first.
unfoldable pub path_parts : Text → List Text
unfolding scan
path_parts path =
    let s = scan path (record { parts = []; current = []; in_brackets = false }) in
    flush s.parts s.current

-- The walk along the parts: nothing changes where one is missing or is no object.
descend : Text → Option Value → (Fields → Fields) → Fields → Fields
unfolding replace
descend key (some (object m)) f fields = replace key (object (f m)) fields
descend key _ f fields = fields

pub remove_parts : List Text → Fields → Fields
unfolding descend delete
remove_parts [] fields = fields
remove_parts (part ∷ []) fields = delete part fields
remove_parts (part ∷ next ∷ parts) fields =
    descend part (lookup part fields) (remove_parts (next ∷ parts)) fields

unfoldable pub remove_excluded_field : Fields → Text → Fields
unfolding path_parts remove_parts
remove_excluded_field fields path = remove_parts (path_parts path) fields

abbrev timestamp_in : Option Value → Bool
timestamp_in (some (object metadata)) = elim (lookup (codes "deletionTimestamp") metadata) [
  | none ↦ false
  | some _ ↦ true
]
timestamp_in _ = false

unfoldable pub contains_deletion_timestamp : Fields → Bool
contains_deletion_timestamp fields = timestamp_in (lookup (codes "metadata") fields)
