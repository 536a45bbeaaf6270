-- ===== src/Naming.antt =====
-- pkg/naming/sanitize.go: names that Kubernetes takes, of texts given by their characters.
pub mod Target
use syngit.Common.{
  ℕ, leb, nat_beq, Bool, true, false, ◌&&◌, ◌||◌, Option, none, some, List, [], ◌∷◌, map, Text,
  if◌then◌else◌,
}

abbrev dash : ℕ
dash = 45

abbrev dot : ℕ
dot = 46

-- `[a-z0-9]`
pub is_alphanumeric : ℕ → Bool
is_alphanumeric c = leb 97 c && leb c 122 || leb 48 c && leb c 57

-- `[a-z0-9\.-]`
unfoldable pub is_allowed : ℕ → Bool
unfolding is_alphanumeric
is_allowed c = is_alphanumeric c || nat_beq c dot || nat_beq c dash

-- Where a match of the valid pattern stands: before a label, behind a letter or digit, behind a dash.
pub data Place : Type 0 where
  before_label : Place
  in_label : Place
  behind_dash : Place

step : Place → ℕ → Option Place
unfolding is_alphanumeric
step before_label c = if is_alphanumeric c then some in_label else none
step in_label c =
    if is_alphanumeric c
    then some in_label
    else if nat_beq c dash
    then some behind_dash
    else if nat_beq c dot
    then some before_label
    else none
step behind_dash c =
    if is_alphanumeric c then some in_label else if nat_beq c dash then some behind_dash else none

matches : Option Place → Text → Bool
unfolding step
matches none cs = false
matches (some in_label) [] = true
matches (some before_label) [] = false
matches (some behind_dash) [] = false
matches (some place) (c ∷ cs) = matches (step place c) cs

-- `validPattern`
unfoldable pub is_valid : Text → Bool
unfolding matches
is_valid = matches (some before_label)

-- What `allowedChars` replaces.
keep_allowed : ℕ → ℕ
unfolding is_allowed
keep_allowed c = if is_allowed c then c else dash

-- `SoftSanitize`; `to_lower` is that of the package unicode.
unfoldable pub soft_sanitize : (ℕ → ℕ) → Text → Text
unfolding is_valid keep_allowed
soft_sanitize to_lower input =
    if is_valid input then input else map keep_allowed (map to_lower input)
