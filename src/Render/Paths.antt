-- ===== src/Render/Paths.antt =====
-- Field paths (RemoveExcludedField of pkg/render/excludedfields.go): what `path_parts` reads.
use mathlib.Core.List.{append_assoc, append-nil}
use syngit.Common.{
  ℕ, Bool, true, false, not, ◌||◌, Text, nat_beq, List, [], ◌∷◌, ◌++◌, ◌≡◌, ◌≢◌, refl, map, ◌∙◌,
  arith, All, all,
}
use syngit.Render.{Scan, path_parts, scan, flush}

-- A character without a meaning in a path.
abbrev pub is_plain : ℕ → Bool
is_plain c = not (nat_beq c b'.' || (nat_beq c b'[' || nat_beq c b']'))

-- Anything but a closing bracket may stand in brackets; an opening one starts a new part.
abbrev pub is_inner : ℕ → Bool
is_inner c = not (nat_beq c b'[' || nat_beq c b']')

abbrev outside : List Text → Text → Scan
outside parts current = record { parts = parts; current = current; in_brackets = false }

abbrev inside : List Text → Text → Scan
inside parts current = record { parts = parts; current = current; in_brackets = true }

scan-plain :
    (key rest : Text) (parts : List Text) (current : Text)
    → all is_plain key ≡ true
    → scan (key ++ rest) (outside parts current) ≡ scan rest (outside parts (current ++ key))
unfolding scan
scan-plain [] rest parts current h = rw append-nil
scan-plain (c ∷ key) rest parts current h =
    ground (arith, scan-plain key rest parts (current ++ c ∷ []), append_assoc current (c ∷ []) key)

scan-inner :
    (key rest : Text) (parts : List Text) (current : Text)
    → all is_inner key ≡ true
    → scan (key ++ rest) (inside parts current) ≡ scan rest (inside parts (current ++ key))
unfolding scan
scan-inner [] rest parts current h = rw append-nil
scan-inner (c ∷ key) rest parts current h =
    ground (arith, scan-inner key rest parts (current ++ c ∷ []), append_assoc current (c ∷ []) key)

-- A path as a user writes it: `.key` or `[key]`, one after another.
pub data Part : Type 0 where
  dotted : Text → Part
  bracketed : Text → Part

abbrev pub print : List Part → Text
print [] = []
print (dotted key ∷ ps) = b'.' ∷ (key ++ print ps)
print (bracketed key ∷ ps) = b'[' ∷ (key ++ (b']' ∷ print ps))

abbrev pub key_of : Part → Text
key_of (dotted key) = key
key_of (bracketed key) = key

abbrev pub IsWritten : Part → Type 0
IsWritten (dotted key) = (key ≢ []) × (all is_plain key ≡ true)
IsWritten (bracketed key) = (key ≢ []) × (all is_inner key ≡ true)

flush-key : (parts : List Text) (key : Text) → key ≢ [] → flush parts key ≡ parts ++ key ∷ []
unfolding flush
flush-key parts [] h = absurd (h refl)
flush-key parts (c ∷ key) h = refl

abbrev finish : Scan → List Text
finish s = flush s.parts s.current

scan-print :
    (ps : List Part) (parts : List Text) (current : Text)
    → All IsWritten ps
    → finish (scan (print ps) (outside parts current)) ≡ flush parts current ++ map key_of ps
unfolding scan
scan-print [] parts current h = rw append-nil
scan-print (dotted key ∷ ps) parts current h =
    rw (scan-plain key (print ps) (flush parts current) [] h.0.1) (
      scan-print ps (flush parts current) key h.1
      ∙ (rw (flush-key (flush parts current) key h.0.0)
          (append_assoc (flush parts current) (key ∷ []) (map key_of ps))))
scan-print (bracketed key ∷ ps) parts current h =
    rw (scan-inner key (b']' ∷ print ps) (flush parts current) [] h.0.1) (
      scan-print ps (flush (flush parts current) key) [] h.1
      ∙ (rw (flush-key (flush parts current) key h.0.0)
          (append_assoc (flush parts current) (key ∷ []) (map key_of ps))))

-- The parts of a path written with dots and brackets are the keys that it was written from, if none is
-- empty, a dotted key holds no dot or bracket, and a bracketed one no bracket.
pub path_parts-print : (ps : List Part) → All IsWritten ps → path_parts (print ps) ≡ map key_of ps
unfolding path_parts
path_parts-print ps h = scan-print ps [] [] h
