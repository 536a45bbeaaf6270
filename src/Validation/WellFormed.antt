-- ===== src/Validation/WellFormed.antt =====
-- What the patterns of the validation stand for (internal/webhook/v1beta5/syncer_webhook.go): git
-- URIs and paths into YAML, as grammars.
use mathlib.Core.Path.{subst}
use syngit.Common.{
  ℕ, nat_beq, nat_beq_iff, Bool, true, false, ◌||◌, Option, none, some, [], ◌∷◌, ◌++◌, nat_eq, Text,
  codes, ◌≡◌, ◌≢◌, ◌↔◌, ◌⊎◌, refl, sym, ap, ◌∙◌, inl, inr, All, arith,
}
use syngit.Validation.{
  strip_prefix, no_space, location, is_git_uri, is_path_char, matches_path, is_valid_yaml_path,
}

-- A scheme, and a location of at least one character, none of them a space.
abbrev pub IsAfter : Text → Text → Type 0
IsAfter scheme s = (c : ℕ) × (cs : Text) × (s ≡ scheme ++ (c ∷ cs)) × All (λ x. x ≢ 32) (c ∷ cs)

abbrev pub IsGitUri : Text → Type 0
IsGitUri s = IsAfter (codes "http://") s ⊎ IsAfter (codes "https://") s ⊎ IsAfter (codes "git://") s

-- `[a-zA-Z0-9_./:-]`, and the same with a star.
abbrev pub IsPathChar : ℕ → Type 0
IsPathChar c = is_path_char c ≡ true

abbrev pub IsInnerChar : ℕ → Type 0
IsInnerChar c = (is_path_char c || nat_beq c 42) ≡ true

-- A path: characters and bracketed parts, in any order.
pub data IsYamlPath : Text → Type 0 where
  nil : IsYamlPath []
  plain : {c : ℕ} {s : Text} → IsPathChar c → IsYamlPath s → IsYamlPath (c ∷ s)
  bracket :
      {s : Text} (inner rest : Text)
      → s ≡ 91 ∷ (inner ++ (93 ∷ rest))
      → All IsInnerChar inner
      → IsYamlPath rest
      → IsYamlPath s

-- A test that leads on, or a second one.
which :
    (b k r1 r2 : Bool)
    → elim b as (λ x. Bool) [
      | true ↦ r1
      | false ↦ elim k as (λ x. Bool) [ true ↦ r2 | false ↦ false ]
    ]
      ≡ true
    → ((b ≡ true) × (r1 ≡ true)) ⊎ ((k ≡ true) × (r2 ≡ true))
which true k r1 r2 h = inl (refl, h)
which false true r1 r2 h = inr (refl, h)
which false false r1 r2 h = absurd cc

-- What is left behind the place of a match.
Rest : Bool → Text → Type 0
Rest false s = IsYamlPath s
Rest true s =
    (inner : Text) × (rest : Text) × (s ≡ inner ++ (93 ∷ rest))
    × All IsInnerChar inner
    × IsYamlPath rest

matches_path-Rest : (inside : Bool) (s : Text) → matches_path inside s ≡ true → Rest inside s
unfolding matches_path Rest
matches_path-Rest false [] h = nil
matches_path-Rest true [] h = absurd cc
matches_path-Rest false (c ∷ cs) h =
    elim (which (is_path_char c) (nat_beq c 91) (matches_path false cs) (matches_path true cs) h) [
      | inl (good, rest) ↦ plain good (matches_path-Rest false cs rest)
      | inr (open_, rest) ↦
          let (inner, after, e, all, path) = matches_path-Rest true cs rest in
          bracket inner after
            (ap (λ (x : ℕ). x ∷ cs) ((nat_beq_iff c 91).0 open_) ∙ ap (λ (t : Text). 91 ∷ t) e) all
            path
    ]
matches_path-Rest true (c ∷ cs) h =
    elim (which (is_path_char c || nat_beq c 42) (nat_beq c 93) (matches_path true cs)
      (matches_path false cs) h) [
        | inl (good, rest) ↦
            let (inner, after, e, all, path) = matches_path-Rest true cs rest in
            (c ∷ inner, after, ap (λ (t : Text). c ∷ t) e, (good, all), path)
        | inr (close, rest) ↦ (
          [],
          cs,
          ap (λ (x : ℕ). x ∷ cs) ((nat_beq_iff c 93).0 close),
          tt,
          matches_path-Rest false cs rest,
        )
      ]

inner_match :
    (inner rest : Text)
    → All IsInnerChar inner
    → matches_path true (inner ++ (93 ∷ rest)) ≡ matches_path false rest
unfolding matches_path is_path_char
inner_match [] rest h = refl
inner_match (c ∷ inner) rest h = rw (h.0, matches_path) (inner_match inner rest h.1)

IsYamlPath-match : {s : Text} → IsYamlPath s → matches_path false s ≡ true
unfolding matches_path
IsYamlPath-match nil = refl
IsYamlPath-match (plain {c} {s} h p) = rw (h, matches_path) (IsYamlPath-match p)
IsYamlPath-match (bracket inner rest e h p) =
    subst (λ t. matches_path false t ≡ true) (sym e) (inner_match inner rest h ∙ IsYamlPath-match p)

pub is_valid_yaml_path_iff : (s : Text) → (is_valid_yaml_path s ≡ true) ↔ IsYamlPath s
unfolding is_valid_yaml_path Rest
is_valid_yaml_path_iff s = (matches_path-Rest false s, IsYamlPath-match)

pub strip_prefix_iff : (p s : Text) (r : Text) → (strip_prefix p s ≡ some r) ↔ (s ≡ p ++ r)
unfolding strip_prefix
strip_prefix_iff [] s r = (λ h. cc, λ h. cc)
strip_prefix_iff (x ∷ p) [] r = (λ h. cc, λ h. cc)
strip_prefix_iff (x ∷ p) (c ∷ s) r = ground (arith, strip_prefix_iff p s r)

no_space_iff : (s : Text) → (no_space s ≡ true) ↔ All (λ x. x ≢ 32) s
no_space_iff [] = (λ h. tt, λ h. refl)
no_space_iff (c ∷ cs) = ground (arith, no_space_iff cs)

location-IsAfter :
    (o : Option Text)
    → location o ≡ true
    → (c : ℕ) × (cs : Text) × (o ≡ some (c ∷ cs)) × All (λ x. x ≢ 32) (c ∷ cs)
location-IsAfter none h = absurd cc
location-IsAfter (some []) h = absurd cc
location-IsAfter (some (c ∷ cs)) h = (c, cs, refl, (no_space_iff (c ∷ cs)).0 h)

location_iff : (p s : Text) → (location (strip_prefix p s) ≡ true) ↔ IsAfter p s
location_iff p s = (
  λ h.
      let (c, cs, at, clean) = location-IsAfter (strip_prefix p s) h in
      (c, cs, (strip_prefix_iff p s (c ∷ cs)).0 at, clean),
  λ (c, cs, e, clean).
      subst (λ o. location o ≡ true) (sym ((strip_prefix_iff p s (c ∷ cs)).1 e))
        ((no_space_iff (c ∷ cs)).1 clean),
)

or_iff :
    {P Q R : Type 0} (a b c : Bool)
    → (a ≡ true) ↔ P
    → (b ≡ true) ↔ Q
    → (c ≡ true) ↔ R
    → ((a || b || c) ≡ true) ↔ (P ⊎ Q ⊎ R)
or_iff true b c p q r = (λ h. inl (p.0 refl), λ h. refl)
or_iff false true c p q r = (λ h. inr (inl (q.0 refl)), λ h. refl)
or_iff false false true p q r = (λ h. inr (inr (r.0 refl)), λ h. refl)
or_iff false false false p q r =
    (λ h. cc, λ h. elim h [ inl x ↦ p.1 x | inr (inl x) ↦ q.1 x | inr (inr x) ↦ r.1 x ])

pub is_git_uri_iff : (s : Text) → (is_git_uri s ≡ true) ↔ IsGitUri s
unfolding is_git_uri
is_git_uri_iff s =
    or_iff _ _ _ (location_iff (codes "http://") s) (location_iff (codes "https://") s)
      (location_iff (codes "git://") s)
