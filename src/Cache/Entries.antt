-- ===== src/Cache/Entries.antt =====
-- The entries of the cache (internal/cache/lfu.go): distinct keys, and counters below the cap.
use syngit.Common.{
  ◌+◌, ◌≤◌, ◌<◌, true, false, none, List, [], ◌∷◌, Eq, ◌==◌, length, ◌≡◌, refl, sym, ap, ◌∙◌, inl,
  inr, Bool-cases, arith, All, All-map, contains,
}
use syngit.Cache.{Entry, use_count_cap, halve, lookup, remove, bump, assign, touch, at_cap}

module _ {ℓ} {K V : Type ℓ} where
  unfoldable pub keys : List (K × Entry V) → List K
  keys [] = []
  keys ((k, e) ∷ es) = k ∷ keys es

  pub length-keys : (es : List (K × Entry V)) → length (keys es) ≡ length es
  unfolding keys
  length-keys [] = refl
  length-keys ((k, e) ∷ es) = omega (arith, length-keys es)

  -- Every counter is below the cap.
  abbrev pub Bounded : List (K × Entry V) → Type 0
  Bounded = All (λ (p : K × Entry V). p.1.use_count < use_count_cap)

  keys-halve : (es : List (K × Entry V)) → keys (halve es) ≡ keys es
  unfolding halve keys
  keys-halve [] = refl
  keys-halve ((k, e) ∷ es) = ap (λ t. k ∷ t) (keys-halve es)

  Bounded-halve :
      (es : List (K × Entry V))
      → All (λ (p : K × Entry V). p.1.use_count < use_count_cap + use_count_cap) es
      → Bounded (halve es)
  unfolding halve
  Bounded-halve [] h = tt
  Bounded-halve ((k, e) ∷ es) h = (omega (arith, h.0), Bounded-halve es h.1)

-- No key stands twice.
unfoldable pub Distinct {ℓ} : {K : Type ℓ} ⦃e' : Eq K⦄ → List K → Type 0
Distinct [] = Unit
Distinct (k ∷ ks) = (contains ks k ≡ false) × Distinct ks

module _ {ℓ} {K V : Type ℓ} ⦃e' : Eq K⦄ where
  keys-bump : (key : K) (es : List (K × Entry V)) → keys (bump key es) ≡ keys es
  unfolding bump keys
  keys-bump key [] = refl
  keys-bump key ((k, e) ∷ es) = elim (Bool-cases (k == key)) [
    | inl same ↦ rw same refl
    | inr other ↦ rw other (ap (λ t. k ∷ t) (keys-bump key es))
  ]

  pub keys-assign : (key : K) (v : V) (es : List (K × Entry V)) → keys (assign key v es) ≡ keys es
  unfolding assign keys
  keys-assign key v [] = refl
  keys-assign key v ((k, e) ∷ es) = elim (Bool-cases (k == key)) [
    | inl same ↦ rw same refl
    | inr other ↦ rw other (ap (λ t. k ∷ t) (keys-assign key v es))
  ]

  pub keys-touch : (key : K) (es : List (K × Entry V)) → keys (touch key es) ≡ keys es
  unfolding touch
  keys-touch key es = elim (Bool-cases (at_cap (lookup key (bump key es)))) [
    | inl full ↦ rw full (keys-halve (bump key es) ∙ keys-bump key es)
    | inr few ↦ rw few (keys-bump key es)
  ]

  -- A bumped counter is at most the cap.
  bump-le :
      (key : K) (es : List (K × Entry V))
      → Bounded es
      → All (λ (p : K × Entry V). p.1.use_count < use_count_cap + use_count_cap) (bump key es)
  unfolding bump
  bump-le key [] h = tt
  bump-le key ((k, e) ∷ es) h = elim (Bool-cases (k == key)) [
    | inl same ↦ rw same (omega (arith, h.0), All-map _ _ es (λ p q. omega (arith, q)) h.1)
    | inr other ↦ rw other (omega (arith, h.0), bump-le key es h.1)
  ]

  Bounded-bump :
      (key : K) (es : List (K × Entry V))
      → Bounded es
      → at_cap (lookup key (bump key es)) ≡ false
      → Bounded (bump key es)
  unfolding bump lookup
  Bounded-bump key [] h few = tt
  Bounded-bump key ((k, e) ∷ es) h few = elim (Bool-cases (k == key)) [
    | inl same ↦ rw same (ground (arith, same, few), h.1)
    | inr other ↦ rw other (h.0, Bounded-bump key es h.1 (ground (arith, other, few)))
  ]

  pub Bounded-touch : (key : K) (es : List (K × Entry V)) → Bounded es → Bounded (touch key es)
  unfolding touch
  Bounded-touch key es h = elim (Bool-cases (at_cap (lookup key (bump key es)))) [
    | inl full ↦ rw full (Bounded-halve (bump key es) (bump-le key es h))
    | inr few ↦ rw few (Bounded-bump key es h few)
  ]

  pub Bounded-assign :
      (key : K) (v : V) (es : List (K × Entry V)) → Bounded es → Bounded (assign key v es)
  unfolding assign
  Bounded-assign key v [] h = tt
  Bounded-assign key v ((k, e) ∷ es) h = elim (Bool-cases (k == key)) [
    | inl same ↦ rw same h
    | inr other ↦ rw other (h.0, Bounded-assign key v es h.1)
  ]

  pub Bounded-remove : (key : K) (es : List (K × Entry V)) → Bounded es → Bounded (remove key es)
  unfolding remove
  Bounded-remove key [] h = tt
  Bounded-remove key ((k, e) ∷ es) h = elim (Bool-cases (k == key)) [
    | inl same ↦ rw same (Bounded-remove key es h.1)
    | inr other ↦ rw other (h.0, Bounded-remove key es h.1)
  ]

  pub contains-remove :
      (key other : K) (es : List (K × Entry V))
      → contains (keys es) other ≡ false
      → contains (keys (remove key es)) other ≡ false
  unfolding remove keys
  contains-remove key other [] h = h
  contains-remove key other ((k, e) ∷ es) h = ground (arith, contains-remove key other es)

  pub Distinct-remove :
      (key : K) (es : List (K × Entry V)) → Distinct (keys es) → Distinct (keys (remove key es))
  unfolding remove keys Distinct
  Distinct-remove key [] h = tt
  Distinct-remove key ((k, e) ∷ es) h = elim (Bool-cases (k == key)) [
    | inl same ↦ rw same (Distinct-remove key es h.1)
    | inr other ↦ rw other (contains-remove key k es h.0, Distinct-remove key es h.1)
  ]

  -- Distinct keys that are all the same are one at most.
  pub same-le :
      (except : K) (es : List (K × Entry V))
      → Distinct (keys es)
      → All (λ (p : K × Entry V). (p.0 == except) ≡ true) es
      → length es ≤ 1
  unfolding Distinct keys
  same-le except [] d h = omega arith
  same-le except (p ∷ []) d h = omega arith
  same-le except ((k, e) ∷ (k', e'') ∷ es) d h =
      let one = (e'.beq_iff k except).0 h.0 in
      let two = (e'.beq_iff k' except).0 h.1.0 in
      absurd (ground (arith, d.0, (e'.beq_iff k' k).1 (two ∙ sym one)))

  pub length-touch : (key : K) (es : List (K × Entry V)) → length (touch key es) ≡ length es
  length-touch key es =
      sym (length-keys (touch key es)) ∙ ap length (keys-touch key es) ∙ length-keys es

  contains-lookup :
      (key : K) (es : List (K × Entry V)) → lookup key es ≡ none → contains (keys es) key ≡ false
  unfolding lookup keys
  contains-lookup key [] h = refl
  contains-lookup key ((k, e) ∷ es) h = ground (arith, contains-lookup key es)

  pub Distinct-cons :
      (key : K) (entry : Entry V) (es : List (K × Entry V))
      → lookup key es ≡ none
      → Distinct (keys es)
      → Distinct (keys ((key, entry) ∷ es))
  unfolding Distinct keys
  Distinct-cons key entry es absent d = (contains-lookup key es absent, d)

  pub length-assign :
      (key : K) (v : V) (es : List (K × Entry V)) → length (assign key v es) ≡ length es
  length-assign key v es =
      sym (length-keys (assign key v es)) ∙ ap length (keys-assign key v es) ∙ length-keys es
