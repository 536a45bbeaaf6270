-- ===== src/Cache/Reads.antt =====
-- What the cache (internal/cache/lfu.go) answers after a write.
use mathlib.Core.Path.{subst}
use syngit.Common.{
  ℕ, false, Option, none, some, List, [], ◌∷◌, Eq, ◌==◌, ◌⊎◌, length, ◌≡◌, refl, sym, ◌∙◌, inl, inr,
  Bool-cases, Option-cases, arith, beq_refl,
}
use syngit.Cache.{
  Entry, Lfu, lookup, remove, touch, bump, halve, assign, evict, insert, get, set, delete, at_cap,
}
use syngit.Cache.Eviction.{evict-keeps}

abbrev value_of {ℓ} : {V : Type ℓ} → Option (Entry V) → Option V
value_of none = none
value_of (some entry) = some entry.value

module _ {ℓ} {K V : Type ℓ} ⦃e' : Eq K⦄ where
  -- The value under a key.
  value_at : K → List (K × Entry V) → Option V
  value_at key es = value_of (lookup key es)

  value_at-halve : (key : K) (es : List (K × Entry V)) → value_at key (halve es) ≡ value_at key es
  unfolding value_at halve lookup
  value_at-halve key [] = refl
  value_at-halve key ((k, e) ∷ es) = ground (arith, value_at-halve key es)

  value_at-bump :
      (key other : K) (es : List (K × Entry V)) → value_at other (bump key es) ≡ value_at other es
  unfolding value_at bump lookup
  value_at-bump key other [] = refl
  value_at-bump key other ((k, e) ∷ es) = ground (arith, value_at-bump key other es)

  value_at-touch :
      (key other : K) (es : List (K × Entry V)) → value_at other (touch key es) ≡ value_at other es
  unfolding touch
  value_at-touch key other es = elim (Bool-cases (at_cap (lookup key (bump key es)))) [
    | inl full ↦ rw full (value_at-halve other (bump key es) ∙ value_at-bump key other es)
    | inr few ↦ rw few (value_at-bump key other es)
  ]

  value_at-assign :
      (key : K) (v : V) (es : List (K × Entry V)) {entry : Entry V}
      → lookup key es ≡ some entry
      → value_at key (assign key v es) ≡ some v
  unfolding value_at assign lookup
  value_at-assign key v [] h = cc
  value_at-assign key v ((k, e) ∷ es) h = elim (Bool-cases (k == key)) [
    | inl same ↦ ground (arith, same)
    | inr other ↦ ground (arith, other, value_at-assign key v es (rw other at h))
  ]

  value_at-assign_other :
      (key other : K) (v : V) (es : List (K × Entry V))
      → (key == other) ≡ false
      → value_at other (assign key v es) ≡ value_at other es
  unfolding value_at assign lookup
  value_at-assign_other key other v [] h = refl
  value_at-assign_other key other v ((k, e) ∷ es) h = ground (
    arith,
    e'.beq_iff k key,
    e'.beq_iff k other,
    e'.beq_iff key other,
    value_at-assign_other key other v es h,
  )

  value_at-remove : (key : K) (es : List (K × Entry V)) → value_at key (remove key es) ≡ none
  unfolding value_at remove lookup
  value_at-remove key [] = refl
  value_at-remove key ((k, e) ∷ es) = ground (arith, value_at-remove key es)

  value_at-remove_other :
      (key other : K) (es : List (K × Entry V))
      → (key == other) ≡ false
      → value_at other (remove key es) ≡ value_at other es
  unfolding value_at remove lookup
  value_at-remove_other key other [] h = refl
  value_at-remove_other key other ((k, e) ∷ es) h = ground (
    arith,
    e'.beq_iff k key,
    e'.beq_iff k other,
    e'.beq_iff key other,
    value_at-remove_other key other es h,
  )

  get-value_at : (c : Lfu K V) (key : K) → (get c key).1 ≡ value_at key c.entries
  unfolding get value_at
  get-value_at c key = elim (Option-cases (lookup key c.entries)) [
    | inl absent ↦ rw (absent, get) refl
    | inr (entry, at) ↦ rw (at, get) refl
  ]

  evict-value_at :
      (fuel max : ℕ) (except : K) (es : List (K × Entry V))
      → value_at except (evict fuel max except es) ≡ value_at except es
  evict-value_at fuel max except es =
      evict-keeps (λ es'. value_at except es' ≡ value_at except es) except
        (λ k es' other h. value_at-remove_other k except es' other ∙ h) fuel max es refl

  insert-value_at : (c : Lfu K V) (key : K) (v : V) → value_at key (insert key v c).entries ≡ some v
  unfolding insert value_at lookup
  insert-value_at c key v =
      let new = (key, record { value = v; use_count = 0 }) ∷ c.entries in
      let es = touch key new in
      evict-value_at (length es) c.max key es ∙ value_at-touch key key new ∙ rw (beq_refl key) refl

  set-value_at : (c : Lfu K V) (key : K) (v : V) → value_at key (set c key v).entries ≡ some v
  unfolding set
  set-value_at c key v = elim (Option-cases (lookup key c.entries)) [
    | inl absent ↦ rw (absent, set) (insert-value_at c key v)
    | inr (entry, at) ↦
        rw (at, set)
          (value_at-touch key key (assign key v c.entries) ∙ value_at-assign key v c.entries at)
  ]

  -- A read after `Set` returns the value that was set: the eviction never takes the new key.
  pub get-set : (c : Lfu K V) (key : K) (v : V) → (get (set c key v) key).1 ≡ some v
  get-set c key v = get-value_at (set c key v) key ∙ set-value_at c key v

  -- A read after `Delete` finds nothing.
  pub get-delete : (c : Lfu K V) (key : K) → (get (delete c key) key).1 ≡ none
  unfolding delete
  get-delete c key = get-value_at (delete c key) key ∙ value_at-remove key c.entries

  -- The value under the key is `o`, or there is none.
  IsOrGone : K → Option V → List (K × Entry V) → Type ℓ
  unfolding value_at
  IsOrGone other o es = (value_at other es ≡ o) ⊎ (value_at other es ≡ none)

  remove-IsOrGone :
      (other : K) (o : Option V) (k : K) (es : List (K × Entry V))
      → IsOrGone other o es
      → IsOrGone other o (remove k es)
  unfolding IsOrGone
  remove-IsOrGone other o k es h = elim (Bool-cases (k == other)) [
    | inl same ↦ inr (
        subst (λ x. value_at x (remove k es) ≡ none) ((e'.beq_iff k other).0 same)
          (value_at-remove k es))
    | inr away ↦ elim h [
      | inl kept ↦ inl (value_at-remove_other k other es away ∙ kept)
      | inr gone ↦ inr (value_at-remove_other k other es away ∙ gone)
    ]
  ]

  insert-IsOrGone :
      (c : Lfu K V) (key other : K) (v : V)
      → (key == other) ≡ false
      → IsOrGone other (value_at other c.entries) (insert key v c).entries
  unfolding insert IsOrGone value_at lookup
  insert-IsOrGone c key other v h =
      let new = (key, record { value = v; use_count = 0 }) ∷ c.entries in
      let es = touch key new in
      evict-keeps (IsOrGone other (value_at other c.entries)) key
        (λ k es' _ kept. remove-IsOrGone other (value_at other c.entries) k es' kept) (length es)
        c.max es (inl (value_at-touch key other new ∙ rw h refl))

  set-IsOrGone :
      (c : Lfu K V) (key other : K) (v : V)
      → (key == other) ≡ false
      → IsOrGone other (value_at other c.entries) (set c key v).entries
  unfolding set IsOrGone
  set-IsOrGone c key other v h = elim (Option-cases (lookup key c.entries)) [
    | inl absent ↦ rw (absent, set) (insert-IsOrGone c key other v h)
    | inr (entry, at) ↦
        rw (at, set)
          (inl (
            value_at-touch key other (assign key v c.entries)
            ∙ value_at-assign_other key other v c.entries h))
  ]

  -- `Set` of another key leaves what a read of the key returns as it was, or evicts the key.
  pub get-set_other :
      (c : Lfu K V) (key other : K) (v : V)
      → (key == other) ≡ false
      → ((get (set c key v) other).1 ≡ (get c other).1) ⊎ ((get (set c key v) other).1 ≡ none)
  unfolding IsOrGone
  get-set_other c key other v h = elim (set-IsOrGone c key other v h) [
    | inl kept ↦ inl (get-value_at (set c key v) other ∙ kept ∙ sym (get-value_at c other))
    | inr gone ↦ inr (get-value_at (set c key v) other ∙ gone)
  ]
