-- ===== src/Cache/Valid.antt =====
-- The invariant of the cache (internal/cache/lfu.go), and what a reader gets after a write.
use mathlib.Core.Path.{subst}
use syngit.Common.{◌≤◌, none, ◌∷◌, Eq, length, ◌≡◌, sym, inl, inr, Option-cases, arith}
use syngit.Cache.{Lfu, lookup, touch, assign, insert, get, set, load_or_store, delete}
use syngit.Cache.Entries.{
  keys, Distinct, Distinct-remove, Bounded, Bounded-remove, Bounded-touch, Bounded-assign,
  keys-touch, keys-assign, Distinct-cons, length-assign, length-touch,
}
use syngit.Cache.Eviction.{length-evict-le, evict-keeps, length-remove-le}

-- The size is at least one, no key stands twice, every counter is below the cap, and the entries
-- fit the size.
pub record IsValid {ℓ} {K V : Type ℓ} ⦃e : Eq K⦄ (c : Lfu K V) : Type 0 where
  pub room : 1 ≤ c.max
  pub distinct : Distinct (keys c.entries)
  pub bounded : Bounded c.entries
  pub sized : length c.entries ≤ c.max

module _ {ℓ} {K V : Type ℓ} ⦃e : Eq K⦄ where
  touched-IsValid :
      (c : Lfu K V) (key : K) → IsValid c → IsValid (record c { entries = touch key c.entries })
  touched-IsValid c key h = record {
    room = h.room;
    distinct = subst Distinct (sym (keys-touch key c.entries)) h.distinct;
    bounded = Bounded-touch key c.entries h.bounded;
    sized = omega (arith, length-touch key c.entries, h.sized);
  }

  assigned-IsValid :
      (c : Lfu K V) (key : K) (v : V)
      → IsValid c
      → IsValid (record c { entries = assign key v c.entries })
  assigned-IsValid c key v h = record {
    room = h.room;
    distinct = subst Distinct (sym (keys-assign key v c.entries)) h.distinct;
    bounded = Bounded-assign key v c.entries h.bounded;
    sized = omega (arith, length-assign key v c.entries, h.sized);
  }

  insert-IsValid :
      (c : Lfu K V) (key : K) (v : V)
      → lookup key c.entries ≡ none
      → IsValid c
      → IsValid (insert key v c)
  unfolding insert
  insert-IsValid c key v absent h =
      let new = (key, record { value = v; use_count = 0 }) ∷ c.entries in
      let es = touch key new in
      let distinct : Distinct (keys es) =
        subst Distinct (sym (keys-touch key new))
          (Distinct-cons key _ c.entries absent h.distinct) in
      let bounded = Bounded-touch key new (omega arith, h.bounded) in
      record {
        room = h.room;
        distinct =
            evict-keeps (λ es. Distinct (keys es)) key (λ k es _ d. Distinct-remove k es d)
              (length es) c.max es distinct;
        bounded =
            evict-keeps Bounded key (λ k es _ b. Bounded-remove k es b) (length es) c.max es
              bounded;
        sized = length-evict-le (length es) c.max key es h.room (omega arith) distinct;
      }

  -- `Get` keeps the cache valid.
  pub get-IsValid : (c : Lfu K V) (key : K) → IsValid c → IsValid (get c key).0
  unfolding get
  get-IsValid c key h = elim (Option-cases (lookup key c.entries)) [
    | inl absent ↦ rw (absent, get) h
    | inr (entry, at) ↦ rw (at, get) (touched-IsValid c key h)
  ]

  -- `Set` keeps the cache valid: after the eviction the entries fit the size, no key stands twice,
  -- and every counter is below the cap.
  pub set-IsValid : (c : Lfu K V) (key : K) (v : V) → IsValid c → IsValid (set c key v)
  unfolding set
  set-IsValid c key v h = elim (Option-cases (lookup key c.entries)) [
    | inl absent ↦ rw (absent, set) (insert-IsValid c key v absent h)
    | inr (entry, at) ↦
        rw (at, set)
          (touched-IsValid (record c { entries = assign key v c.entries }) key
            (assigned-IsValid c key v h))
  ]

  -- `LoadOrStore` keeps the cache valid.
  pub load_or_store-IsValid :
      (c : Lfu K V) (key : K) (v : V) → IsValid c → IsValid (load_or_store c key v).0
  unfolding load_or_store
  load_or_store-IsValid c key v h = elim (Option-cases (lookup key c.entries)) [
    | inl absent ↦ rw (absent, load_or_store) (insert-IsValid c key v absent h)
    | inr (entry, at) ↦ rw (at, load_or_store) (touched-IsValid c key h)
  ]

  -- `Delete` keeps the cache valid.
  pub delete-IsValid : (c : Lfu K V) (key : K) → IsValid c → IsValid (delete c key)
  unfolding delete
  delete-IsValid c key h = record {
    room = h.room;
    distinct = Distinct-remove key c.entries h.distinct;
    bounded = Bounded-remove key c.entries h.bounded;
    sized = omega (arith, length-remove-le key c.entries, h.sized);
  }
