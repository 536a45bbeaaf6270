-- ===== src/Cache.antt =====
-- internal/cache/lfu.go: the least-frequently-used cache. The Go map is an association list, whose
-- order stands for that of an iteration; a call is one step, since each holds the lock throughout.
pub mod Entries
pub mod Eviction
pub mod Valid
pub mod Reads
use syngit.Common.{
  ℕ, zero, suc, ◌+◌, ◌/◌, ◌%◌, ◌^◌, ltb, leb, Bool, true, false, Option, none, some, List, [], ◌∷◌,
  Eq, ◌==◌, if◌then◌else◌, length,
}

-- `useCountCap`
abbrev pub use_count_cap : ℕ
use_count_cap = 65536

pub record Entry {ℓ} (V : Type ℓ) : Type ℓ where
  pub value : V
  pub use_count : ℕ

pub record Lfu {ℓ} (K V : Type ℓ) : Type ℓ where
  pub max : ℕ
  pub entries : List (K × Entry V)

module _ {ℓ} {K V : Type ℓ} where
  -- `NewLFU`: a size of zero or less is no cache, the nil pointer.
  unfoldable pub new_lfu : ℕ → Option (Lfu K V)
  new_lfu max = if leb max 0 then none else some (record { max = max; entries = [] })

  -- Every counter is halved.
  pub halve : List (K × Entry V) → List (K × Entry V)
  halve [] = []
  halve ((k, e) ∷ es) = (k, record e { use_count = e.use_count / 2 }) ∷ halve es

-- A smaller counter than the best so far.
pick {ℓ} : {K : Type ℓ} → K → ℕ → Option (K × ℕ) → Option (K × ℕ)
pick k n none = some (k, n)
pick k n (some (best, m)) = if ltb n m then some (k, n) else some (best, m)

abbrev at_cap {ℓ} : {V : Type ℓ} → Option (Entry V) → Bool
at_cap none = false
at_cap (some e) = leb use_count_cap e.use_count

module _ {ℓ} {K V : Type ℓ} ⦃e : Eq K⦄ where
  -- `c.entries[key]`
  pub lookup : K → List (K × Entry V) → Option (Entry V)
  lookup key [] = none
  lookup key ((k, e) ∷ es) = if k == key then some e else lookup key es

  -- `delete(c.entries, key)`
  pub remove : K → List (K × Entry V) → List (K × Entry V)
  remove key [] = []
  remove key ((k, e) ∷ es) = let rest = remove key es in if k == key then rest else (k, e) ∷ rest

  -- `e.useCount++`, of a `uint32`.
  pub bump : K → List (K × Entry V) → List (K × Entry V)
  bump key [] = []
  bump key ((k, e) ∷ es) =
      if k == key
      then (k, record e { use_count = (e.use_count + 1) % (2 ^ 32) }) ∷ es
      else (k, e) ∷ bump key es

  pub assign : K → V → List (K × Entry V) → List (K × Entry V)
  assign key v [] = []
  assign key v ((k, e) ∷ es) =
      if k == key then (k, record e { value = v }) ∷ es else (k, e) ∷ assign key v es

  -- `touchLocked`
  pub touch : K → List (K × Entry V) → List (K × Entry V)
  unfolding bump lookup halve
  touch key es =
      let bumped = bump key es in if at_cap (lookup key bumped) then halve bumped else bumped

  -- The loop that looks for the entry with the smallest counter, the new one excepted.
  pub victim : K → List (K × Entry V) → Option (K × ℕ) → Option (K × ℕ)
  unfolding pick
  victim except [] best = best
  victim except ((k, e) ∷ es) best =
      victim except es (if k == except then best else pick k e.use_count best)

  -- `evictLocked`: each round of the loop removes an entry, so that the number of entries is fuel.
  pub evict : ℕ → ℕ → K → List (K × Entry V) → List (K × Entry V)
  unfolding victim remove
  evict zero max except es = es
  evict (suc fuel) max except es =
      if ltb max (length es)
      then (elim (victim except es none) [
        | none ↦ es
        | some (k, n) ↦ evict fuel max except (remove k es)
      ])
      else es

  -- The insertion of a new key.
  pub insert : K → V → Lfu K V → Lfu K V
  unfolding touch evict
  insert key v c =
      let es = touch key ((key, record { value = v; use_count = 0 }) ∷ c.entries) in
      record c { entries = evict (length es) c.max key es }

  unfoldable pub get : Lfu K V → K → Lfu K V × Option V
  unfolding lookup touch
  get c key = elim (lookup key c.entries) [
    | none ↦ (c, none)
    | some e ↦ (record c { entries = touch key c.entries }, some e.value)
  ]

  unfoldable pub set : Lfu K V → K → V → Lfu K V
  unfolding lookup touch assign insert
  set c key v = elim (lookup key c.entries) [
    | some e ↦ record c { entries = touch key (assign key v c.entries) }
    | none ↦ insert key v c
  ]

  -- The value, and whether it was there.
  unfoldable pub load_or_store : Lfu K V → K → V → Lfu K V × V × Bool
  unfolding lookup touch insert
  load_or_store c key v = elim (lookup key c.entries) [
    | some e ↦ (record c { entries = touch key c.entries }, e.value, true)
    | none ↦ (insert key v c, v, false)
  ]

  unfoldable pub delete : Lfu K V → K → Lfu K V
  unfolding remove
  delete c key = record c { entries = remove key c.entries }
