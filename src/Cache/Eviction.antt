-- ===== src/Cache/Eviction.antt =====
-- The eviction of the cache (internal/cache/lfu.go): whom it takes, and that it reaches the size.
use mathlib.Core.Path.{subst}
use syngit.Common.{
  ℕ, zero, suc, ◌≤◌, ◌<◌, ltb, true, false, Option, none, some, List, [], ◌∷◌, Eq, ◌==◌, length,
  ◌⊎◌, ◌≡◌, ◌≢◌, refl, sym, ap, ◌∙◌, inl, inr, Bool-cases, Option-cases, arith, All, In, here,
  there,
}
use syngit.Cache.{Entry, remove, victim, pick, evict}
use syngit.Cache.Entries.{keys, Distinct, Distinct-remove, same-le}

module _ {ℓ} {K : Type ℓ} where
  -- There is a victim, whose counter is at most `m`.
  abbrev pub AtMost : ℕ → Option (K × ℕ) → Type 0
  AtMost m none = ⊥
  AtMost m (some (k, n)) = n ≤ m

  pick-AtMost_best :
      (k : K) (n m : ℕ) (best : Option (K × ℕ)) → AtMost m best → AtMost m (pick k n best)
  unfolding pick
  pick-AtMost_best k n m none h = absurd h
  pick-AtMost_best k n m (some (b, l)) h = elim (Bool-cases (ltb n l)) [
    | inl less ↦ rw less (ground arith)
    | inr more ↦ rw more h
  ]

  pick-AtMost : (k : K) (n : ℕ) (best : Option (K × ℕ)) → AtMost n (pick k n best)
  unfolding pick
  pick-AtMost k n none = omega arith
  pick-AtMost k n (some (b, l)) = elim (Bool-cases (ltb n l)) [
    | inl less ↦ rw less (omega arith)
    | inr more ↦ rw more (ground arith)
  ]

  pick_some : (k : K) (n : ℕ) (best : Option (K × ℕ)) → pick k n best ≢ none
  unfolding pick
  pick_some k n none h = cc
  pick_some k n (some (b, m)) h = ground (arith, h)

  pick-cases :
      (k k' : K) (n n' : ℕ) (best : Option (K × ℕ))
      → pick k n best ≡ some (k', n')
      → (k ≡ k') ⊎ (best ≡ some (k', n'))
  unfolding pick
  pick-cases k k' n n' none h = inl cc
  pick-cases k k' n n' (some (b, m)) h = elim (Bool-cases (ltb n m)) [
    | inl less ↦ let h' : some (k, n) ≡ some (k', n') = rw less at h in inl cc
    | inr more ↦ inr (rw more at h)
  ]

module _ {ℓ} {K V : Type ℓ} ⦃e' : Eq K⦄ where
  victim_same :
      (except k : K) (e : Entry V) (es : List (K × Entry V)) (best : Option (K × ℕ))
      → (k == except) ≡ true
      → victim except ((k, e) ∷ es) best ≡ victim except es best
  unfolding victim
  victim_same except k e es best same = rw (same, victim) refl

  victim_other :
      (except k : K) (e : Entry V) (es : List (K × Entry V)) (best : Option (K × ℕ))
      → (k == except) ≡ false
      → victim except ((k, e) ∷ es) best ≡ victim except es (pick k e.use_count best)
  unfolding victim
  victim_other except k e es best other = rw (other, victim) refl

  victim-AtMost :
      (except : K) (m : ℕ) (es : List (K × Entry V)) (best : Option (K × ℕ))
      → AtMost m best
      → AtMost m (victim except es best)
  unfolding victim
  victim-AtMost except m [] best h = h
  victim-AtMost except m ((k, e) ∷ es) best h = elim (Bool-cases (k == except)) [
    | inl same ↦ rw (same, victim) (victim-AtMost except m es best h)
    | inr other ↦
        rw (other, victim)
          (victim-AtMost except m es (pick k e.use_count best)
            (pick-AtMost_best k e.use_count m best h))
  ]

  -- The entry is the excepted one, or its counter is no smaller than the victim's.
  abbrev pub Least : K → Option (K × ℕ) → K × Entry V → Type 0
  Least except r (k, e) = ((k == except) ≡ true) ⊎ AtMost e.use_count r

  -- The search for a victim returns a counter that is at most that of any entry but the excepted one.
  pub victim-Least :
      (except : K) (es : List (K × Entry V)) (best r : Option (K × ℕ))
      → victim except es best ≡ r
      → All (Least except r) es
  victim-Least except [] best r h = tt
  victim-Least except ((k, e) ∷ es) best r h = elim (Bool-cases (k == except)) [
    | inl same ↦
        (inl same, victim-Least except es best r (sym (victim_same except k e es best same) ∙ h))
    | inr other ↦
        let at = sym (victim_other except k e es best other) ∙ h in
        (
          inr (
              subst (AtMost e.use_count) at (
                victim-AtMost except e.use_count es (pick k e.use_count best)
                  (pick-AtMost k e.use_count best))),
          victim-Least except es (pick k e.use_count best) r at,
        )
  ]

  -- The victim is an entry other than the excepted one.
  pub record IsOther (except : K) (es : List (K × Entry V)) (k : K) : Type ℓ where
    pub entry : Entry V
    pub at : In (k, entry) es
    pub other : (k == except) ≡ false

  IsOther-there :
      (except k : K) (p : K × Entry V) (es : List (K × Entry V))
      → IsOther except es k
      → IsOther except (p ∷ es) k
  IsOther-there except k p es o = record { entry = o.entry; at = there o.at; other = o.other }

  pick-IsOther :
      (except k k' : K) (e : Entry V) (es : List (K × Entry V)) (n : ℕ) (best : Option (K × ℕ))
      → (k' == except) ≡ false
      → (k' ≡ k) ⊎ (best ≡ some (k, n))
      → ((m : ℕ) × (best ≡ some (k, m))) ⊎ IsOther except ((k', e) ∷ es) k
  pick-IsOther except k k' e es n best other (inr b) = inl (n, b)
  pick-IsOther except k k' e es n best other (inl same) = inr (record {
    entry = e;
    at = here (ap (λ x. (x, e)) same);
    other = subst (λ x. (x == except) ≡ false) same other;
  })

  victim-IsOther :
      (except : K) (es : List (K × Entry V)) (best : Option (K × ℕ)) (k : K) (n : ℕ)
      → victim except es best ≡ some (k, n)
      → ((m : ℕ) × (best ≡ some (k, m))) ⊎ IsOther except es k
  unfolding victim
  victim-IsOther except [] best k n h = inl (n, h)
  victim-IsOther except ((k', e) ∷ es) best k n h = elim (Bool-cases (k' == except)) [
    | inl same ↦
        elim (victim-IsOther except es best k n (sym (victim_same except k' e es best same) ∙ h)) [
          | inl b ↦ inl b
          | inr o ↦ inr (IsOther-there except k (k', e) es o)
        ]
    | inr other ↦
        elim (victim-IsOther except es (pick k' e.use_count best) k n
          (sym (victim_other except k' e es best other) ∙ h)) [
            | inl (m, b) ↦
                pick-IsOther except k k' e es m best other (pick-cases k' k e.use_count m best b)
            | inr o ↦ inr (IsOther-there except k (k', e) es o)
          ]
  ]

  victim-none :
      (except : K) (es : List (K × Entry V)) (best : Option (K × ℕ))
      → victim except es best ≡ none
      → (best ≡ none) × All (λ (p : K × Entry V). (p.0 == except) ≡ true) es
  unfolding victim
  victim-none except [] best h = (h, tt)
  victim-none except ((k, e) ∷ es) best h = elim (Bool-cases (k == except)) [
    | inl same ↦
        let (at, all) =
          victim-none except es best (sym (victim_same except k e es best same) ∙ h) in
        (at, (same, all))
    | inr other ↦
        let (at, all) =
          victim-none except es (pick k e.use_count best)
            (sym (victim_other except k e es best other) ∙ h) in
        absurd (pick_some k e.use_count best at)
  ]

  -- Fewer entries than before remain.
  pub length-remove-le : (key : K) (es : List (K × Entry V)) → length (remove key es) ≤ length es
  unfolding remove
  length-remove-le key [] = omega arith
  length-remove-le key ((k, e) ∷ es) = ground (arith, length-remove-le key es)

  length-remove-lt :
      (key : K) (entry : Entry V) (es : List (K × Entry V))
      → In (key, entry) es
      → length (remove key es) < length es
  unfolding remove
  length-remove-lt key entry [] m = elim m [ ]
  length-remove-lt key entry ((k, e) ∷ es) (here same) =
      rw ((e'.beq_iff k key).1 (ap (λ p. p.0) same)) (omega (arith, length-remove-le key es))
  length-remove-lt key entry ((k, e) ∷ es) (there m) =
      ground (arith, length-remove-lt key entry es m)

  removed :
      (except : K) (es : List (K × Entry V)) (k : K) (n : ℕ)
      → victim except es none ≡ some (k, n)
      → length (remove k es) < length es
  removed except es k n at = elim (victim-IsOther except es none k n at) [
    | inl (m, b) ↦ absurd cc
    | inr o ↦ length-remove-lt k o.entry es o.at
  ]

  pub victim_is_other :
      (except : K) (es : List (K × Entry V)) (k : K) (n : ℕ)
      → victim except es none ≡ some (k, n)
      → (k == except) ≡ false
  victim_is_other except es k n at = elim (victim-IsOther except es none k n at) [
    | inl (m, b) ↦ absurd cc
    | inr o ↦ o.other
  ]

  -- After the eviction the entries fit the size, where there is room for the new one at least.
  pub length-evict-le :
      (fuel max : ℕ) (except : K) (es : List (K × Entry V))
      → 1 ≤ max
      → length es ≤ fuel
      → Distinct (keys es)
      → length (evict fuel max except es) ≤ max
  unfolding evict
  length-evict-le zero max except es room enough d = (omega (arith, enough, room))
  length-evict-le (suc fuel) max except es room enough d = elim (Bool-cases (ltb max (length es))) [
    | inr fits ↦ rw fits (ground (arith, fits))
    | inl over ↦ elim (Option-cases (victim except es none)) [
      | inl nobody ↦
          rw (over, nobody)
            (omega (arith, same-le except es d (victim-none except es none nobody).1, room))
      | inr ((k, n), at) ↦
          rw (over, at)
            (length-evict-le fuel max except (remove k es) room
              (omega (arith, removed except es k n at, enough)) (Distinct-remove k es d))
    ]
  ]

  -- What each removal keeps, the eviction keeps.
  pub evict-keeps {κ} :
      (P : List (K × Entry V) → Type κ) (except : K)
      → ((k : K) (es : List (K × Entry V)) → (k == except) ≡ false → P es → P (remove k es))
      → (fuel max : ℕ) (es : List (K × Entry V)) → P es
      → P (evict fuel max except es)
  unfolding evict
  evict-keeps P except step zero max es h = h
  evict-keeps P except step (suc fuel) max es h = elim (Bool-cases (ltb max (length es))) [
    | inr fits ↦ rw fits h
    | inl over ↦ elim (Option-cases (victim except es none)) [
      | inl nobody ↦ rw (over, nobody) h
      | inr ((k, n), at) ↦
          rw (over, at)
            (evict-keeps P except step fuel max (remove k es)
              (step k es (victim_is_other except es k n at) h))
    ]
  ]
