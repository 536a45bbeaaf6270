-- ===== src/Dynamic/Settled.antt =====
-- What it is for the shared configuration to say what it should (internal/controller/dynamic_webhook.go).
use syngit.Common.{
  Bool, true, false, Option, List, [], ◌∷◌, ◌++◌, ◌==◌, string_eq, Eq, list_beq_iff, ◌≡◌, refl, ap,
  ◌⊎◌, inl, inr, &&-eq-true, list_beq, Bool-cases, arith,
}
use syngit.Api.{RuleWithOperations, LabelSelector}
use syngit.Dynamic.{Webhook, rules_are_equal, equal_rules, webhook_entry_equal, is_up_to_date}
use syngit.Dynamic.Entries.{own, IsCurrent}

module _ ⦃selector_eq : Eq (Option LabelSelector)⦄ where
  -- The last entry with the name has the rules and the selectors of the syncer.
  abbrev pub IsListed : Webhook → List Webhook → Type 0
  IsListed w webhooks =
      (before : List Webhook) × (entry : Webhook) × (own w.name webhooks ≡ before ++ entry ∷ [])
      × (entry.rules ≡ w.rules)
      × (entry.namespace_selector ≡ w.namespace_selector)
      × (entry.object_selector ≡ w.object_selector)

  -- If the syncer is gone, there is no entry with its name; else the last one is the syncer's, but for
  -- where the API server calls back.
  abbrev pub IsSettled : Webhook → Bool → List Webhook → Type 0
  IsSettled w true webhooks = own w.name webhooks ≡ []
  IsSettled w false webhooks = IsListed w webhooks

  rules_are_equal-eq : (r s : RuleWithOperations) → rules_are_equal r s ≡ true → r ≡ s
  unfolding rules_are_equal
  rules_are_equal-eq r s h =
      let (groups, h1) = &&-eq-true (list_beq r.api_groups s.api_groups) _ h in
      let (versions, h2) = &&-eq-true (list_beq r.api_versions s.api_versions) _ h1 in
      let (resources, operations) = &&-eq-true (list_beq r.resources s.resources) _ h2 in
      λ i. record {
        operations = (list_beq_iff r.operations s.operations).0 operations i;
        api_groups = (list_beq_iff r.api_groups s.api_groups).0 groups i;
        api_versions = (list_beq_iff r.api_versions s.api_versions).0 versions i;
        resources = (list_beq_iff r.resources s.resources).0 resources i;
      }

  equal_rules-eq : (rs ss : List RuleWithOperations) → equal_rules rs ss ≡ true → rs ≡ ss
  unfolding equal_rules
  equal_rules-eq [] [] h = refl
  equal_rules-eq [] (s ∷ ss) h = absurd cc
  equal_rules-eq (r ∷ rs) [] h = absurd cc
  equal_rules-eq (r ∷ rs) (s ∷ ss) h =
      let (first, rest) = &&-eq-true (rules_are_equal r s) _ h in
      λ i. rules_are_equal-eq r s first i ∷ equal_rules-eq rs ss rest i

  -- What the loop over the entries knows when it comes to its end.
  abbrev Knows : Webhook → Bool → List Webhook → Type 0
  Knows w found webhooks = ((found ≡ true) × (own w.name webhooks ≡ [])) ⊎ IsListed w webhooks

  Knows-own :
      (w : Webhook) (found : Bool) (x : Webhook) (xs : List Webhook)
      → (x.name == w.name) ≡ false
      → Knows w found xs
      → Knows w found (x ∷ xs)
  Knows-own w found x xs other (inl (h, absent)) = inl (h, rw other absent)
  Knows-own w found x xs other (inr (before, entry, e, rules, namespaces, objects)) =
      inr (before, entry, rw other e, rules, namespaces, objects)

  Knows-found :
      (w x : Webhook) (xs : List Webhook)
      → (x.name == w.name) ≡ true
      → Knows w (webhook_entry_equal x w) xs
      → IsListed w (x ∷ xs)
  unfolding webhook_entry_equal
  Knows-found w x xs same (inl (h, absent)) =
      let (rules, selectors) = &&-eq-true (equal_rules x.rules w.rules) _ h in
      let (namespaces, objects) =
        &&-eq-true (x.namespace_selector == w.namespace_selector) _ selectors in
      (
        [],
        x,
        rw same (ap (λ ws. x ∷ ws) absent),
        equal_rules-eq x.rules w.rules rules,
        (selector_eq.beq_iff x.namespace_selector w.namespace_selector).0 namespaces,
        (selector_eq.beq_iff x.object_selector w.object_selector).0 objects,
      )
  Knows-found w x xs same (inr (before, entry, e, rules, namespaces, objects)) =
      (x ∷ before, entry, rw same (ap (λ ws. x ∷ ws) e), rules, namespaces, objects)

  is_up_to_date-Knows :
      (w : Webhook) (found : Bool) (xs : List Webhook)
      → is_up_to_date w found xs ≡ true
      → Knows w found xs
  unfolding is_up_to_date
  is_up_to_date-Knows w found [] h = inl (h, refl)
  is_up_to_date-Knows w found (x ∷ xs) h = elim (Bool-cases (x.name == w.name)) [
    | inl same ↦ inr (
        Knows-found w x xs same
          (is_up_to_date-Knows w (webhook_entry_equal x w) xs (ground (arith, h, same))))
    | inr other ↦
        Knows-own w found x xs other (is_up_to_date-Knows w found xs (ground (arith, h, other)))
  ]

  pub IsCurrent-IsSettled :
      (w : Webhook) (is_deleted : Bool) (webhooks : List Webhook)
      → IsCurrent w is_deleted webhooks
      → IsSettled w is_deleted webhooks
  IsCurrent-IsSettled w true webhooks h = h
  IsCurrent-IsSettled w false webhooks h = elim (is_up_to_date-Knows w false webhooks h) [
    | inl (h, absent) ↦ absurd cc
    | inr listed ↦ listed
  ]
