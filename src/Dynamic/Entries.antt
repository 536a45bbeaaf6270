-- ===== src/Dynamic/Entries.antt =====
-- What one `upsert` does to the shared configuration (internal/controller/dynamic_webhook.go).
use syngit.Common.{
  String, Bool, true, false, ◌&&◌, Option, none, some, List, [], ◌∷◌, ◌++◌, ◌==◌, string_eq, Eq,
  list_beq_iff, beq_refl, eq_iff, if◌then◌else◌, select, ◌≡◌, refl, sym, ap, ◌∙◌, inl, inr,
  Bool-cases, append-nil, arith,
}
use syngit.Api.{RuleWithOperations, LabelSelector}
use syngit.Dynamic.{
  Webhook, rules_are_equal, equal_rules, Write, keep, create, update, webhook_entry_equal,
  is_up_to_date, others, upsert,
}

-- The entries of a configuration, and those with a name.
abbrev pub content : Option (List Webhook) → List Webhook
content none = []
content (some webhooks) = webhooks

abbrev pub own : String → List Webhook → List Webhook
own name = select (λ existing. existing.name == name)

own-append :
    (name : String) (xs ys : List Webhook) → own name (xs ++ ys) ≡ own name xs ++ own name ys
own-append name [] ys = refl
own-append name (x ∷ xs) ys = ground (arith, own-append name xs ys)

own-others_self : (name : String) (xs : List Webhook) → own name (others name xs) ≡ []
own-others_self name [] = refl
own-others_self name (x ∷ xs) = ground (arith, own-others_self name xs)

own-others :
    (name other : String) (xs : List Webhook)
    → (name == other) ≡ false
    → own other (others name xs) ≡ own other xs
own-others name other [] h = refl
own-others name other (x ∷ xs) h = ground (
  arith,
  h,
  eq_iff name other,
  eq_iff x.name name,
  eq_iff x.name other,
  own-others name other xs h,
)

rules_are_equal_refl : (r : RuleWithOperations) → rules_are_equal r r ≡ true
unfolding rules_are_equal
rules_are_equal_refl r =
    rw
      (
        (list_beq_iff r.api_groups r.api_groups).1 refl,
        (list_beq_iff r.api_versions r.api_versions).1 refl,
        (list_beq_iff r.resources r.resources).1 refl,
        (list_beq_iff r.operations r.operations).1 refl,
      )
      refl

equal_rules_refl : (rs : List RuleWithOperations) → equal_rules rs rs ≡ true
unfolding equal_rules
equal_rules_refl [] = refl
equal_rules_refl (r ∷ rs) = rw (rules_are_equal_refl r) (equal_rules_refl rs)

module _ ⦃selector_eq : Eq (Option LabelSelector)⦄ where
  webhook_entry_equal_refl : (w : Webhook) → webhook_entry_equal w w ≡ true
  unfolding webhook_entry_equal
  webhook_entry_equal_refl w =
      rw
        (
          equal_rules_refl w.rules,
          (selector_eq.beq_iff w.namespace_selector w.namespace_selector).1 refl,
          (selector_eq.beq_iff w.object_selector w.object_selector).1 refl,
        )
        refl

  is_up_to_date-append :
      (w : Webhook) (xs ys : List Webhook) (found : Bool)
      → is_up_to_date w found (xs ++ ys) ≡ is_up_to_date w (is_up_to_date w found xs) ys
  unfolding is_up_to_date
  is_up_to_date-append w [] ys found = refl
  is_up_to_date-append w (x ∷ xs) ys found =
      is_up_to_date-append w xs ys (if x.name == w.name then webhook_entry_equal x w else found)

  is_up_to_date-own :
      (w : Webhook) (xs : List Webhook) (found : Bool)
      → is_up_to_date w found xs ≡ is_up_to_date w found (own w.name xs)
  unfolding is_up_to_date
  is_up_to_date-own w [] found = refl
  is_up_to_date-own w (x ∷ xs) found =
      ground (arith, is_up_to_date-own w xs (webhook_entry_equal x w), is_up_to_date-own w xs found)

  is_up_to_date_last :
      (w : Webhook) (xs : List Webhook) → is_up_to_date w false (xs ++ w ∷ []) ≡ true
  unfolding is_up_to_date
  is_up_to_date_last w xs =
      is_up_to_date-append w xs (w ∷ []) false ∙ (rw (beq_refl w.name) (webhook_entry_equal_refl w))

  -- The configuration needs no write for the syncer.
  abbrev pub IsCurrent : Webhook → Bool → List Webhook → Type 0
  IsCurrent w true webhooks = own w.name webhooks ≡ []
  IsCurrent w false webhooks = is_up_to_date w false webhooks ≡ true

  pub IsCurrent-own :
      (w : Webhook) (is_deleted : Bool) (xs ys : List Webhook)
      → own w.name xs ≡ own w.name ys
      → IsCurrent w is_deleted xs
      → IsCurrent w is_deleted ys
  IsCurrent-own w true xs ys e h = sym e ∙ h
  IsCurrent-own w false xs ys e h =
      is_up_to_date-own w ys false
      ∙ (ap (is_up_to_date w false) (sym e) ∙ (sym (is_up_to_date-own w xs false) ∙ h))

  -- All but the entry of the syncer are as they were.
  abbrev pub KeepsOthers : Webhook → List Webhook → List Webhook → Type 0
  KeepsOthers w before after =
      (name : String) → (w.name == name) ≡ false → own name after ≡ own name before

  -- What is right of a write: it settles the syncer, and keeps the others.
  abbrev pub IsRight : Webhook → Bool → Option (List Webhook) → Write → Type 0
  IsRight w is_deleted read keep = IsCurrent w is_deleted (content read)
  IsRight w is_deleted read (create webhooks) =
      (read ≡ none) × IsCurrent w is_deleted webhooks × KeepsOthers w (content read) webhooks
  IsRight w is_deleted read (update webhooks) =
      IsCurrent w is_deleted webhooks × KeepsOthers w (content read) webhooks

  own-single : (w : Webhook) (name : String) → (w.name == name) ≡ false → own name (w ∷ []) ≡ []
  own-single w name h = rw h refl

  append-KeepsOthers :
      (w : Webhook) (webhooks : List Webhook)
      → KeepsOthers w webhooks (others w.name webhooks ++ w ∷ [])
  append-KeepsOthers w webhooks name h =
      own-append name (others w.name webhooks) (w ∷ [])
      ∙ (ap (λ ws. own name (others w.name webhooks) ++ ws) (own-single w name h)
          ∙ (append-nil _ ∙ own-others w.name name webhooks h))

  -- `upsert` settles the syncer and keeps the entries of all others.
  pub upsert-IsRight :
      (w : Webhook) (is_deleted : Bool) (read : Option (List Webhook))
      → IsRight w is_deleted read (upsert w is_deleted read)
  unfolding upsert
  upsert-IsRight w true none = refl
  upsert-IsRight w false none = (refl, is_up_to_date_last w [], λ name h. own-single w name h)
  upsert-IsRight w true (some webhooks) =
      elim (is_up_to_date w false webhooks)
        as (λ b.
          IsRight w true (some webhooks)
            (if b && false then keep else update (others w.name webhooks))) [
              | true ↦
                  (own-others_self w.name webhooks, λ name h. own-others w.name name webhooks h)
              | false ↦
                  (own-others_self w.name webhooks, λ name h. own-others w.name name webhooks h)
            ]
  upsert-IsRight w false (some webhooks) = elim (Bool-cases (is_up_to_date w false webhooks)) [
    | inl current ↦ rw current current
    | inr stale ↦
        rw stale (is_up_to_date_last w (others w.name webhooks), append-KeepsOthers w webhooks)
  ]
