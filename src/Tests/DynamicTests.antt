-- ===== src/Tests/DynamicTests.antt =====
-- Two syncers that share a webhook configuration, in different orders.
use syngit.Common.{
  ℕ, zero, suc, nat_beq, if◌then◌else◌, map, String, Bool, true, false, ◌&&◌, Option, none, some,
  List, [], ◌∷◌, ◌==◌, string_eq, Eq, list_beq, list_beq_iff, ◌≡◌, ◌↔◌, refl, ap, &&-eq-true, arith,
}
use syngit.Api.{LabelRequirement, LabelSelector}
use syngit.Dynamic.{
  Entry, Webhook, DynamicWebhookManager, client_config, webhook_of, Stored, Phase, Outage, System,
  run,
}
use syngit.Dynamic.Entries.{content}
use syngit.Dynamic.Interleaved.{start}
use syngit.Tests.Sample.{rule}

and_true : (a b : Bool) → a ≡ true → b ≡ true → (a && b) ≡ true
and_true a b h k = ground (arith, h, k)

instance abbrev pair_eq : Eq (String × String)
pair_eq = record {
  beq = λ x y. x.0 == y.0 && x.1 == y.1;
  beq_iff = λ x y. (
    λ h.
        let (p, q) = &&-eq-true (x.0 == y.0) (x.1 == y.1) h in
        λ i. ((string_eq.beq_iff x.0 y.0).0 p i, (string_eq.beq_iff x.1 y.1).0 q i),
    λ e.
        and_true _ _ ((string_eq.beq_iff x.0 y.0).1 (ap (λ (z : String × String). z.0) e))
          ((string_eq.beq_iff x.1 y.1).1 (ap (λ (z : String × String). z.1) e)),
  );
}

instance abbrev list_eq {ℓ} : {A : Type ℓ} ⦃e : Eq A⦄ → Eq (List A)
list_eq = record { beq = list_beq; beq_iff = list_beq_iff }

option_beq {ℓ} : {A : Type ℓ} ⦃e : Eq A⦄ → Option A → Option A → Bool
option_beq none none = true
option_beq none (some y) = false
option_beq (some x) none = false
option_beq (some x) (some y) = x == y

option_beq_iff {ℓ} : {A : Type ℓ} ⦃e : Eq A⦄ (x y : Option A) → (option_beq x y ≡ true) ↔ (x ≡ y)
unfolding option_beq
option_beq_iff none none = ground arith
option_beq_iff none (some y) = ground arith
option_beq_iff (some x) none = ground arith
option_beq_iff ⦃e⦄ (some x) (some y) =
    (λ h. ap some ((e.beq_iff x y).0 h), λ h. (e.beq_iff x y).1 cc)

instance abbrev requirement_eq : Eq LabelRequirement
requirement_eq = record {
  beq = λ x y. x.key == y.key && (x.operator == y.operator && list_beq x.values y.values);
  beq_iff = λ x y. (
    λ h.
        let (p, rest) =
          &&-eq-true (x.key == y.key) (x.operator == y.operator && list_beq x.values y.values) h in
        let (q, r) = &&-eq-true (x.operator == y.operator) (list_beq x.values y.values) rest in
        λ i. record {
          key = (string_eq.beq_iff x.key y.key).0 p i;
          operator = (string_eq.beq_iff x.operator y.operator).0 q i;
          values = (list_beq_iff x.values y.values).0 r i;
        },
    λ e. and_true _ _ ((string_eq.beq_iff x.key y.key).1 (ap (λ (z : LabelRequirement). z.key) e)) (
        and_true _ _
          ((string_eq.beq_iff x.operator y.operator).1
            (ap (λ (z : LabelRequirement). z.operator) e))
          ((list_beq_iff x.values y.values).1 (ap (λ (z : LabelRequirement). z.values) e))),
  );
}

instance abbrev label_selector_eq : Eq LabelSelector
label_selector_eq = record {
  beq = λ x y.
      list_beq x.match_labels y.match_labels && list_beq x.match_expressions y.match_expressions;
  beq_iff = λ x y. (
    λ h.
        let (p, q) = &&-eq-true (list_beq x.match_labels y.match_labels) _ h in
        λ i. record {
          match_labels = (list_beq_iff x.match_labels y.match_labels).0 p i;
          match_expressions = (list_beq_iff x.match_expressions y.match_expressions).0 q i;
        },
    λ e.
        and_true _ _
          ((list_beq_iff x.match_labels y.match_labels).1
            (ap (λ (z : LabelSelector). z.match_labels) e))
          ((list_beq_iff x.match_expressions y.match_expressions).1
            (ap (λ (z : LabelSelector). z.match_expressions) e)),
  );
}

instance abbrev optional_selector_eq : Eq (Option LabelSelector)
optional_selector_eq = record { beq = option_beq; beq_iff = option_beq_iff }

abbrev manager : DynamicWebhookManager
manager = record {
  dynamic_webhook_name = "remotesyncer.syngit.io";
  manager_namespace = "syngit";
  dev_mode = false;
  dev_webhook_host = "";
  dev_webhook_cert = "";
  dev_webhook_port = "";
}

abbrev entry_of : String → Entry
entry_of name = record {
  name = name;
  path = "/reconcile/syngit/remotesyncer/team/a";
  rules = rule ∷ [];
  namespace_selector = none;
  object_selector = none;
}

-- The names of the syncers are "", "a", "aa" and so on.
abbrev label : ℕ → String
label zero = ""
label (suc n) = String.◌∷◌ "a" (label n)

abbrev rest_of : String → String
rest_of String.[] = ""
rest_of (String.◌∷◌ c s) = s

abbrev many : ℕ → Webhook
many i = webhook_of (client_config manager "" "/reconcile").0 (entry_of (label i))

abbrev none_deleted : ℕ → Bool
none_deleted i = false

-- Each call of the third one meets an outage, after which it has been carried out.
abbrev flaky : ℕ → Stored → Phase → Option Outage
flaky i stored phase =
    if nat_beq i 2 then some (record { is_carried_out = true; text = "timeout" }) else none

-- The second one reads before the first one writes: its write meets a conflict, and it tries again.
abbrev schedule : List ℕ
schedule = 0 ∷ 1 ∷ 0 ∷ 2 ∷ 1 ∷ 1 ∷ 1 ∷ []

abbrev ended : System
ended = run flaky many none_deleted schedule (start flaky many none_deleted (some []))

interleaved_names :
    map (λ (w : Webhook). w.name) (content ended.stored.configuration) ≡ "" ∷ "a" ∷ []
unfolding run webhook_of
interleaved_names = refl

abbrev waiting : System
waiting = start flaky many none_deleted (some [])
