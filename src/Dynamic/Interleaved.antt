-- ===== src/Dynamic/Interleaved.antt =====
-- Reconciles that take turns on the shared configuration (internal/controller/dynamic_webhook.go).
use syngit.Common.{
  ℕ, ◌+◌, ◌≤◌, nat_beq_iff, String, Bool, Option, List, string_eq, Eq, ◌≡◌, ◌⊎◌, refl,
}
use syngit.Api.{LabelSelector}
use syngit.Dynamic.{
  Webhook, Stored, Phase, reading, writing, done, failed, default_retry, Outage, System, set_phase,
}
use syngit.Dynamic.Entries.{content, own, IsCurrent}

-- A write leaves the object, or raises its version and keeps the entries of a name.
Evolves : String → Stored → Stored → Type 0
Evolves name before after =
    (after ≡ before)
    ⊎ ((after.version ≡ before.version + 1)
        × (own name (content after.configuration) ≡ own name (content before.configuration)))

pub set_phase_self :
    (phases : ℕ → Phase) (i : ℕ) (phase : Phase) → set_phase phases i phase i ≡ phase
set_phase_self phases i phase = rw ((nat_beq_iff i i).1 refl) refl

module _ ⦃selector_eq : Eq (Option LabelSelector)⦄ where
  -- What holds of a reconcile at each of its phases.
  IsSound : Webhook → Bool → Stored → Phase → Type 0
  IsSound w is_deleted stored (reading left) = Unit
  IsSound w is_deleted stored (writing left read) =
      (read.version ≤ stored.version)
      × (read.version ≡ stored.version → read.configuration ≡ stored.configuration)
      × (own w.name (content read.configuration) ≡ own w.name (content stored.configuration))
  IsSound w is_deleted stored done = IsCurrent w is_deleted (content stored.configuration)
  IsSound w is_deleted stored (failed e) = Unit

  module _ (outages : ℕ → Stored → Phase → Option Outage) (webhooks : ℕ → Webhook)
      (is_deleted : ℕ → Bool) where
    abbrev IsSoundAt : ℕ → Stored → Phase → Type 0
    IsSoundAt i = IsSound (webhooks i) (is_deleted i)

    abbrev Inv : System → Type 0
    Inv system = (i : ℕ) → IsSoundAt i system.stored (system.phases i)

    -- No two syncers have one name.
    abbrev pub HaveNames : Type 0
    HaveNames = (i j : ℕ) → (webhooks i).name ≡ (webhooks j).name → i ≡ j

    -- All reconciles are about to read.
    abbrev pub start : Option (List Webhook) → System
    start configuration = record {
      stored = record { version = 0; configuration = configuration };
      phases = λ i. reading default_retry;
    }
