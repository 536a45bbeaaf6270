-- ===== src/Dynamic/Undisturbed.antt =====
-- A reconcile that nobody disturbs (internal/controller/dynamic_webhook.go).
use syngit.Common.{ℕ, Bool, Option, none, string_eq, Eq, ◌≡◌}
use syngit.Api.{LabelSelector}
use syngit.Dynamic.{Webhook, Stored, Phase, done, Outage, System}
use syngit.Dynamic.Entries.{content, KeepsOthers}
use syngit.Dynamic.Settled.{IsSettled}

module _ ⦃selector_eq : Eq (Option LabelSelector)⦄ where
  -- The reconcile has come to its end, the configuration says of its syncer what it should, and of the
  -- others what it said.
  abbrev pub Ends : Webhook → Bool → Stored → Stored × Phase → Type 0
  Ends w deleted before after =
      (after.1 ≡ done)
      × IsSettled w deleted (content after.0.configuration)
      × KeepsOthers w (content before.configuration) (content after.0.configuration)

  module _ (outages : ℕ → Stored → Phase → Option Outage) (webhooks : ℕ → Webhook)
      (is_deleted : ℕ → Bool) where
    abbrev pub IsDoneBy : ℕ → System → System → Type 0
    IsDoneBy i before after =
        Ends (webhooks i) (is_deleted i) before.stored (after.stored, after.phases i)

    -- The calls of the reconcile meet no outage.
    abbrev pub IsFine : ℕ → Type 0
    IsFine i = (stored : Stored) (phase : Phase) → outages i stored phase ≡ none
