-- ===== src/Dynamic.antt =====
-- internal/controller/dynamic_webhook.go: the ValidatingWebhookConfiguration that the syncers share.
-- The API server keeps a version of it, which each write raises; an update carries the version that
-- was read, and meets a conflict if another write came between.
pub mod Entries
pub mod Settled
pub mod Interleaved
pub mod Undisturbed
use Prim.Native.String.{◌++◌ as str_append}
use syngit.Common.{
  ℕ, zero, suc, ◌+◌, nat_beq, String, Bool, true, false, not, ◌&&◌, Option, none, some, List, [],
  ◌∷◌, ◌++◌, ◌==◌, string_eq, Eq, list_beq, if◌then◌else◌, select,
}
use syngit.Common.Errors.{Error, Result, ok, err, already_exists, conflict, other}
use syngit.Api.{StringMap, RuleWithOperations, LabelSelector}

-- `dynamicWebhookEntry`
pub record Entry : Type 0 where
  pub name : String
  pub path : String
  pub rules : List RuleWithOperations
  pub namespace_selector : Option LabelSelector
  pub object_selector : Option LabelSelector

-- Where the API server calls back: a URL, or a service with its namespace and path.
pub data Address : Type 0 where
  url : String → Address
  service : String → String → String → Address

pub record ClientConfig : Type 0 where
  pub address : Address
  pub ca_bundle : String

-- `admissionv1.ValidatingWebhook`, of the fields that differ between two entries.
pub record Webhook : Type 0 where
  pub name : String
  pub rules : List RuleWithOperations
  pub client_config : ClientConfig
  pub namespace_selector : Option LabelSelector
  pub object_selector : Option LabelSelector

-- `dynamicWebhookManager`
pub record DynamicWebhookManager : Type 0 where
  pub dynamic_webhook_name : String
  pub manager_namespace : String
  pub dev_mode : Bool
  pub dev_webhook_host : String
  pub dev_webhook_cert : String
  pub dev_webhook_port : String

abbrev webhook_service_name : String
webhook_service_name = "syngit-webhook-service"

abbrev certificate_name : String
certificate_name = "syngit-webhook-cert"

-- `clientConfig`, with the annotations of a configuration that is created.
unfoldable pub client_config : DynamicWebhookManager → String → String → ClientConfig × StringMap
client_config d ca_cert path =
    if d.dev_mode
    then (
      record {
        address = url (
            str_append "https://" (
              str_append d.dev_webhook_host (str_append ":" (str_append d.dev_webhook_port path))));
        ca_bundle = ca_cert;
      },
      [],
    )
    else (
      record {
        address = service webhook_service_name d.manager_namespace path;
        ca_bundle = ca_cert;
      },
      (
        "cert-manager.io/inject-ca-from",
        str_append d.manager_namespace (str_append ":" certificate_name),
      )
          ∷ [],
    )

unfoldable pub webhook_of : ClientConfig → Entry → Webhook
webhook_of config entry = record {
  name = entry.name;
  rules = entry.rules;
  client_config = config;
  namespace_selector = entry.namespace_selector;
  object_selector = entry.object_selector;
}

-- `rulesAreEqual` (remotesyncer_controller.go)
pub rules_are_equal : RuleWithOperations → RuleWithOperations → Bool
rules_are_equal r s =
    list_beq r.api_groups s.api_groups
    && (list_beq r.api_versions s.api_versions
        && (list_beq r.resources s.resources && list_beq r.operations s.operations))

-- `slices.EqualFunc`
pub equal_rules : List RuleWithOperations → List RuleWithOperations → Bool
unfolding rules_are_equal
equal_rules [] [] = true
equal_rules [] (s ∷ ss) = false
equal_rules (r ∷ rs) [] = false
equal_rules (r ∷ rs) (s ∷ ss) = rules_are_equal r s && equal_rules rs ss

-- What of the cluster a manager writes: nothing, the object anew, or its entries.
pub data Write : Type 0 where
  keep : Write
  create : List Webhook → Write
  update : List Webhook → Write

-- The entries of the others.
abbrev pub others : String → List Webhook → List Webhook
others name = select (λ existing. not (existing.name == name))

-- `reflect.DeepEqual` of two selectors decides whether they are equal.
module _ ⦃selector_eq : Eq (Option LabelSelector)⦄ where
  -- `webhookEntryEqual`
  pub webhook_entry_equal : Webhook → Webhook → Bool
  unfolding equal_rules
  webhook_entry_equal a b =
      equal_rules a.rules b.rules
      && (a.namespace_selector == b.namespace_selector && a.object_selector == b.object_selector)

  -- The loop over the entries that are there: whether the last one with the name is what would be
  -- written.
  pub is_up_to_date : Webhook → Bool → List Webhook → Bool
  unfolding webhook_entry_equal
  is_up_to_date webhook found [] = found
  is_up_to_date webhook found (existing ∷ webhooks) =
      is_up_to_date webhook
        (if existing.name == webhook.name then webhook_entry_equal existing webhook else found)
        webhooks

  -- What `upsert` writes, given the configuration that it read.
  pub upsert : Webhook → Bool → Option (List Webhook) → Write
  unfolding is_up_to_date
  upsert webhook is_deleted none = if is_deleted then keep else create (webhook ∷ [])
  upsert webhook is_deleted (some webhooks) =
      if is_up_to_date webhook false webhooks && not is_deleted
      then keep
      else update (
          if is_deleted
          then others webhook.name webhooks
          else others webhook.name webhooks ++ webhook ∷ [])

-- The stored object.
pub record Stored : Type 0 where
  pub version : ℕ
  pub configuration : Option (List Webhook)

-- Where a reconcile stands in its `RetryOnConflict`: about to read, with the retries that are left;
-- with what it read; or at its end.
pub data Phase : Type 0 where
  reading : ℕ → Phase
  writing : ℕ → Stored → Phase
  done : Phase
  failed : Error → Phase

-- `retry.DefaultRetry` tries five times.
abbrev pub default_retry : ℕ
default_retry = 4

-- After a conflict.
abbrev pub retry : ℕ → Phase
retry zero = failed conflict
retry (suc left) = reading left

-- The creation of an object that may be there.
pub created : List Webhook → Stored → Option (List Webhook) → Stored × Phase
created webhooks stored none =
    (record { version = stored.version + 1; configuration = some webhooks }, done)
created webhooks stored (some found) = (stored, failed already_exists)

-- A write reaches the API server.
pub commit : ℕ → Stored → Write → Stored → Stored × Phase
unfolding created
commit left read keep stored = (stored, done)
commit left read (create webhooks) stored = created webhooks stored stored.configuration
commit left read (update webhooks) stored =
    if nat_beq read.version stored.version
    then (record { version = stored.version + 1; configuration = some webhooks }, done)
    else (stored, retry left)

pub record System : Type 0 where
  pub stored : Stored
  pub phases : ℕ → Phase

abbrev pub set_phase : (ℕ → Phase) → ℕ → Phase → ℕ → Phase
set_phase phases i phase j = if nat_beq j i then phase else phases j

-- Another error of a call, and whether the call was carried out all the same.
pub record Outage : Type 0 where
  pub is_carried_out : Bool
  pub text : String

abbrev pub fails : Outage → Phase
fails outage = failed (other outage.text)

-- The answer to a read.
abbrev pub read_answer : Option Outage → ℕ → Stored → Stored × Phase
read_answer none left stored = (stored, writing left stored)
read_answer (some outage) left stored = (stored, fails outage)

-- The answer to a write; where there is nothing to write there is no call.
pub answer : Option Outage → Write → Stored → Stored × Phase → Stored × Phase
answer none write stored result = result
answer (some outage) keep stored result = result
answer (some outage) write stored result =
    (if outage.is_carried_out then result.0 else stored, fails outage)

-- The reconciles of several syncers; each has its entry, and whether its syncer is gone. Any call may
-- meet an outage.
module _ ⦃selector_eq : Eq (Option LabelSelector)⦄ (outages : ℕ → Stored → Phase → Option Outage)
    (webhooks : ℕ → Webhook) (is_deleted : ℕ → Bool) where
  -- One call of the API server by the reconcile `i`.
  pub advance : ℕ → Stored → Phase → Stored × Phase
  unfolding upsert commit answer
  advance i stored (reading left) = read_answer (outages i stored (reading left)) left stored
  advance i stored (writing left read) =
      let write = upsert (webhooks i) (is_deleted i) read.configuration in
      answer (outages i stored (writing left read)) write stored (commit left read write stored)
  advance i stored done = (stored, done)
  advance i stored (failed e) = (stored, failed e)

  pub step : ℕ → System → System
  unfolding advance
  step i system =
      let (stored, phase) = advance i system.stored (system.phases i) in
      record { stored = stored; phases = set_phase system.phases i phase }

  -- The reconciles take turns in the order of the schedule.
  unfoldable pub run : List ℕ → System → System
  unfolding step
  run [] system = system
  run (i ∷ schedule) system = run schedule (step i system)
