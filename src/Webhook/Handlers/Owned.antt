-- ===== src/Webhook/Handlers/Owned.antt =====
-- Whose a managed RemoteUser is (internal/webhook/v1beta5/remoteuser_managed_permissions.go).
use mathlib.Core.Path.{subst}
use syngit.Common.{
  String, Bool, true, false, ◌||◌, [], ◌∷◌, ◌==◌, string_eq, if◌then◌else◌, ◌≡◌, refl, inl, inr,
  Bool-cases, arith, beq_refl,
}
use syngit.Common.Errors.{Result, ok, err, Result-cases}
use syngit.Api.{StringMap, get, put, RemoteUser, k8s_user_label_key}
use syngit.Webhook.{Answer, allowed, patched, denied, errored, does_user_bypass_webhook}
use syngit.Webhook.Handlers.{
  Request, decode_object, or_errored, sanitize, stamp, is_managed, is_owner, answer_stamped, create,
  delete, update, remote_user_managed,
}
use syngit.Webhook.Handlers.Readable.{or_errored-then}

pub is_refusal : Answer → Bool
is_refusal allowed = false
is_refusal (patched ru) = false
is_refusal (denied e) = true
is_refusal (errored code e) = true

get-put : (m : StringMap) (key value : String) → get (put m key value) key ≡ value
get-put [] key value = rw (beq_refl key) refl
get-put ((k, v) ∷ m) key value = elim (Bool-cases (k == key)) [
  | inl same ↦ rw (same, same) refl
  | inr other ↦ rw (other, other) (get-put m key value)
]

module _ (hex_sha256 : String → String) (decode : String → Result RemoteUser)
    (marshal : RemoteUser → Result String) (manager : String) (req : Request) where
  -- A managed RemoteUser of another user can neither be changed nor deleted, by any but those who
  -- bypass the webhooks.
  pub remote_user_managed-refusal :
      (old : RemoteUser)
      → (req.operation == "DELETE") || (req.operation == "UPDATE") ≡ true
      → does_user_bypass_webhook req.user manager ≡ false
      → decode req.old_object ≡ ok old
      → is_managed old ≡ true
      → is_owner hex_sha256 decode marshal manager req old ≡ false
      → is_refusal (remote_user_managed hex_sha256 decode marshal manager req) ≡ true
  unfolding remote_user_managed is_refusal delete update or_errored decode_object
  remote_user_managed-refusal old op plain decoded managed stranger =
      elim (Bool-cases (req.operation == "DELETE")) [
        | inl deletion ↦ rw (deletion, decoded, plain, managed, stranger) refl
        | inr other ↦ elim (Result-cases (decode req.object)) [
          | inr (e, bad) ↦ rw (other, bad) refl
          | inl (ru, good) ↦
              let updating : (req.operation == "UPDATE") ≡ true = ground (arith, op, other) in
              rw (other, good, updating, plain, decoded, managed, stranger) refl
        ]
      ]

  -- The stamp of the author: who is recorded is who asked, and nothing else changes.
  pub record IsStamped (ru stamped : RemoteUser) : Type 0 where
    pub label : get stamped.meta.labels k8s_user_label_key ≡ sanitize hex_sha256 req.user.username
    pub annotation : get stamped.meta.annotations k8s_user_label_key ≡ req.user.username
    pub name : stamped.meta.name ≡ ru.meta.name
    pub namespace : stamped.meta.namespace ≡ ru.meta.namespace
    pub spec : stamped.spec ≡ ru.spec

  stamp-IsStamped : (ru : RemoteUser) → IsStamped ru (stamp hex_sha256 req.user ru)
  unfolding stamp
  stamp-IsStamped ru = record {
    label = get-put ru.meta.labels k8s_user_label_key (sanitize hex_sha256 req.user.username);
    annotation = get-put ru.meta.annotations k8s_user_label_key req.user.username;
    name = refl;
    namespace = refl;
    spec = refl;
  }

  -- The answers that store an object store a stamped one.
  StampsOnly : RemoteUser → Answer → Type 0
  StampsOnly ru allowed = Unit
  StampsOnly ru (patched stamped) = IsStamped ru stamped
  StampsOnly ru (denied e) = Unit
  StampsOnly ru (errored code e) = Unit

  StampsOnly-if :
      (ru : RemoteUser) (b : Bool) (x y : Answer)
      → StampsOnly ru x
      → StampsOnly ru y
      → StampsOnly ru (if b then x else y)
  StampsOnly-if ru true x y p q = p
  StampsOnly-if ru false x y p q = q

  create-StampsOnly :
      (ru : RemoteUser) → StampsOnly ru (create hex_sha256 decode marshal manager req ru)
  unfolding create StampsOnly answer_stamped
  create-StampsOnly ru = elim (Bool-cases (is_managed ru)) [
    | inr other ↦ rw other tt
    | inl managed ↦ elim (Result-cases (marshal (stamp hex_sha256 req.user ru))) [
      | inl (raw, e) ↦ rw (managed, e) (stamp-IsStamped ru)
      | inr (e, bad) ↦ rw (managed, bad) tt
    ]
  ]

  or_errored-StampsOnly {ℓ} :
      {T : Type ℓ} (ru : RemoteUser) (r : Result T) (next : T → Answer)
      → ((a : T) → StampsOnly ru (next a))
      → StampsOnly ru (or_errored r next)
  unfolding or_errored StampsOnly
  or_errored-StampsOnly ru (ok a) next h = h a
  or_errored-StampsOnly ru (err e) next h = tt

  delete-StampsOnly :
      (ru : RemoteUser) → StampsOnly ru (delete hex_sha256 decode marshal manager req ru)
  unfolding delete StampsOnly
  delete-StampsOnly ru = StampsOnly-if ru (does_user_bypass_webhook req.user manager) _ _ tt (
      StampsOnly-if ru (is_managed ru) _ _
        (or_errored-StampsOnly ru (decode req.old_object) _
          λ old. StampsOnly-if ru (is_owner hex_sha256 decode marshal manager req old) _ _ tt tt)
        (create-StampsOnly ru))

  update-StampsOnly :
      (ru : RemoteUser) → StampsOnly ru (update hex_sha256 decode marshal manager req ru)
  unfolding update StampsOnly
  update-StampsOnly ru = StampsOnly-if ru (does_user_bypass_webhook req.user manager) _ _ tt (
      or_errored-StampsOnly ru (decode req.old_object) _ λ old.
        StampsOnly-if ru (is_managed old) _ _
          (StampsOnly-if ru (is_owner hex_sha256 decode marshal manager req old) _ _
            (create-StampsOnly ru) tt)
          (create-StampsOnly ru))

  -- What is stored in place of the RemoteUser that was sent differs from it by the stamp of its
  -- author alone.
  pub remote_user_managed-IsStamped :
      (ru stamped : RemoteUser)
      → decode_object decode req ≡ ok ru
      → remote_user_managed hex_sha256 decode marshal manager req ≡ patched stamped
      → IsStamped ru stamped
  unfolding remote_user_managed StampsOnly
  remote_user_managed-IsStamped ru stamped decoded h =
      subst (StampsOnly ru) (or_errored-then _ decoded h) (
        StampsOnly-if ru (req.operation == "DELETE") _ _ (delete-StampsOnly ru) (
          StampsOnly-if ru (req.operation == "UPDATE") _ _ (update-StampsOnly ru)
            (create-StampsOnly ru)))
