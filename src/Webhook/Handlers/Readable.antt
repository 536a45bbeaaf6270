-- ===== src/Webhook/Handlers/Readable.antt =====
-- What the author of a RemoteSyncer may do (internal/webhook/v1beta5/remotesyncer_rules_permissions.go).
use syngit.Common.{
  String, Bool, true, [], ◌∷◌, string_eq, ◌≡◌, ◌⊎◌, sym, ap, ◌∙◌, inl, inr, Bool-cases,
}
use syngit.Common.Errors.{Error, Result, ok}
use syngit.Api.{RemoteSyncer, namespaced}
use syngit.Rbac.{SubjectAccessReviewSpec}
use syngit.Webhook.{Answer, allowed, does_user_bypass_webhook}
use syngit.Webhook.Scope.Admitted.{if_false, IsAdmitted, authorize_syncer-IsAdmitted}
use syngit.Webhook.Handlers.{Request, decode_object, or_errored, remote_syncer_permissions}

pub or_errored-then {ℓ} :
    {T : Type ℓ} {r : Result T} {a : T} {z : Answer} (next : T → Answer)
    → r ≡ ok a
    → or_errored r next ≡ z
    → next a ≡ z
unfolding or_errored
or_errored-then next e h = sym (ap (λ x. or_errored x next) e) ∙ h

module _ (review : SubjectAccessReviewSpec → Result Bool) (req : Request) where
  -- A RemoteSyncer is admitted only if its author bypasses the webhooks, or may perform every
  -- operation that it scopes in its own namespace and get every object that it references outside
  -- it. Operations without a verb, such as '*', and resources that the API server does not know are
  -- passed over.
  pub remote_syncer_permissions-IsAdmitted :
      (error_text : Error → String) (manager : String) (decode : String → Result RemoteSyncer)
      (rs : RemoteSyncer)
      → decode_object decode req ≡ ok rs
      → remote_syncer_permissions review req error_text manager decode ≡ allowed
      → (does_user_bypass_webhook req.user manager ≡ true)
        ⊎ IsAdmitted review error_text req.user (namespaced rs) (rs.meta.namespace ∷ [])
  unfolding remote_syncer_permissions
  remote_syncer_permissions-IsAdmitted error_text manager decode rs decoded h =
      elim (Bool-cases (does_user_bypass_webhook req.user manager)) [
        | inl bypass ↦ inl bypass
        | inr other ↦ inr (
            authorize_syncer-IsAdmitted review error_text req.user (namespaced rs)
              (rs.meta.namespace ∷ []) (or_errored-then _ decoded (if_false allowed _ other h)))
      ]
