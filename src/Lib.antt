-- ===== src/Lib.antt =====
-- A verification of syngit, the operator that commits intercepted Kubernetes objects to git.
--
-- A RemoteSyncer says which resources are intercepted and to which repository they belong. When a
-- user applies one of them, the API server asks syngit: the pipeline checks that the author may use
-- the syncer, finds the git credentials and the targets that its bindings give to the author, renders
-- the manifest, pushes it, and allows or refuses the request. Webhooks guard who may create syncers,
-- users and bindings in the first place. Policies keep managed targets and the bindings that refer
-- to them.
--
-- The files:
--   Common            names from the libraries, Boolean tests, lists, equality as an interface
--   Common/Errors     errors as values (pkg/errors/errors.go), and the results that carry them
--   Api               the custom resources (pkg/api/v1beta5)
--   Refs              the references of a resource (pkg/refs/refs.go); Laws, against resolving a
--                     list of candidates; Totals, when that succeeds; Named, what a reference names
--   Rbac              access reviews (pkg/rbac)
--   Render            the removal of excluded fields and the manifest (pkg/render)
--   Interceptor       Context (pkg/interceptor/syncer.go), Subject, Target and Association
--                     (internal/interceptor/subject.go, target.go, k8s_references.go), Tls
--                     (pkg/interceptor/tls.go), Push and Pipeline (internal/interceptor/pipeline.go),
--                     Response (response.go, k8s_utils.go)
--   Cache             the LFU cache (internal/cache/lfu.go)
--   Webhook           the permission webhooks (internal/webhook/v1beta5)
--   Policy            the finalizers of the policies of an object (internal/policy/policy.go)
--   Conditions        the conditions of a status (pkg/kube/conditions.go)
--   Naming            names that Kubernetes takes (pkg/naming/sanitize.go); Target, the names of
--                     targets (remotetarget.go)
--   Managed           the references in managed bindings (pkg/managed/remoteuserbinding.go)
--   Validation        the validation of syncers and targets (internal/webhook/v1beta5/*_webhook.go)
--   Dynamic           the webhook configuration that all syncers share, under concurrent updates
--                     and outages of the API server (internal/controller/dynamic_webhook.go)
--   Targets           the store of the policies and its calls (internal/policy/syncers.go); Losses,
--                     Shrinks, Reads and Sweep, what calls and loops keep and delete; Branches
--                     (pkg/managed/annotations.go); Branch and User, the policies of targets, and
--                     Association, that of the users' bindings (internal/policy/
--                     branchtarget_policy.go, userspecific_policy.go, association_policy.go)
--   Walker            the documents of the files of a repository: Files, a search and a replacement, and
--                     Write, a write at a path (internal/walker/document.go, object.go, cache.go);
--                     Document, Replaced, Reached, Cached, Found and Written, what they leave
--   Tests             runs on a sample cluster, and applications of the theorems
--
-- A function of the program that may fail returns a Result; RunInterceptionPipeline returns its
-- answer with the pushes and the status updates that it made, in order. What the API server, the
-- codecs and the git pipeline answer is given by functions that the theorems take as arguments and
-- assume nothing of, beyond what an entry below says. A Go map is an association list: the targets
-- of a user, whose order plays no part, and the entries of the cache, whose order stands for that
-- of an iteration.
--
-- Bounds: the counters of the cache wrap at 2 ^ 32, as a uint32 does; halving keeps them below
-- 2 ^ 16. The loop of the eviction runs on the number of entries as fuel, which is enough, since each
-- round removes an entry. The loop over the names of a user's binding has as its fuel the hundred
-- attempts of the program. All other loops are recursions on lists.
--
-- Not modelled: the texts of error messages (a parameter), times, logging, the writes of status
-- updates, git itself (internal/pusher), the mutation providers (internal/mutator), the directories
-- of a repository (WalkWorktreeYAML of internal/walker) and the documents that are carried over
-- (TransformChangedDocs), the controllers but for the shared webhook configuration, and the older
-- API v1beta4. The policies may meet the failure of any call, as an oracle says; a retried write is
-- its last try.
pub mod Common
pub mod Api
pub mod Refs
pub mod Rbac
pub mod Interceptor
pub mod Render
pub mod Cache
pub mod Webhook
pub mod Managed
pub mod Policy
pub mod Conditions
pub mod Naming
pub mod Validation
pub mod Dynamic
pub mod Targets
pub mod Walker
pub mod Tests
