-- ===== src/Interceptor.antt =====
-- internal/interceptor and pkg/interceptor: from an admission request to a push and an answer.
pub mod Context
pub mod Subject
pub mod Target
pub mod Tls
pub mod Push
pub mod Association
pub mod Response
pub mod Pipeline
