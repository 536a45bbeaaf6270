-- ===== src/Tests.antt =====
-- Runs on concrete inputs, and applications of the theorems to them.
mod Sample
mod InterceptorTests
mod RenderTests
mod AccessTests
mod StoreTests
mod PolicyTests
mod ClusterWideTests
mod NamingTests
mod ConditionTests
mod DynamicTests
mod ValidationTests
mod TargetsTests
mod AssociationTests
mod WalkerTests
