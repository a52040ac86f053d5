-- ===== src/K8sHelpers.antt =====
-- modules/shared/k8shelpers: who may see what, and the caches of clients and tokens.
pub mod Namespaces
pub mod Authorizer
pub mod Transport
pub mod ServiceAccountToken
pub mod KubeConfigWatcher
