-- ===== src/Generators.antt =====
-- The manifests that the reconciler applies: internal/controller/generators. A manifest has the
-- fields that the generators set; the rest of a Kubernetes object is its zero value. The texts of
-- quantities are kept as texts.
pub mod Manifest
pub mod Names
pub mod Deployment
pub mod Orchard
pub mod Machinery
pub mod X509
pub mod Postgres
pub mod Backup
pub mod Service
pub mod Ingress
pub mod Storage
pub mod Certificate
pub mod ConfigMap
pub mod ManagementRpc
pub mod Mnemonic
pub mod Interface
pub mod Presence
pub mod Success
pub mod Pod
pub mod Contract
pub mod Defaults
