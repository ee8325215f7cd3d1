-- ===== src/Controller.antt =====
-- The reconciler: internal/controller/cashumint_controller.go and internal/controller/helpers.go.
-- The API server, the controller-runtime helpers and the generators of manifests are parameters
-- (Controller/Env.antt); a pass over a mint is a function of what they answer.
pub mod Env
pub mod Monad
pub mod Readiness
pub mod Secrets
pub mod Resources
pub mod Configuration
pub mod Status
pub mod StatusUpdate
pub mod Reconcile
pub mod Scheduling
pub mod Works
pub mod Healthy
pub mod WorkingResources
pub mod WorkingDatabase
pub mod WorkingConfiguration
pub mod WorkingSteps
pub mod Progress
pub mod Guard
pub mod GuardSteps
pub mod GuardResources
pub mod GuardSecrets
pub mod GuardDeletion
pub mod GuardConfiguration
pub mod GuardPass
pub mod StatusLaws
pub mod ReadinessLaws
pub mod StatusUpdateLaws
