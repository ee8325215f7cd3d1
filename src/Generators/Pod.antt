-- ===== src/Generators/Pod.antt =====
-- What holds between the parts of the pod of a mint (internal/controller/generators).
pub mod Sublists
pub mod Environment
pub mod Mounts
pub mod Covering
pub mod OrchardCovering
pub mod AllMounts
pub mod PortNames
pub mod Ports
pub mod Metrics
pub mod Selectors
