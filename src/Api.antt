-- ===== src/Api.antt =====
-- The CashuMint resource: api/v1alpha1/cashumint_types.go. A Go pointer is an `Option`, a Go
-- `int32` or `int64` is a `ℤ`, and a Go `float64` is its 64-bit pattern, an `ℕ`: the program
-- stores and prints such a value and never computes with it. A resource quantity is its text,
-- as the API server stores it. Tolerations and the affinity, which the operator only passes on, are
-- texts, and a security context has the fields that the operator sets.
mod Kube
mod Backend
mod Companion
mod Spec
mod Mint
mod Queries
pub mod ActiveBackend
pub use Kube.*
pub use Backend.*
pub use Companion.*
pub use Spec.*
pub use Mint.*
unfoldable pub use Queries.*
