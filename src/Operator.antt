-- ===== src/Operator.antt =====
-- The process of the operator: cmd/main.go and the two functions by which it registers the
-- controller (internal/controller/cashumint_controller.go) and the webhooks
-- (api/v1alpha1/cashumint_webhook.go).
pub mod Options
pub mod Actions
pub mod Main
pub mod Plan
pub mod Protocols
pub mod Watching
