-- ===== src/Webhook.antt =====
-- internal/webhook/dispatcher.go: events for several targets. `Dispatch` is the dispatcher with its
-- targets and the result of an event, `Results` what the result says.
pub mod Dispatch
pub mod Results
mod Tests
