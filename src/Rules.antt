-- ===== src/Rules.antt =====
-- src/rules/rule-evaluator.service.ts: the evaluator of the conditions that a config pack writes. The
-- package json-logic-js is the runtime's `apply_logic`.
pub mod Operators
pub mod Missing
pub mod Augment
pub mod Whitelist
pub mod Guarding
pub mod Shadowing
mod Tests
