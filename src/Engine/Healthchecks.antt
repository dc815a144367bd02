-- ===== src/Engine/Healthchecks.antt =====
-- engine/healthcheck.go: which healthchecks an engine asks for, and for whom. Texts are numbers, the
-- empty one 0; maps are walked in the order of their lists, which may be any.
pub mod Keys
pub mod Marks
pub mod Checkers
pub mod Defs
pub mod Histories
pub mod Delivery
pub mod Twins
