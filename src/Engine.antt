-- ===== src/Engine.antt =====
-- bot/hypertrade/engine/runner.py: the parts of `EngineRunner` that decide whether a position may
-- be opened or closed. The loop that fetches candles and runs the strategies is left out.
pub mod Guard
pub mod Periodic
pub mod Opens
pub mod Outage
pub mod FlatAll
pub mod CloseSize
pub mod Refusals
