-- ===== src/Timer/Tick.antt =====
-- `timer_execute` and `timer_shift` below the horizon.
pub mod Execute
pub mod Shift
pub mod Exact
