-- ===== src/Timer.antt =====
-- src/timer.c: the timing wheel, its node pool and its command queue.
pub mod State
pub mod Pool
pub mod Wheel
pub mod Commands
mod Tests
