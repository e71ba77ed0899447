-- ===== src/Scheduler.antt =====
-- helper/core/execute/scheduler.c: the task table and the round-robin switch. `State` holds the
-- tables and operations, `Services` the calls into other parts of the kernel and the processor.
pub mod Services
pub mod State
pub mod Spawn
pub mod Table
pub mod RoundRobin
pub mod Served
pub mod Timer
pub mod Ticks
