-- ===== src/Worker.antt =====
-- src/stream_workers.rs: the task that moves the bytes of one data stream.
pub mod Meter
pub mod Loop
pub mod Conservation
pub mod Termination
pub mod Limit
pub mod Reports
pub mod Task
pub mod Intervals
pub mod Drain
