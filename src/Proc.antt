-- ===== src/Proc.antt =====
-- Processes: kernel/fork.c and kernel/sched_new.c.
pub mod Word
pub mod Pid
pub mod Cache
pub mod Sched
pub mod Process
pub mod Copy
pub mod Fork
pub mod Exit
