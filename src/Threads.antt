-- ===== src/Threads.antt =====
-- example/ex10-threads-cooperative.c and example/ex11-threads-preemptive.c: threads in a circular
-- list. Threads.Machine has the structures and what the two programs share.
mod Ring
pub mod Machine
pub mod Queue
mod Links
pub mod Switch
mod Changes
mod Stacks
pub mod Coop
pub mod Preempt
