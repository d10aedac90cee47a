-- ===== src/Worker.antt =====
-- spoolctl/worker.py. What the operating system and the other processes do is given from outside: the
-- probes of a pid, how the child ends, and the change that others make to the database meanwhile.
pub mod Liveness
pub mod Reaping
pub mod Running
pub mod Cycle
pub mod Leased
pub mod Loop
