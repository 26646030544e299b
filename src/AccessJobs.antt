-- ===== src/AccessJobs.antt =====
-- src/access_jobs.py: tracked access jobs and the lock for each site and owner.
-- Times count milliseconds. Texts that the program builds are lists of code points.
pub mod Scope
pub mod Lock
pub mod Job
pub mod Locking
pub mod Execute
pub mod Create
pub mod Dispatch
pub mod Tests
