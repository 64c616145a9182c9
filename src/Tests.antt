-- ===== src/Tests.antt =====
-- Runs of the theorems at concrete states.
mod Memory
mod Paging
mod Queues
mod Processes
mod Loader
mod Text
mod Trap
mod Programs
mod Scheduled
mod Print
mod Tools
mod Binary
