-- ===== src/Tests.antt =====
-- The theorems applied at concrete states, with a small kernel and VM to run on.
pub mod Buffers
pub mod Copies
pub mod Rounds
pub mod World
pub mod Counter
pub mod Names
pub mod Arrived
pub mod Nonblock
pub mod Load
pub mod Waits
pub mod Deliveries
pub mod Sending
pub mod Threads
pub mod Totals
pub mod Retries
pub mod Moved
