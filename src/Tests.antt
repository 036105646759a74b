-- ===== src/Tests.antt =====
-- The theorems at concrete data, over the machine of Host/Memory.antt, and runs of the code.
mod Data
mod Handles
mod Opened
mod Publishing
mod Unpublishing
mod Sweeping
mod Mounting
mod Restarting
mod Following
mod Looping
mod Serving
mod Racing
mod Exiting
mod Interleaving
mod Colliding
mod Leasing
mod Twice
mod Crashing
mod Surviving
mod Parting
mod Ordering
