-- ===== src/Tests.antt =====
-- The theorems of the development at concrete inputs, and runs of the programs on small ones.
mod Caches
mod Trees
mod Chains
mod Numbers
mod Goroutines
mod Channels
mod Locks
mod Broadcasts
mod Norms
mod Retention
mod Readings
mod Deques
mod Urls
mod Heaps
