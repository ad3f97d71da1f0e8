-- ===== src/Tests.antt =====
-- Runs of the model on small inputs, and the theorems at concrete inputs.
mod Sample
mod Makes
mod Alv
mod Names
mod Files
mod Blocks
mod Globs
mod Stats
mod Lookups
mod Listings
mod Clocks
mod Creates
mod Reads
mod Syncs
mod Writes
mod Fscks
mod Expands
mod Formats
mod Images
