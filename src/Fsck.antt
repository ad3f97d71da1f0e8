-- ===== src/Fsck.antt =====
-- src/fsck.cpm.c: the check of a directory. Phase 1 looks at the fields of each entry and offers to
-- repair what is bad, phase 2 looks for blocks and extents that two places claim. `ret` is its two
-- bits, `modified` and `broken`. What is printed is left out: the messages, the checks of dates,
-- which only give messages, and the statistics.
pub mod Ask
pub mod Fields
pub mod Special
pub mod Phases
pub mod Runs
pub mod Reported
pub mod Post
pub mod Checked
pub mod Repaired
pub mod Connected
pub mod Unmodified
pub mod Answered
pub mod Consistent
pub mod Counted
pub mod Correct
