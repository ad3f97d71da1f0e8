-- ===== src/Tests/Stats.antt =====
-- The statistics of the sample disk.
use cpmtools.Base.{ℕ, ◌<◌, ◌-◌, ◌≡◌, ◌↔◌, refl, arith}
use cpmtools.Super.{ok}
use cpmtools.Alv.{alloc_block}
use cpmtools.Stat.{pos, diff, stat_fs}
use cpmtools.Stat.Blocks.{free_blocks, stat_fs-blocks, alloc_block-stat_fs}
use cpmtools.Tests.Sample.{disk}

stat_fs-disk : ((stat_fs disk).f_bfree ≡ 10) × ((stat_fs disk).f_bused ≡ pos 4)
unfolding stat_fs
stat_fs-disk = (refl, refl)

stat_fs-blocks_example :
    ((stat_fs disk).f_bfree ≡ free_blocks disk)
    × ((stat_fs disk).f_bused ≡ diff (16 - free_blocks disk) 2)
stat_fs-blocks_example = stat_fs-blocks disk (omega arith)

alloc_block-stat_fs_example :
    ((b : ℕ) × ((alloc_block disk).0 ≡ ok b)) ↔ (0 < (stat_fs disk).f_bfree)
alloc_block-stat_fs_example = alloc_block-stat_fs disk (omega arith)
