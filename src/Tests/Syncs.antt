-- ===== src/Tests/Syncs.antt =====
-- The directory of a small disk, written back and read.
use cpmtools.Base.{◌≡◌, refl, [], true, false, arith, replicate, All}
use cpmtools.Super.{Drive, ok, has_flag}
use cpmtools.Skew.{skew_table}
use cpmtools.Layout.Views.{HasShape}
use cpmtools.Block.{write_block}
use cpmtools.Sync.{dir_blocks, sync, sync_directory, read_directory}
use cpmtools.Sync.ReadBack.{IsWhole, read_directory-sync}
use cpmtools.Tests.Blocks.{Store, store, filled, store-Keeps}
use cpmtools.Tests.Sample.{disk, foo0, bar, foo1, blank}

-- The sample disk with blocks of one sector, of which the directory takes one.
abbrev tiny : Drive
tiny = record disk { blksiz = 128; dirty_directory = true }

tiny-IsWhole : IsWhole tiny
unfolding skew_table
tiny-IsWhole = record {
  sectors_positive = omega arith;
  skew_eq = refl;
  whole_sectors = refl;
  entries = 4;
  whole_entries = refl;
}

shapes : All HasShape disk.dir
shapes =
    let v : HasShape foo0 = record {
      name_length = refl;
      ext_length = refl;
      pointers_length = refl;
    } in
    let w : HasShape bar = record {
      name_length = refl;
      ext_length = refl;
      pointers_length = refl;
    } in
    let x : HasShape foo1 = record {
      name_length = refl;
      ext_length = refl;
      pointers_length = refl;
    } in
    let y : HasShape blank = record {
      name_length = refl;
      ext_length = refl;
      pointers_length = refl;
    } in
    (v, (w, (x, (y, tt))))

-- The device after `cpmSync`.
abbrev synced : Store
synced = (sync store tiny [] [] filled).2

read_directory-sync_example : read_directory store tiny (replicate 128 0) synced ≡ ok (disk.dir, [])
unfolding sync sync_directory write_block has_flag dir_blocks
read_directory-sync_example =
    read_directory-sync store store-Keeps tiny [] [] (replicate 128 0) filled synced
      (record tiny { dirty_directory = false }) tiny-IsWhole (omega arith) refl shapes refl refl
      refl refl refl
