-- ===== src/Tests/Makes.antt =====
-- A new image of a small disk, over a file that held something else.
use cpmtools.Base.{◌≡◌, ◌++◌, refl, true, false, [], ◌∷◌, arith, replicate}
use cpmtools.Super.{Drive, ok}
use cpmtools.Clock.{Tm, day_number}
use cpmtools.Skew.{skew_table}
use cpmtools.Sync.{dir_blocks, read_directory}
use cpmtools.Sync.ReadBack.{IsWhole}
use cpmtools.Posix.{image}
use cpmtools.Make.{
  directory_bytes, system_sectors, label_entry, label_stamp, label_chars, entry_record, mkfs,
}
use cpmtools.Fsck.Consistent.{IsConsistent}
use cpmtools.Make.Fresh.{blank_entries}
use cpmtools.Make.Empty.{read_directory-mkfs}
use cpmtools.Tests.Sample.{disk, codes}

-- Three tracks of two sectors, of which the first is a system track, and a directory of three entries
-- in one block, which has room for a fourth.
abbrev plain : Drive
plain = record disk {
  sec_length = 64;
  sectrk = 2;
  tracks = 3;
  boottrk = 1;
  blksiz = 128;
  maxdir = 3;
  size = 2;
  skewtab = 0 ∷ 1 ∷ [];
  type = 0;
}

plain-IsWhole : IsWhole plain
unfolding skew_table
plain-IsWhole = record {
  sectors_positive = omega arith;
  skew_eq = refl;
  whole_sectors = refl;
  entries = 4;
  whole_entries = refl;
}

abbrev noon : Tm
noon = record {
  tm_sec = 0;
  tm_min = 34;
  tm_hour = 12;
  tm_mday = 2;
  month = 1;
  tm_year = 79;
  tm_yday = 1;
}

-- The second day of 1979 is day 367.
label_entry-noon :
    label_entry true (codes "Disk") noon
    ≡ 0x20 ∷ codes "DISK       "
      ++ (0x11 ∷ replicate 11 0 ++ (111 ∷ 1 ∷ 18 ∷ 52 ∷ 111 ∷ 1 ∷ 18 ∷ 52 ∷ []))
unfolding label_entry label_stamp label_chars day_number
label_entry-noon = refl

-- The new image is shorter than the old file, whose end stays.
mkfs-over :
    mkfs plain [] (replicate 128 7) false noon (replicate 300 9)
    ≡ replicate 128 7 ++ (replicate 128 0xe5 ++ replicate 44 9)
unfolding mkfs directory_bytes system_sectors entry_record
mkfs-over = refl

read_directory-mkfs_example :
    (read_directory
        (image plain)
        plain
        (replicate 128 0)
        (mkfs plain [] (replicate 128 7) true noon (9 ∷ 9 ∷ []))
      ≡ ok (blank_entries 3, replicate 32 0xe5))
    × IsConsistent plain (blank_entries 3)
unfolding dir_blocks directory_bytes
read_directory-mkfs_example =
    read_directory-mkfs plain [] (replicate 128 7) (9 ∷ 9 ∷ []) (replicate 128 0) true noon
      plain-IsWhole refl (omega arith) (omega arith) (omega arith) (omega arith) (omega arith)
      (omega arith) refl refl refl
