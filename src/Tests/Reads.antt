-- ===== src/Tests/Reads.antt =====
-- Reading a file of the sample disk, on a device of which each sector holds the number of its track.
use cpmtools.Base.{
  ℕ, zero, suc, ◌<◌, ◌≡◌, refl, List, [], ◌∷◌, arith, some, All, All-get_elem?, get_or, replicate,
  length-replicate,
}
use cpmtools.Entry.{Entry, extent}
use cpmtools.Super.{ok, has_flag, user_limit}
use cpmtools.Inode.{Inode}
use cpmtools.Dir.{is_extent_of, is_matching, same7, memcpy7, extent_no, find_file_extent, find_from}
use cpmtools.Block.{Device}
use cpmtools.Block.Address.{track_of}
use cpmtools.Block.Partial.{IsReadable}
use cpmtools.Content.{extcap, pointer_index, pointer_at, extent_at, read_file}
use cpmtools.Content.Bytes.{IsFormat}
use cpmtools.Content.Fetch.{IsSound}
use cpmtools.Content.Correct.{read_file-contents}
use cpmtools.Tests.Sample.{disk, foo_inode}

abbrev tracks : Device Unit
tracks = record {
  read_sector = λ s t r. some (replicate 128 t);
  write_sector = λ s t r bytes. some s;
}

abbrev foo_file : Inode
foo_file = record foo_inode { size = 16389 }

disk-IsFormat : IsFormat disk
unfolding extcap
disk-IsFormat = record {
  sectors_positive = omega arith;
  bytes_positive = omega arith;
  block_positive = omega arith;
  extents_positive = omega arith;
  whole_sectors = refl;
  capacity = refl;
  pointers = 16;
  whole_blocks = refl;
}

-- The pointers of an entry lie on the disk.
abbrev AreInside : Entry → Type 0
AreInside e = All (λ b. b < 16) e.pointers

get_or-lt : (bs : List ℕ) (i : ℕ) → All (λ b. b < 16) bs → get_or bs i 0 < 16
get_or-lt [] i h = omega arith
get_or-lt (b ∷ bs) zero h = h.0
get_or-lt (b ∷ bs) (suc i) h = get_or-lt bs i h.1

disk_inside : All AreInside disk.dir
disk_inside = ground arith

tracks-IsReadable : IsReadable tracks disk tt
tracks-IsReadable = record {
  sector = λ b c. replicate 128 (track_of disk b c);
  reads = λ b c p q. refl;
  sector_length = λ b c p q. length-replicate 128 (track_of disk b c);
}

foo_file-IsSound : IsSound tracks disk foo_file tt
unfolding pointer_at
foo_file-IsSound = record {
  format = disk-IsFormat;
  readable = tracks-IsReadable;
  inside = λ p x e h found there.
      get_or-lt e.pointers (pointer_index disk p)
        (All-get_elem? AreInside disk.dir x e disk_inside there);
}

-- The last byte of block 2 lies on track 3, and the first of block 3 on track 3 too; the file goes on
-- with a hole.
read_file-contents_example :
    read_file tracks disk foo_file tt (replicate 1024 7) 2046 4 ≡ ok (3 ∷ 3 ∷ 0 ∷ 0 ∷ [], 2050)
unfolding pointer_at pointer_index extent_at extcap is_extent_of is_matching same7 memcpy7 extent_no
    extent find_file_extent find_from user_limit has_flag
read_file-contents_example =
    read_file-contents tracks disk foo_file tt (replicate 1024 7) 2046 4 foo_file-IsSound
      (omega arith) (omega (arith, length-replicate {A = ℕ} 1024 7))
