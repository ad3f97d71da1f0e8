-- ===== src/Tests/Lookups.antt =====
-- The lookup of `foo.txt` on the sample disk.
use cpmtools.Base.{◌≡◌, ◌≤◌, ◌↔◌, refl, true, false, none, some}
use cpmtools.Entry.{extent}
use cpmtools.Super.{has_flag, user_limit}
use cpmtools.Dir.{same7, extent_no, is_matching, is_extent_of, find_from}
use cpmtools.Lookup.{is_listed, file_extents}
use cpmtools.Lookup.Extents.{High, Low, file_extents-extreme}
use cpmtools.Lookup.Listed.{NoLower, is_listed_iff}
use cpmtools.Tests.Sample.{foo0, foo1, foo_name, foo_ext, disk}

file_extents-extreme_example :
    High (is_extent_of disk 0 foo_name foo_ext none) disk.dir 4 (some (1, 2))
    × Low (is_extent_of disk 0 foo_name foo_ext none) disk.dir 4 0 (some 0)
unfolding file_extents find_from is_extent_of is_matching same7 user_limit has_flag extent_no extent
file_extents-extreme_example = file_extents-extreme disk 0 foo_name foo_ext

is_listed_iff_example :
    (is_listed disk 0 foo0 ≡ true) ↔ ((0 ≤ user_limit disk) × NoLower foo0 0 disk.dir 0)
is_listed_iff_example = is_listed_iff disk 0 foo0

second_extent_not_listed : is_listed disk 2 foo1 ≡ false
unfolding is_listed is_matching same7 user_limit has_flag extent_no extent
second_extent_not_listed = refl
