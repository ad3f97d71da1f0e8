-- ===== src/Tests/Creates.antt =====
-- A file made on the sample disk, and found by its name.
use cpmtools.Base.{ℕ, ◌≡◌, ◌↔◌, refl, true, false, List, [], ◌∷◌, arith, some, none, get_elem?}
use cpmtools.Entry.{Entry}
use cpmtools.Super.{ok, Drive, has_flag, user_limit}
use cpmtools.Inode.{Inode}
use cpmtools.Name.{split_filename, split_fields}
use cpmtools.Dir.{
  is_extent_of, is_matching, same7, memcpy7, find_file_extent, find_free_extent, find_from,
}
use cpmtools.Stamp.{date_entry, update_time_stamps, update_ds_stamps}
use cpmtools.Create.{new_entry, make_xfcb, update_stamps, creat_at, creat}
use cpmtools.Create.Made.{creat_makes, creat_keeps}
use cpmtools.Create.Succeeds.{Succeeds, creat_iff}
use cpmtools.File.{is_dir}
use cpmtools.Namei.{namei}
use cpmtools.Namei.Found.{IsFound, namei_finds}
use cpmtools.Tests.Clocks.{utc}
use cpmtools.Tests.Sample.{codes, disk, root, foo_inode, foo0, foo1, bar, foo_name, foo_ext}

abbrev new_name : List ℕ
new_name = codes "00new.doc"

abbrev new_fields : ℕ × List ℕ × List ℕ
new_fields = (0, codes "NEW     ", codes "DOC")

split_new : split_filename new_name disk.type ≡ some new_fields
unfolding split_filename split_fields has_flag
split_new = refl

-- The disk with the new file in the place of the free entry.
abbrev with_new : Drive
with_new = record disk {
  dirty_directory = true;
  dir = foo0 ∷ bar ∷ foo1 ∷ new_entry 0 new_fields.1 new_fields.2 ∷ [];
}

-- The inode of the new file.
abbrev new_inode : Inode
new_inode = record foo_inode {
  ino = 3;
  mode = record foo_inode.mode { bits = 0o644 };
  atime = 1000;
  mtime = 1001;
  ctime = 1002;
}

creat_new : creat utc disk root new_name foo_inode 0o644 1000 ≡ (ok new_inode, with_new, 1003)
unfolding creat creat_at make_xfcb update_stamps update_time_stamps update_ds_stamps date_entry
    find_file_extent find_free_extent find_from is_extent_of is_matching same7 memcpy7 user_limit
    split_filename split_fields has_flag
creat_new = refl

creat_makes_example :
    ((j : ℕ) (e : Entry)
      → get_elem? disk.dir j ≡ some e
      → is_extent_of disk 0 new_fields.1 new_fields.2 none e ≡ false)
    × (get_elem? with_new.dir 3 ≡ some (new_entry 0 new_fields.1 new_fields.2))
    × (is_extent_of disk 0 new_fields.1 new_fields.2 none (new_entry 0 new_fields.1 new_fields.2)
        ≡ true)
creat_makes_example = creat_makes utc disk root new_name foo_inode 0o644 1000 split_new creat_new

creat_keeps_example : get_elem? with_new.dir 1 ≡ some bar
unfolding is_extent_of is_matching same7 memcpy7 user_limit has_flag
creat_keeps_example =
    creat_keeps utc disk root new_name foo_inode 0o644 1000 1 bar split_new creat_new refl
      (omega arith) (omega arith) refl

split_foo : split_filename (codes "00foo.txt") disk.type ≡ some (0, foo_name, foo_ext)
unfolding split_filename split_fields has_flag
split_foo = refl

namei_finds_example :
    (r : Inode) × (s' : ℕ) × (namei utc disk root (codes "00foo.txt") foo_inode 1000 ≡ (ok r, s'))
    × IsFound disk 0 foo_name foo_ext r
unfolding is_extent_of is_matching same7 memcpy7 user_limit has_flag
namei_finds_example =
    namei_finds utc disk root (codes "00foo.txt") foo_inode 1000 2 foo1 refl split_foo refl refl

creat_iff_example : Succeeds (creat utc disk root new_name foo_inode 0o644 1000) ↔ (
    (is_dir root.mode ≡ true)
    × ((j : ℕ) (e : Entry)
        → get_elem? disk.dir j ≡ some e
        → is_extent_of disk 0 new_fields.1 new_fields.2 none e ≡ false)
    × (k : ℕ) × (e : Entry) × (get_elem? disk.dir k ≡ some e)
    × (e.status ≡ 0xe5))
unfolding has_flag
creat_iff_example = creat_iff utc disk root new_name foo_inode 0o644 1000 split_new refl
