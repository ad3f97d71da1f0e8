-- ===== src/Tests/Files.antt =====
-- The file operations on the sample disk.
use cpmtools.Base.{
  ◌≢◌, ◌↔◌, ℕ, ◌≡◌, inr, refl, true, false, List, [], ◌∷◌, arith, none, some, All, get_elem?,
  or_bit,
}
use cpmtools.Entry.{Entry, IsEntry, low7}
use cpmtools.Super.{ok, has_flag, user_limit, Drive}
use cpmtools.Inode.{Attr, Inode, attr_of, has_bit}
use cpmtools.Name.{split_fields, split_filename}
use cpmtools.Alv.{alv_init}
use cpmtools.Dir.{
  memcpy7, same7, is_matching, is_extent_of, find_file_extent, find_from, each_extent,
}
use cpmtools.File.{
  is_dir, erase, update_xfcb, unlink, unlink_extents, retarget, rename, rename_extents, attr_set,
  chmod, name_bits, ext_bits, rename_bits, write_mode,
}
use cpmtools.File.Unlink.{HasFile, unlink-gone, unlink_keeps, unlink_iff}
use cpmtools.File.Rename.{rename_moves, rename_keeps}
use cpmtools.File.AttrSet.{attr_set_reads_back, attr_set_untouched}
use cpmtools.Tests.Sample.{
  foo_name, foo_ext, codes, disk, root, foo_inode, no_attr, foo0, foo1, bar, blank,
}

-- The disk after `foo.txt` is removed.
abbrev without_foo : Drive
without_foo = record disk {
  dirty_directory = true;
  dir = record foo0 { status = 0xe5 } ∷ bar ∷ record foo1 { status = 0xe5 } ∷ blank ∷ [];
  alv = 0x23 ∷ [];
}

-- `foo.txt` read as a name.
split_foo : split_filename (codes "00foo.txt") disk.type ≡ some (0, foo_name, foo_ext)
unfolding split_filename split_fields has_flag
split_foo = refl

unlink_foo : unlink disk root (codes "00foo.txt") ≡ (ok tt, without_foo)
unfolding unlink unlink_extents update_xfcb erase alv_init or_bit each_extent split_filename
    split_fields find_file_extent find_from is_extent_of is_matching same7 user_limit has_flag
unlink_foo = refl

unlink-gone_example : All (λ e. is_extent_of disk 0 foo_name foo_ext none e ≡ false) without_foo.dir
unlink-gone_example = unlink-gone disk root (codes "00foo.txt") split_foo unlink_foo

unlink_keeps_example : get_elem? without_foo.dir 1 ≡ some bar
unfolding is_extent_of is_matching same7 user_limit has_flag
unlink_keeps_example =
    unlink_keeps disk root (codes "00foo.txt") 1 bar split_foo unlink_foo refl refl refl

unlink_iff_example :
    (((unlink disk root (codes "00foo.txt")).0 ≡ ok tt)
      ↔ ((is_dir root.mode ≡ true) × HasFile disk (codes "00foo.txt")))
    × ((unlink disk root (codes "00foo.txt")).0 ≢ ok tt
        → (unlink disk root (codes "00foo.txt")).1 ≡ disk)
unlink_iff_example = unlink_iff disk root (codes "00foo.txt")

foo0-IsEntry : IsEntry foo0
foo0-IsEntry = omega arith

abbrev baz_name : List ℕ
baz_name = codes "BAZ     "

split_baz : split_filename (codes "05baz.txt") disk.type ≡ some (5, baz_name, foo_ext)
unfolding split_filename split_fields has_flag
split_baz = refl

-- The disk after `foo.txt` has become `baz.txt` of user 5.
abbrev with_baz : Drive
with_baz = record disk {
  dirty_directory = true;
  dir =
      record foo0 { status = 5; name = baz_name }
      ∷ bar
      ∷ record foo1 { status = 5; name = baz_name }
      ∷ blank
      ∷ [];
}

rename_foo : rename disk root (codes "00foo.txt") (codes "05baz.txt") ≡ (ok tt, with_baz)
unfolding rename rename_extents update_xfcb retarget memcpy7 each_extent split_filename split_fields
    find_file_extent find_from is_extent_of is_matching same7 user_limit has_flag
rename_foo = refl

disk-IsEntry : All IsEntry disk.dir
disk-IsEntry = omega arith

rename_moves_example :
    (get_elem? with_baz.dir 0 ≡ some (retarget 5 baz_name foo_ext foo0))
    × (is_extent_of disk 5 baz_name foo_ext none (retarget 5 baz_name foo_ext foo0) ≡ true)
unfolding is_extent_of is_matching same7 user_limit has_flag
rename_moves_example =
    rename_moves disk root (codes "00foo.txt") (codes "05baz.txt") 0 foo0 foo0-IsEntry split_foo
      split_baz (omega arith) rename_foo refl refl

rename_keeps_example : get_elem? with_baz.dir 1 ≡ some bar
unfolding is_extent_of is_matching same7 user_limit has_flag
rename_keeps_example =
    rename_keeps disk root (codes "00foo.txt") (codes "05baz.txt") 1 bar split_foo split_baz
      rename_foo refl refl refl

split_bar : split_filename (codes "00bar.com") disk.type ≡ some (0, codes "BAR     ", codes "COM")
unfolding split_filename split_fields has_flag
split_bar = refl

-- Read-only, and an archive bit.
abbrev ro_attr : Attr
ro_attr = record no_attr { ro = true; arcv = true }

abbrev ro_ext : List ℕ
ro_ext = 212 ∷ 88 ∷ 212 ∷ []

-- The disk and the inode of `foo.txt` with these attributes.
abbrev ro_disk : Drive
ro_disk = record disk {
  dirty_directory = true;
  dir = record foo0 { ext = ro_ext } ∷ bar ∷ record foo1 { ext = ro_ext } ∷ blank ∷ [];
}

abbrev ro_inode : Inode
ro_inode = record foo_inode { attr = ro_attr; mode = write_mode true foo_inode.mode }

attr_set_foo : attr_set disk foo_inode ro_attr ≡ some (ro_inode, ro_disk)
unfolding attr_set name_bits ext_bits memcpy7 rename_bits each_extent find_file_extent find_from
    is_extent_of is_matching same7 user_limit has_flag
attr_set_foo = refl

attr_set_reads_back_example :
    (x' : Entry) × (get_elem? ro_disk.dir 2 ≡ some x')
    × (attr_of x' 0 ≡ record ro_attr {
      pwdel = has_bit 0 0x20;
      pwwrite = has_bit 0 0x40;
      pwread = has_bit 0 0x80;
    })
    × (low7 x'.name ≡ foo_name)
    × (low7 x'.ext ≡ foo_ext)
unfolding is_extent_of is_matching same7 user_limit has_flag
attr_set_reads_back_example =
    attr_set_reads_back disk foo_inode ro_attr 2 0 foo0-IsEntry refl attr_set_foo refl
      (inr (omega arith, refl))

attr_set_untouched_example : get_elem? ro_disk.dir 1 ≡ some bar
unfolding is_extent_of is_matching same7 user_limit has_flag
attr_set_untouched_example =
    attr_set_untouched disk foo_inode ro_attr 1 bar foo0-IsEntry refl attr_set_foo refl
      (inr (omega arith, refl))

-- `chmod 444` of `foo.txt`
abbrev chmod_disk : Drive
chmod_disk = record disk {
  dirty_directory = true;
  dir =
      record foo0 { ext = 212 ∷ 88 ∷ 84 ∷ [] }
      ∷ bar
      ∷ record foo1 { ext = 212 ∷ 88 ∷ 84 ∷ [] }
      ∷ blank
      ∷ [];
}

abbrev chmod_inode : Inode
chmod_inode = record foo_inode {
  attr = record no_attr { ro = true };
  mode = write_mode true foo_inode.mode;
}

chmod_foo : chmod disk foo_inode 0o444 ≡ some (chmod_inode, chmod_disk)
unfolding chmod attr_set name_bits ext_bits memcpy7 rename_bits each_extent find_file_extent
    find_from is_extent_of is_matching same7 user_limit has_flag
chmod_foo = refl
