-- ===== src/Namei.antt =====
-- src/cpmfs.c: `cpmNamei`, from a file name to an inode, and `cpmStat`. The inode that the caller
-- passes keeps the members that the code does not assign, `xfcb` among them.
pub mod Found
use cpmtools.Base.{
  ℕ, zero, suc, ◌+◌, ◌-◌, ◌*◌, ◌/◌, ◌%◌, Bool, true, false, not, ◌&&◌, ◌||◌, List, [], ◌∷◌, Option,
  none, some, ◌==◌, ltb, if◌then◌else◌, get_elem?, get_or, length,
}
use cpmtools.Entry.{Entry}
use cpmtools.Super.{
  Drive, Result, ok, err, no_such_file, illegal_filename, file_not_found, has_flag, exact_size,
}
use cpmtools.Inode.{Kind, regular, Mode, Attr, Inode, has_bit, attr_of}
use cpmtools.Name.{split_filename}
use cpmtools.File.{is_dir}
use cpmtools.Lookup.{Extremes, file_extents}
use cpmtools.Listing.{passwd_name, label_name}
use cpmtools.Clock.{Clock}
use cpmtools.Stamp.{read_time_stamps, read_ds_stamps}

-- `strcmp(a, b) == 0`
abbrev pub is_same : List ℕ → List ℕ → Bool
is_same [] [] = true
is_same (a ∷ as') (b ∷ bs) = a == b && is_same as' bs
is_same _ _ = false

-- No attribute is set.
abbrev pub no_attributes : Attr
no_attributes = record {
  f1 = false;
  f2 = false;
  f3 = false;
  f4 = false;
  ro = false;
  sys = false;
  arcv = false;
  pwdel = false;
  pwwrite = false;
  pwread = false;
}

-- The inode of `[passwd]` or `[label]`.
unfoldable pub special : Inode → ℕ → ℕ → Inode
special i ino size = record i {
  attr = no_attributes;
  ino = ino;
  mode = record { kind = regular; bits = 0o444 };
  atime = 0;
  mtime = 0;
  ctime = 0;
  size = size;
}

-- "calculate size", from the highest extent number and its entry. The loop over the pointers has no
-- effect. A last record that counts more than 128 unused bytes in a file of one record would make
-- the size negative; here it is 0, which the code treats alike.
unfoldable pub file_size : Drive → ℕ → Entry → ℕ
file_size d extno e =
    if e.blkcnt == 0
    then extno * 16384
    else if has_flag d.type exact_size
    then extno * 16384 + (e.blkcnt - 1) * 128 + 128 - e.lrc
    else extno * 16384 + (e.blkcnt - 1) * 128 + (if e.lrc == 0 then 128 else e.lrc)

-- The permissions; the masks share no bit, so `|` is a sum.
unfoldable pub mode_bits : Entry → List ℕ → ℕ
mode_bits e extension =
    (if has_bit (get_or e.ext 1 0) 0x80 then 0o1000 else 0)
    + 0o444
    + (if has_bit (get_or e.ext 0 0) 0x80 then 0 else 0o222)
    + (if is_same extension (b'C' ∷ b'O' ∷ b'M' ∷ []) then 0o111 else 0)

module _ {S : Type 0} (clock : Clock S) (d : Drive) where
  -- The inode of a file of which the entries with the highest and the lowest extent number are known.
  unfoldable pub fill_inode : Inode → ℕ → Entry → ℕ → Entry → List ℕ → S → Inode × S
  fill_inode i extno highest lowest_ext lowest extension s =
      let i1 = record i {
        size = file_size d extno highest;
        ino = lowest_ext;
        mode = record { kind = regular; bits = 0 };
      } in
      let (protect_mode, i2, s') = read_time_stamps clock d i1 lowest_ext s in
      let i3 = record i2 {
        attr = attr_of lowest protect_mode;
        mode = record { kind = regular; bits = mode_bits lowest extension };
      } in
      (read_ds_stamps clock d i3 lowest_ext, s')

  -- What `cpmNamei` does with the name of a file.
  unfoldable pub namei_file : ℕ → List ℕ → List ℕ → Inode → S → Result Inode × S
  namei_file user name extension i s =
      let x = file_extents d user name extension in
      elim x.highest [
        | none ↦ (err file_not_found, s)
        | some (extno, highest_ext) ↦ elim x.lowest [
          | none ↦ (err file_not_found, s)
          | some lowest_ext ↦ elim (get_elem? d.dir highest_ext) [
            | none ↦ (err file_not_found, s)
            | some highest ↦ elim (get_elem? d.dir lowest_ext) [
              | none ↦ (err file_not_found, s)
              | some lowest ↦
                  let (i', s') = fill_inode i extno highest lowest_ext lowest extension s in
                  (ok i', s')
            ]
          ]
        ]
      ]

  -- `cpmNamei`
  unfoldable pub namei : Inode → List ℕ → Inode → S → Result Inode × S
  namei dir filename i s =
      if not (is_dir dir.mode)
      then (err no_such_file, s)
      else if is_same filename (b'.' ∷ []) || is_same filename (b'.' ∷ b'.' ∷ [])
      then (ok dir, s)
      else if is_same filename passwd_name && not (length d.passwd == 0)
      then (ok (special i (d.maxdir + 1) (length d.passwd)), s)
      else if is_same filename label_name && not (length d.label == 0)
      then (ok (special i (d.maxdir + 2) (length d.label)), s)
      else (elim (split_filename filename d.type) [
        | none ↦ (err illegal_filename, s)
        | some (user, name, extension) ↦ namei_file user name extension i s
      ])

-- `struct cpmStat`
pub record CpmStat : Type 0 where
  pub ino : ℕ
  pub mode : Mode
  pub size : ℕ
  pub atime : ℕ
  pub mtime : ℕ
  pub ctime : ℕ

-- `cpmStat`
unfoldable pub stat : Inode → CpmStat
stat ino = record {
  ino = ino.ino;
  mode = ino.mode;
  size = ino.size;
  atime = ino.atime;
  mtime = ino.mtime;
  ctime = ino.ctime;
}
