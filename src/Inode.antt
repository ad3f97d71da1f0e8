-- ===== src/Inode.antt =====
-- src/cpmfs.h: the in-core inode. The pointer `sb` is the drive that each operation takes, and the
-- attribute word is a record of its bits, each of which the code sets and tests by one mask.
use cpmtools.Base.{ℕ, ◌/◌, ◌%◌, Bool, Option, ◌==◌, get_or}
use cpmtools.Entry.{Entry}

-- What `S_ISDIR` and `S_ISREG` tell apart.
pub data Kind : Type 0 where
  directory regular : Kind

-- `mode_t`: the kind of file, and the low bits (permissions and 01000).
pub record Mode : Type 0 where
  pub kind : Kind
  pub bits : ℕ

-- `cpm_attr_t`
pub record Attr : Type 0 where
  pub f1 : Bool
  pub f2 : Bool
  pub f3 : Bool
  pub f4 : Bool
  pub ro : Bool
  pub sys : Bool
  pub arcv : Bool
  pub pwdel : Bool
  pub pwwrite : Bool
  pub pwread : Bool

-- `struct cpmInode`; `none` in `xfcb` is -1.
pub record Inode : Type 0 where
  pub ino : ℕ
  pub mode : Mode
  pub size : ℕ
  pub attr : Attr
  pub atime : ℕ
  pub mtime : ℕ
  pub ctime : ℕ
  pub xfcb : Option ℕ

-- `c & mask` as a condition, for the masks 0x20, 0x40 and 0x80 of one bit
unfoldable pub has_bit : ℕ → ℕ → Bool
has_bit c mask = c / mask % 2 == 1

-- `cpmNamei`, "Determine the inode attributes": from the eighth bits of an entry's name and
-- extension, and from the byte `protectMode`.
unfoldable pub attr_of : Entry → ℕ → Attr
attr_of e protect_mode = record {
  f1 = has_bit (get_or e.name 0 0) 0x80;
  f2 = has_bit (get_or e.name 1 0) 0x80;
  f3 = has_bit (get_or e.name 2 0) 0x80;
  f4 = has_bit (get_or e.name 3 0) 0x80;
  ro = has_bit (get_or e.ext 0 0) 0x80;
  sys = has_bit (get_or e.ext 1 0) 0x80;
  arcv = has_bit (get_or e.ext 2 0) 0x80;
  pwdel = has_bit protect_mode 0x20;
  pwwrite = has_bit protect_mode 0x40;
  pwread = has_bit protect_mode 0x80;
}
