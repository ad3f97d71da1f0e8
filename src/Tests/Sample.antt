-- ===== src/Tests/Sample.antt =====
-- A small disk: 16 blocks of which two hold the directory, 4 directory entries, the file `foo.txt` in two
-- extents and the file `bar.com`.
use cpmtools.Base.{ℕ, List, [], ◌∷◌, none, true, false}
use cpmtools.Entry.{Entry}
use cpmtools.Super.{Drive}
use cpmtools.Inode.{Inode, directory, regular, Attr}
use Prim.Native.Char.{code}
use Prim.Native.String.{String}

-- The characters of a text.
abbrev pub codes : String → List ℕ
codes String.[] = []
codes (String.◌∷◌ c s) = code c ∷ codes s

abbrev pub foo_name : List ℕ
foo_name = codes "FOO     "

abbrev pub foo_ext : List ℕ
foo_ext = codes "TXT"

abbrev pub foo0 : Entry
foo0 = record {
  status = 0;
  name = 70 ∷ 79 ∷ 79 ∷ 32 ∷ 32 ∷ 32 ∷ 32 ∷ 32 ∷ [];
  ext = 84 ∷ 88 ∷ 84 ∷ [];
  extnol = 0;
  lrc = 0;
  extnoh = 0;
  blkcnt = 128;
  pointers = 2 ∷ 3 ∷ 0 ∷ 0 ∷ 0 ∷ 0 ∷ 0 ∷ 0 ∷ 0 ∷ 0 ∷ 0 ∷ 0 ∷ 0 ∷ 0 ∷ 0 ∷ 0 ∷ [];
}

abbrev pub bar : Entry
bar = record foo0 {
  name = 66 ∷ 65 ∷ 82 ∷ 32 ∷ 32 ∷ 32 ∷ 32 ∷ 32 ∷ [];
  ext = 67 ∷ 79 ∷ 77 ∷ [];
  blkcnt = 3;
  pointers = 5 ∷ 0 ∷ 0 ∷ 0 ∷ 0 ∷ 0 ∷ 0 ∷ 0 ∷ 0 ∷ 0 ∷ 0 ∷ 0 ∷ 0 ∷ 0 ∷ 0 ∷ 0 ∷ [];
}

abbrev pub foo1 : Entry
foo1 = record foo0 {
  extnol = 1;
  blkcnt = 2;
  lrc = 5;
  pointers = 6 ∷ 0 ∷ 0 ∷ 0 ∷ 0 ∷ 0 ∷ 0 ∷ 0 ∷ 0 ∷ 0 ∷ 0 ∷ 0 ∷ 0 ∷ 0 ∷ 0 ∷ 0 ∷ [];
}

abbrev pub blank : Entry
blank = record foo0 { status = 0xe5 }

abbrev pub disk : Drive
disk = record {
  uppercase = false;
  sec_length = 128;
  tracks = 10;
  sectrk = 16;
  blksiz = 1024;
  maxdir = 4;
  dirblks = 2;
  skew = 1;
  boottrk = 2;
  offset = 0;
  type = 1;
  size = 16;
  extents = 1;
  skewtab = 0 ∷ 1 ∷ 2 ∷ 3 ∷ 4 ∷ 5 ∷ 6 ∷ 7 ∷ 8 ∷ 9 ∷ 10 ∷ 11 ∷ 12 ∷ 13 ∷ 14 ∷ 15 ∷ [];
  dir = foo0 ∷ bar ∷ foo1 ∷ blank ∷ [];
  alv = 0x6f ∷ [];
  cnotatime = true;
  cmakexfcbs = false;
  label = [];
  passwd = [];
  dirty_directory = false;
  ds = [];
  dirty_ds = false;
}

abbrev pub no_attr : Attr
no_attr = record {
  f1 = false;
  f2 = false;
  f3 = false;
  f4 = false;
  ro = false;
  sys = false;
  arcv = false;
  pwdel = false;
  pwwrite = false;
  pwread = false;
}

abbrev pub root : Inode
root = record {
  ino = 4;
  mode = record { kind = directory; bits = 0o777 };
  size = 0;
  attr = no_attr;
  atime = 0;
  mtime = 0;
  ctime = 0;
  xfcb = none;
}

-- The inode of `foo.txt`.
abbrev pub foo_inode : Inode
foo_inode = record root { ino = 0; mode = record { kind = regular; bits = 0o666 } }
