-- ===== src/Super.antt =====
-- src/cpmfs.h: the super block that every operation of cpmfs.c works on, its type flags, and the
-- reasons that the global `boo` reports.
use Prim.Native.Nat.{bit_and}
use cpmtools.Base.{ℕ, ◌*◌, ◌≤◌, ◌≡◌, Bool, not, List, ◌==◌, length, All, if◌then◌else◌}
use cpmtools.Entry.{Entry, IsEntry}

-- the masks `CPMFS_…` of the field `type`
abbrev pub hi_user : ℕ
hi_user = 1

abbrev pub cpm3_dates : ℕ
cpm3_dates = 2

abbrev pub cpm3_other : ℕ
cpm3_other = 4

abbrev pub ds_dates : ℕ
ds_dates = 8

abbrev pub exact_size : ℕ
exact_size = 16

abbrev pub mpm_dates : ℕ
mpm_dates = 32

abbrev pub has_xfcbs : ℕ
has_xfcbs = 64

-- `type & mask`, as a condition
unfoldable pub has_flag : ℕ → ℕ → Bool
has_flag type mask = not (bit_and type mask == 0)

-- `struct dsEntry`
pub record DsEntry : Type 0 where
  pub year : ℕ
  pub month : ℕ
  pub day : ℕ
  pub hour : ℕ
  pub minute : ℕ

-- `struct dsDate`
pub record DsDate : Type 0 where
  pub create : DsEntry
  pub access : DsEntry
  pub modify : DsEntry
  pub checksum : ℕ

-- What the code assigns to `boo` before it returns -1.
pub data Boo : Type 0 where
  illegal_filename device_full directory_full file_not_found file_exists : Boo
  no_such_file permission_denied not_a_directory not_a_regular_file beyond_end : Boo
  device_error no_file_or_directory : Boo

-- The value of a function that returns -1 on an error.
pub data Result {ℓ} (A : Type ℓ) : Type ℓ where
  ok : A → Result A
  err : Boo → Result A

-- `struct cpmSuperBlock`. `alvSize`, `labelLength` and `passwdLength` are the lengths of the lists
-- `alv`, `label` and `passwd`.
pub record Drive : Type 0 where
  pub uppercase : Bool
  pub sec_length : ℕ
  pub tracks : ℕ
  pub sectrk : ℕ
  pub blksiz : ℕ
  pub maxdir : ℕ
  pub dirblks : ℕ
  pub skew : ℕ
  pub boottrk : ℕ
  pub offset : ℕ
  pub type : ℕ
  pub size : ℕ
  pub extents : ℕ
  pub skewtab : List ℕ
  pub dir : List Entry
  pub alv : List ℕ
  pub cnotatime : Bool
  pub cmakexfcbs : Bool
  pub label : List ℕ
  pub passwd : List ℕ
  pub dirty_directory : Bool
  pub ds : List DsDate
  pub dirty_ds : Bool

-- `type & CPMFS_HI_USER ? 31 : 15`
unfoldable pub user_limit : Drive → ℕ
user_limit d = if has_flag d.type hi_user then 31 else 15

-- What `cpmReadSuper` establishes: the in-core directory has `maxdir` entries of bytes, and the
-- bitmap has a bit for each block and for each directory block.
pub record IsDrive (d : Drive) : Type 0 where
  pub dir_length : length d.dir ≡ d.maxdir
  pub entries : All IsEntry d.dir
  pub size_covered : d.size ≤ 32 * length d.alv
  pub dirblks_covered : d.dirblks ≤ 32 * length d.alv
