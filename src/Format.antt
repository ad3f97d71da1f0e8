-- ===== src/Format.antt =====
-- src/cpmfs.c, "superblock management": `diskdefReadSuper`, the format of a disk from the lines of a
-- diskdefs file. A line comes taken apart by `strtok` and with its numbers read by `strtol`, which are the
-- C library's; comments are gone. A negative number is `none` where the code tests for one, and is left
-- out elsewhere; `int` arithmetic does not overflow. `none` as a result is `exit(1)`.
pub mod Diskdef
pub mod Read
pub mod Amstrad
use Prim.Native.Nat.{bit_or}
use cpmtools.Base.{
  ℕ, ◌+◌, ◌-◌, ◌*◌, ◌/◌, Bool, true, false, not, ◌&&◌, ◌||◌, List, [], ◌∷◌, Option, none, some,
  ◌==◌, ltb, if◌then◌else◌,
}
use cpmtools.Super.{Drive, hi_user, exact_size}
use cpmtools.Fsck.Special.{p2dos, dr3, mpm}

-- The operating systems that a definition can name.
pub data Os : Type 0 where
  os_22 os_3 os_mpm os_isx os_p2dos os_zsys os_other : Os

-- The unit behind an offset.
pub data OffsetUnit : Type 0 where
  bytes kilobytes megabytes whole_tracks whole_sectors unknown_unit : OffsetUnit

-- A line: its first word and the rest, read as the keyword takes it.
pub data Line : Type 0 where
  diskdef : List ℕ → Line
  end_word : Line
  set_seclen set_tracks set_sectrk set_blocksize set_maxdir set_boottrk : Option ℕ → Line
  set_dirblks set_skew set_logicalextents : ℕ → Line
  -- `none` where a number is missing
  set_skewtab : Option (List ℕ) → Line
  set_offset : Option ℕ → OffsetUnit → Line
  set_os : Os → Line
  -- two words of which the first is no keyword that the model keeps, one word, no word
  other_pair one_word blank : Line

-- The fields of the super block that a definition fills in; `none` is a number below 0.
pub record Format : Type 0 where
  pub sec_length : Option ℕ
  pub tracks : Option ℕ
  pub sectrk : Option ℕ
  pub blksiz : Option ℕ
  pub maxdir : Option ℕ
  pub boottrk : Option ℕ
  pub dirblks : ℕ
  pub skew : ℕ
  pub skewtab : List ℕ
  pub offset : ℕ
  pub extents : ℕ
  pub type : ℕ
  pub size : ℕ

-- what `diskdef` sets
abbrev pub defaults : ℕ → Format
defaults size = record {
  sec_length = none;
  tracks = none;
  sectrk = none;
  blksiz = none;
  maxdir = none;
  boottrk = none;
  dirblks = 0;
  skew = 1;
  skewtab = [];
  offset = 0;
  extents = 0;
  type = hi_user;
  size = size;
}

-- `INT_MAX`
abbrev pub int_max : ℕ
int_max = 2147483647

-- the multiplier of an offset's unit
unfoldable pub multiplier : OffsetUnit → Format → Option ℕ
multiplier bytes f = some 1
multiplier kilobytes f = some 1024
multiplier megabytes f = some (1024 * 1024)
multiplier whole_tracks f = elim f.sectrk [
  | none ↦ none
  | some sectrk ↦ elim f.tracks [
    | none ↦ none
    | some tracks ↦ elim f.sec_length [ none ↦ none | some len ↦ some (sectrk * len) ]
  ]
]
multiplier whole_sectors f = elim f.sectrk [
  | none ↦ none
  | some sectrk ↦ elim f.tracks [
    | none ↦ none
    | some tracks ↦ elim f.sec_length [ none ↦ none | some len ↦ some len ]
  ]
]
multiplier unknown_unit f = none

-- `d->offset = val * multiplier`, if it is in range
unfoldable pub with_offset : ℕ → Option ℕ → Format → Option Format
with_offset val none f = none
with_offset val (some m) f =
    if ltb int_max (val * m) then none else some (record f { offset = val * m })

-- `d->type |= …`
unfoldable pub os_type : Os → Option ℕ
os_type os_22 = some hi_user
os_type os_3 = some dr3
os_type os_mpm = some mpm
os_type os_isx = some exact_size
os_type os_p2dos = some p2dos
os_type os_zsys = some hi_user
os_type os_other = none

unfoldable pub with_type : Option ℕ → Format → Option Format
with_type none f = none
with_type (some t) f = some (record f { type = bit_or f.type t })

-- A line of a definition that is not its end.
unfoldable pub setting : Line → Format → Option Format
unfolding with_offset multiplier with_type os_type
setting (set_seclen v) f = some (record f { sec_length = v })
setting (set_tracks v) f = some (record f { tracks = v })
setting (set_sectrk v) f = some (record f { sectrk = v })
setting (set_blocksize none) f = none
setting (set_blocksize (some v)) f = if v == 0 then none else some (record f { blksiz = some v })
setting (set_maxdir v) f = some (record f { maxdir = v })
setting (set_boottrk v) f = some (record f { boottrk = v })
setting (set_dirblks v) f = some (record f { dirblks = v })
setting (set_skew v) f = some (record f { skew = v })
setting (set_logicalextents v) f = some (record f { extents = v })
setting (set_skewtab none) f = none
setting (set_skewtab (some t)) f = some (record f { skewtab = t })
setting (set_offset none unit) f = none
setting (set_offset (some val) unit) f = with_offset val (multiplier unit f) f
setting (set_os os) f = with_type (os_type os) f
setting one_word f = none
setting end_word f = some f
setting (diskdef name) f = some f
setting other_pair f = some f
setting blank f = some f

-- `d->size = …`; with fewer tracks than system tracks the quotient is not positive, which is 0 here.
-- A field below 0 gives a size that is not used.
unfoldable pub size_of : Format → ℕ
size_of f = elim f.blksiz [
  | none ↦ 0
  | some blksiz ↦ elim f.sec_length [
    | none ↦ 0
    | some len ↦ elim f.sectrk [
      | none ↦ 0
      | some sectrk ↦ elim f.tracks [
        | none ↦ 0
        | some tracks ↦ elim f.boottrk [
          | none ↦ 0
          | some boottrk ↦ len * sectrk * (tracks - boottrk) / blksiz
        ]
      ]
    ]
  ]
]

-- `((d->size > 256 ? 8 : 16) * d->blksiz) / 16384`
unfoldable pub extents_of : ℕ → ℕ → ℕ
extents_of size blksiz = (if ltb 256 size then 8 else 16) * blksiz / 16384

-- the two tests `if (d->extents == 0)`
unfoldable pub with_extents : ℕ → Option ℕ → ℕ → ℕ
with_extents extents none size = if extents == 0 then 1 else extents
with_extents extents (some blksiz) size =
    if not (extents == 0)
    then extents
    else if extents_of size blksiz == 0
    then 1
    else extents_of size blksiz

-- the line `end`
unfoldable pub complete : Format → Format
unfolding size_of with_extents extents_of
complete f = record f { size = size_of f; extents = with_extents f.extents f.blksiz (size_of f) }
