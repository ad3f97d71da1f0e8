-- ===== src/Sync.antt =====
-- src/cpmfs.c: `cpmSync` and `syncDs`, which write the directory and the file of time stamps back, and what
-- `cpmReadSuper` and `cpmCheckDs` read them with. The memory of the directory is that of its entries with
-- the bytes behind them, up to the end of its last block.
pub mod Bytes
pub mod ReadBack
use cpmtools.Base.{
  ℕ, zero, suc, ◌+◌, ◌-◌, ◌*◌, ◌/◌, ◌%◌, Bool, true, false, not, ◌&&◌, List, [], ◌∷◌, ◌++◌, Option,
  none, some, ◌==◌, if◌then◌else◌, get_or, take, drop, modify,
}
use cpmtools.Entry.{Entry}
use cpmtools.Super.{Drive, DsEntry, DsDate, Result, ok, err, has_flag, ds_dates}
use cpmtools.Layout.{to_bytes, of_bytes}
use cpmtools.Block.{Device, read_block, write_block}

-- The blocks of the directory.
unfoldable pub dir_blocks : Drive → ℕ
dir_blocks d = (d.maxdir * 32 + d.blksiz - 1) / d.blksiz

-- The entries as bytes, and bytes as that many entries.
abbrev pub dir_bytes : List Entry → List ℕ
dir_bytes [] = []
dir_bytes (e ∷ es) = to_bytes e ++ dir_bytes es

abbrev pub entries_of : ℕ → List ℕ → List Entry
entries_of zero bytes = []
entries_of (suc n) bytes = of_bytes (take 32 bytes) ∷ entries_of n (drop 32 bytes)

-- `struct dsEntry` and `struct dsDate` as bytes
abbrev pub ds_entry_bytes : DsEntry → List ℕ
ds_entry_bytes e = e.year ∷ e.month ∷ e.day ∷ e.hour ∷ e.minute ∷ []

abbrev pub ds_bytes : List DsDate → List ℕ
ds_bytes [] = []
ds_bytes (x ∷ xs) =
    ds_entry_bytes x.create
    ++ (ds_entry_bytes x.access ++ (ds_entry_bytes x.modify ++ (x.checksum ∷ ds_bytes xs)))

-- The records of the file of time stamps, of eight entries each, and its blocks.
unfoldable pub ds_records : Drive → ℕ
ds_records d = (d.maxdir + 7) / 8

unfoldable pub ds_blocks : Drive → ℕ
unfolding ds_records
ds_blocks d = (ds_records d * 128 + (d.blksiz - 1)) / d.blksiz

unfoldable pub ds_offset : Drive → ℕ
ds_offset d = (d.maxdir * 32 + (d.blksiz - 1)) / d.blksiz

-- The checksum of a record, `cksum & 0xff` after the loop over its first 127 bytes.
abbrev pub sum : List ℕ → ℕ
sum [] = 0
sum (b ∷ bs) = b + sum bs

unfoldable pub checksum_of : List ℕ → ℕ
checksum_of bytes = sum (take 127 bytes) % 256

-- "Re-calculate checksums": the last byte of a record is the last member of its eighth date.
pub set_checksums : ℕ → List DsDate → List DsDate
set_checksums zero dates = dates
set_checksums (suc n) dates =
    let eight = take 8 dates in
    modify eight 7 (λ x. record x { checksum = checksum_of (ds_bytes eight) })
    ++ set_checksums n (drop 8 dates)

module _ {S : Type 0} (dev : Device S) (d : Drive) where
  -- The loops that write `n` blocks from block `i` on, of memory of which each block starts `step`
  -- bytes behind the one before; an error ends them.
  pub write_blocks : ℕ → ℕ → ℕ → List ℕ → S → Result (Unit {0}) × S
  write_blocks zero step i bytes s = (ok tt, s)
  write_blocks (suc n) step i bytes s =
      let (result, s') = write_block dev d i (take d.blksiz bytes) 0 none s in
      elim result [
        | err why ↦ (err why, s')
        | ok done ↦ write_blocks n step (suc i) (drop step bytes) s'
      ]

  -- The loops that read `n` blocks from block `i` on into memory.
  unfoldable pub read_blocks : ℕ → ℕ → ℕ → List ℕ → S → Result (List ℕ)
  read_blocks zero step i memory s = ok memory
  read_blocks (suc n) step i memory s =
      let (result, block) = read_block dev d i (take d.blksiz memory) 0 none s in
      let all = block ++ drop d.blksiz memory in
      let rest = read_blocks n step (suc i) (drop step all) s in
      elim result [
        | err why ↦ err why
        | ok done ↦ elim rest [ err why ↦ err why | ok after ↦ ok (take step all ++ after) ]
      ]

  -- "read directory in core", into memory that held `memory`: the entries, and what lies behind them
  unfoldable pub read_directory : List ℕ → S → Result (List Entry × List ℕ)
  unfolding dir_blocks read_blocks
  read_directory memory s = elim (read_blocks (dir_blocks d) (d.blksiz / 32 * 32) 0 memory s) [
    | err why ↦ err why
    | ok bytes ↦ ok (entries_of d.maxdir bytes, drop (d.maxdir * 32) bytes)
  ]

  -- `syncDs`, where `rest` are the bytes of `sb->ds` behind the dates
  unfoldable pub sync_ds : List ℕ → S → Result (Unit {0}) × Drive × S
  unfolding ds_blocks ds_offset set_checksums write_blocks ds_records
  sync_ds rest s =
      if not d.dirty_ds
      then (ok tt, d, s)
      else let dates = set_checksums (ds_records d) d.ds in
        let (result, s') =
          write_blocks (ds_blocks d) d.blksiz (ds_offset d) (ds_bytes dates ++ rest) s in
        (result, record d { ds = dates }, s')

  -- The first half of `cpmSync`
  unfoldable pub sync_directory : List ℕ → S → Result (Unit {0}) × Drive × S
  unfolding dir_blocks write_blocks
  sync_directory rest s =
      if not d.dirty_directory
      then (ok tt, d, s)
      else let (result, s') =
          write_blocks (dir_blocks d) (d.blksiz / 32 * 32) 0 (dir_bytes d.dir ++ rest) s in
        elim result [
          | err why ↦ (err why, d, s')
          | ok done ↦ (ok tt, record d { dirty_directory = false }, s')
        ]

-- `cpmSync`; what `syncDs` returns is ignored.
unfoldable pub sync :
    {S : Type 0} → Device S → Drive → List ℕ → List ℕ → S → Result (Unit {0}) × Drive × S
sync dev d rest ds_rest s =
    let (result, d', s') = sync_directory dev d rest s in
    elim result [
      | err why ↦ (err why, d', s')
      | ok done ↦
          if has_flag d'.type ds_dates
          then (let (ignored, d2, s2) = sync_ds dev d' ds_rest s' in (ok tt, d2, s2))
          else (ok tt, d', s')
    ]
