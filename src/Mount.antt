-- ===== src/Mount.antt =====
-- src/cpmfs.c: `cpmReadSuper`, from the format that it has been given on, and `cpmCheckDs`. What
-- `diskdefReadSuper` and `amsReadSuper` set is in the drive that is passed. `Device_setGeometry` is a
-- parameter, and memory is never short. Where there is no disk label, `cmakexfcbs` stays what it was.
use Prim.Native.Nat.{bit_or, bit_xor}
use cpmtools.Base.{
  ℕ, zero, suc, ◌+◌, ◌-◌, ◌*◌, ◌/◌, ◌%◌, Bool, true, false, not, ◌&&◌, List, [], ◌∷◌, ◌++◌, Option,
  none, some, ◌==◌, leb, if◌then◌else◌, get_or, get_elem?, drop, length, replicate,
}
use cpmtools.Entry.{Entry, low7}
use cpmtools.Super.{
  Drive, DsEntry, DsDate, Result, ok, err, Boo, has_flag, cpm3_other, mpm_dates, ds_dates,
}
use cpmtools.Inode.{Inode, directory, has_bit}
use cpmtools.Dir.{is_matching}
use cpmtools.Skew.{skew_table}
use cpmtools.Alv.{alv_init, int_bits}
use cpmtools.Block.{Device}
use cpmtools.Sync.{read_directory, read_blocks, ds_records, ds_blocks, ds_offset, checksum_of}

-- "optional field, compute based on directory size"
unfoldable pub with_dirblks : Drive → Drive
with_dirblks d =
    if d.dirblks == 0 then record d { dirblks = (d.maxdir * 32 + (d.blksiz - 1)) / d.blksiz } else d

-- The skew table, where the format has none.
unfoldable pub with_skewtab : Drive → Drive
with_skewtab d =
    if length d.skewtab == 0 then record d { skewtab = skew_table d.sectrk d.skew } else d

-- `alvSize`
unfoldable pub alv_size : Drive → ℕ
alv_size d = (d.sec_length * d.sectrk * (d.tracks - d.boottrk) / d.blksiz + int_bits - 1) / int_bits

-- An XFCB with a password
unfoldable pub has_password : Entry → Bool
has_password e = leb 16 e.status && leb e.status 31

-- The eight bytes of a password: `pointers[7 - j] ^ pb`
abbrev pub password : ℕ → ℕ → List ℕ → List ℕ
password zero pb pointers = []
password (suc n) pb pointers = bit_xor (get_or pointers n 0) pb ∷ password n pb pointers

-- A line of the text `passwd`, `PASSWD_RECLEN` bytes
unfoldable pub password_line : Entry → List ℕ
password_line e =
    (b'0' + (e.status - 16) / 10)
    ∷ (b'0' + (e.status - 16) % 10)
    ∷ (low7 e.name
        ++ ((if get_or e.ext 0 0 % 128 == b' ' then b' ' else b'.')
            ∷ (low7 e.ext ++ (b' ' ∷ (password 8 e.lrc e.pointers ++ (b'\n' ∷ []))))))

-- The loop that fills `passwd`
pub passwords : List Entry → List ℕ
passwords [] = []
passwords (e ∷ es) =
    let rest = passwords es in if has_password e then password_line e ++ rest else rest

-- The first entry that is a disk label
pub find_label : List Entry → Option Entry
find_label [] = none
find_label (e ∷ es) = let rest = find_label es in if e.status == 0x20 then some e else rest

-- What the label says.
unfoldable pub with_label : Drive → Entry → Drive
with_label d e = record d {
  cnotatime =
      if has_flag d.type mpm_dates then not (has_bit e.extnol 0x40) else has_bit e.extnol 0x10;
  cmakexfcbs = if has_flag d.type mpm_dates then has_bit e.extnol 0x10 else false;
  label = if has_bit e.extnol 1 then low7 e.name ++ (low7 e.ext ++ (b'\n' ∷ [])) else [];
}

-- "read additional superblock information"
unfoldable pub with_extras : Drive → Drive
unfolding passwords find_label
with_extras d =
    if has_flag d.type cpm3_other
    then (let d1 = record d { passwd = passwords d.dir } in
        elim (find_label d.dir) [
          | none ↦ record d1 { cnotatime = true; label = [] }
          | some e ↦ with_label d1 e
        ])
    else record d { passwd = []; cnotatime = true; label = [] }

-- The bytes of a `struct dsDate`
abbrev pub ds_entry_of : List ℕ → ℕ → DsEntry
ds_entry_of b i = record {
  year = get_or b i 0;
  month = get_or b (i + 1) 0;
  day = get_or b (i + 2) 0;
  hour = get_or b (i + 3) 0;
  minute = get_or b (i + 4) 0;
}

abbrev pub dates_of : ℕ → List ℕ → List DsDate
dates_of zero b = []
dates_of (suc n) b =
    record {
      create = ds_entry_of b 0;
      access = ds_entry_of b 5;
      modify = ds_entry_of b 10;
      checksum = get_or b 15 0;
    }
    ∷ dates_of n (drop 16 b)

-- "Verify checksums" of `n` records
pub verify : ℕ → List ℕ → Bool
verify zero bytes = true
verify (suc n) bytes =
    let rest = verify n (drop 128 bytes) in (get_or bytes 127 0 == checksum_of bytes) && rest

-- The names `!!!TIME&` and `DAT`
abbrev pub ds_name : List ℕ
ds_name = b'!' ∷ b'!' ∷ b'!' ∷ b'T' ∷ b'I' ∷ b'M' ∷ b'E' ∷ b'&' ∷ []

abbrev pub ds_ext : List ℕ
ds_ext = b'D' ∷ b'A' ∷ b'T' ∷ []

-- The inode of the root directory; the members that are not assigned stay.
unfoldable pub root_inode : Drive → Inode → Inode
root_inode d root = record root {
  ino = d.maxdir;
  mode = record { kind = directory; bits = 0o777 };
  size = 0;
  atime = 0;
  mtime = 0;
  ctime = 0;
}

module _ {S : Type 0} (dev : Device S) where
  -- `cpmCheckDs`, into memory that held `memory`; `none` is -1.
  unfoldable pub check_ds : Drive → List ℕ → S → Option (List DsDate)
  unfolding ds_records ds_blocks ds_offset verify
  check_ds d memory s = elim (get_elem? d.dir 0) [
    | none ↦ none
    | some e ↦
        if not (is_matching 0 ds_name ds_ext e.status e.name e.ext)
        then none
        else (elim (read_blocks dev d (ds_blocks d) d.blksiz (ds_offset d) memory s) [
          | err why ↦ none
          | ok bytes ↦
              if verify (ds_records d) bytes then some (dates_of (ds_records d * 8) bytes) else none
        ])
  ]

  -- The directory, empty where no device is open; the bytes behind it are kept with it.
  unfoldable pub load_directory : Bool → Drive → List ℕ → S → Result (List Entry × List ℕ)
  load_directory opened d memory s =
      if opened
      then read_directory dev d memory s
      else (let blank : Entry = record {
        status = 0xe5;
        name = replicate 8 0xe5;
        ext = replicate 3 0xe5;
        extnol = 0xe5;
        lrc = 0xe5;
        extnoh = 0xe5;
        blkcnt = 0xe5;
        pointers = replicate 16 0xe5;
      } in
          ok (replicate d.maxdir blank, drop (d.maxdir * 32) memory))

  -- The file of time stamps
  unfoldable pub with_ds_dates : Drive → List ℕ → S → Drive
  with_ds_dates d memory s = elim (check_ds d memory s) [
    | none ↦ record d { ds = [] }
    | some dates ↦ record d { ds = dates; type = bit_or d.type ds_dates }
  ]

  -- `cpmReadSuper` after the format: the drive, the bytes behind the directory, and the root's inode
  unfoldable pub read_super :
      (Drive → Option Boo)
      → Bool
      → Drive
      → Inode
      → Bool
      → List ℕ
      → List ℕ
      → S
      → Result (Drive × List ℕ × Inode)
  read_super set_geometry opened format root uppercase memory ds_memory s =
      let d1 = with_dirblks (record format { uppercase = uppercase }) in
      elim (set_geometry d1) [
        | some why ↦ err why
        | none ↦
            let d2 = with_skewtab d1 in
            let d3 = record d2 { alv = replicate (alv_size d2) 0 } in
            elim (load_directory opened d3 memory s) [
              | err why ↦ err why
              | ok (dir, rest) ↦
                  let d4 = record d3 { dir = dir } in
                  let d5 = with_extras (alv_init d4) in
                  let d6 = record d5 { dirty_directory = false; dirty_ds = false } in
                  ok (with_ds_dates d6 ds_memory s, rest, root_inode d6 root)
            ]
      ]
