-- ===== src/Stamp.antt =====
-- src/cpmfs.c: time stamps in the directory and in the DateStamper file. CP/M 3 keeps the stamps of
-- three entries in the fourth, which has the status 0x21; MP/M keeps them in the XFCB of a file.
-- An entry that an index beyond the directory would name is none of these.
pub mod ReadBack
use cpmtools.Base.{
  ℕ, zero, suc, ◌+◌, ◌-◌, ◌*◌, ◌/◌, ◌%◌, Bool, true, false, not, ◌&&◌, List, [], ◌∷◌, Option, none,
  some, ◌==◌, ltb, if◌then◌else◌, get_elem?, modify,
}
use cpmtools.Entry.{Entry}
use cpmtools.Super.{Drive, DsDate, has_flag, cpm3_dates, mpm_dates, ds_dates}
use cpmtools.Inode.{Kind, directory, regular, Mode, Inode}
use cpmtools.Layout.{byte_at, with_bytes}
use cpmtools.Clock.{Clock, cpm2unix_time, unix2cpm_time, ds2unix_time, unix2ds_time}
use cpmtools.Dir.{find_file_extent}

-- `S_ISREG(mode)`
abbrev pub is_reg : Mode → Bool
is_reg m = elim m.kind [ directory ↦ false | regular ↦ true ]

-- The entry with the stamps for the entry at an index, `dir[extent | 3]`, if its status is 0x21.
unfoldable pub date_entry : Drive → ℕ → Option Entry
date_entry d extent =
    if has_flag d.type cpm3_dates
    then (elim (get_elem? d.dir (extent / 4 * 4 + 3)) [
      | none ↦ none
      | some date ↦ if date.status == 0x21 then some date else none
    ])
    else none

-- The bytes of an entry that hold the two stamps, `&date->name[0]`, `&date->ext[2]` or
-- `&date->pointers[5]`, by `extent & 3`; the second stamp follows the first.
unfoldable pub stamp_offset : ℕ → Option ℕ
stamp_offset extent =
    if extent % 4 == 0
    then some 1
    else if extent % 4 == 1
    then some 11
    else if extent % 4 == 2
    then some 21
    else none

module _ {S : Type 0} (clock : Clock S) where
  -- `getCpmStampField`
  unfoldable pub get_cpm_stamp_field : Entry → ℕ → S → ℕ × S
  get_cpm_stamp_field e fld s =
      cpm2unix_time clock (byte_at e fld + byte_at e (fld + 1) * 256) (byte_at e (fld + 2))
        (byte_at e (fld + 3)) s

  -- The bytes that `setCpmStampField` stores.
  unfoldable pub stamp_bytes : ℕ → List ℕ
  stamp_bytes ts =
      let (days, hour, min) = unix2cpm_time clock ts in
      days % 256 ∷ days / 256 % 256 ∷ hour % 256 ∷ min % 256 ∷ []

  -- `setCpmStampField`, twice
  unfoldable pub set_stamps : ℕ → ℕ → ℕ → Entry → Entry
  set_stamps fld xtime mtime e =
      with_bytes (with_bytes e fld (stamp_bytes xtime)) (fld + 4) (stamp_bytes mtime)

  -- `updateTimeStamps`
  unfoldable pub update_time_stamps : Drive → Inode → ℕ → Drive
  update_time_stamps d ino extent =
      let xtime = if d.cnotatime then ino.ctime else ino.atime in
      if not (is_reg ino.mode) then d else (elim (date_entry d extent) [
        | some date ↦ elim (stamp_offset extent) [
          | none ↦ record d { dirty_directory = true }
          | some fld ↦ record d {
            dirty_directory = true;
            dir = modify d.dir (extent / 4 * 4 + 3) (set_stamps fld xtime ino.mtime);
          }
        ]
        | none ↦
            if has_flag d.type mpm_dates
            then (elim ino.xfcb [
              | none ↦ d
              | some x ↦ record d { dir = modify d.dir x (set_stamps 24 xtime ino.mtime) }
            ])
            else d
      ])

  -- `updateDsStamps`
  unfoldable pub update_ds_stamps : Drive → Inode → ℕ → Drive
  update_ds_stamps d ino extent =
      if not (is_reg ino.mode) then d else if not (has_flag d.type ds_dates) then d else record d {
        ds = modify d.ds extent (λ stamp. record stamp {
          modify = unix2ds_time clock ino.mtime;
          create = unix2ds_time clock ino.ctime;
          access = unix2ds_time clock ino.atime;
        });
        dirty_ds = true;
      }

  -- What `readTimeStamps` reads from one entry: `xtime`, the time of modification and `protectMode`.
  unfoldable pub read_stamps : Entry → ℕ → ℕ → S → ℕ × ℕ × ℕ × S
  read_stamps date fld mode s =
      let (xtime, s1) = get_cpm_stamp_field date fld s in
      let (mtime, s2) = get_cpm_stamp_field date (fld + 4) s1 in
      (xtime, mtime, byte_at date mode, s2)

  -- The XFCB of the inode, for MP/M.
  unfoldable pub xfcb_of : Drive → Inode → Option Entry
  xfcb_of d i = elim (get_elem? d.dir i.ino) [
    | none ↦ none
    | some e ↦ elim (find_file_extent d (e.status + 16) e.name e.ext 0 none) [
      | none ↦ none
      | some x ↦ get_elem? d.dir x
    ]
  ]

  -- The stamps that `readTimeStamps` finds, of the entry with the lowest extent number.
  unfoldable pub find_stamps : Drive → Inode → ℕ → S → ℕ × ℕ × ℕ × S
  find_stamps d i lowest_ext s = elim (date_entry d lowest_ext) [
    | some date ↦ elim (stamp_offset lowest_ext) [
      | none ↦ (0, 0, 0, s)
      | some fld ↦ read_stamps date fld (fld + 8) s
    ]
    | none ↦
        if has_flag d.type mpm_dates
        then (elim (xfcb_of d i) [ none ↦ (0, 0, 0, s) | some date ↦ read_stamps date 24 12 s ])
        else (0, 0, 0, s)
  ]

  -- `readTimeStamps`: `protectMode`, and the inode
  unfoldable pub read_time_stamps : Drive → Inode → ℕ → S → ℕ × Inode × S
  read_time_stamps d i lowest_ext s =
      let (xtime, mtime, mode, s') = find_stamps d i lowest_ext s in
      (
        mode,
        record i {
          atime = if d.cnotatime then 0 else xtime;
          mtime = mtime;
          ctime = if d.cnotatime then xtime else 0;
        },
        s',
      )

  -- `readDsStamps`
  unfoldable pub read_ds_stamps : Drive → Inode → ℕ → Inode
  read_ds_stamps d i lowest_ext =
      if not (has_flag d.type ds_dates) then i else (elim (get_elem? d.ds lowest_ext) [
        | none ↦ i
        | some stamp ↦ record i {
          mtime = ds2unix_time clock stamp.modify;
          ctime = ds2unix_time clock stamp.create;
          atime = ds2unix_time clock stamp.access;
        }
      ])
