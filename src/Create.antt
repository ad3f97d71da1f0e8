-- ===== src/Create.antt =====
-- src/cpmfs.c: `cpmCreat` and `cpmUtime`. Where `cpmCreat` finds no entry for the XFCB it fails with
-- the file's own entry made.
pub mod Keeps
pub mod Made
pub mod Succeeds
use cpmtools.Base.{
  ℕ, ◌+◌, Bool, true, false, not, ◌&&◌, List, Option, none, some, if◌then◌else◌, modify, replicate,
}
use cpmtools.Entry.{Entry}
use cpmtools.Super.{
  Drive, Result, ok, err, no_file_or_directory, illegal_filename, file_exists, directory_full,
  has_flag, has_xfcbs,
}
use cpmtools.Inode.{Kind, regular, Mode, Inode}
use cpmtools.Name.{split_filename}
use cpmtools.Dir.{find_file_extent, find_free_extent}
use cpmtools.File.{is_dir}
use cpmtools.Clock.{Clock}
use cpmtools.Stamp.{update_time_stamps, update_ds_stamps}

-- An entry cleared, with a user number, a name and an extension.
unfoldable pub new_entry : ℕ → List ℕ → List ℕ → Entry
new_entry user name ext = record {
  status = user;
  name = name;
  ext = ext;
  extnol = 0;
  lrc = 0;
  extnoh = 0;
  blkcnt = 0;
  pointers = replicate 16 0;
}

-- A new XFCB, in the first free entry; `err` where there is none.
unfoldable pub new_xfcb : Drive → ℕ → List ℕ → List ℕ → Result (Option ℕ) × Drive
new_xfcb d user name ext = elim (find_free_extent d) [
  | none ↦ (err directory_full, d)
  | some x ↦ (ok (some x), record d { dir = modify d.dir x (λ e. new_entry (user + 16) name ext) })
]

-- The XFCB of a new file: the one that is there, or, if the format has XFCBs and they are made, a new
-- one.
unfoldable pub make_xfcb : Drive → ℕ → List ℕ → List ℕ → Result (Option ℕ) × Drive
make_xfcb d user name ext =
    if not (has_flag d.type has_xfcbs)
    then (ok none, d)
    else (elim (find_file_extent d (user + 16) name ext 0 none) [
      | some x ↦ (ok (some x), d)
      | none ↦ if not d.cmakexfcbs then (ok none, d) else new_xfcb d user name ext
    ])

module _ {S : Type 0} (clock : Clock S) where
  -- `updateTimeStamps`, then `updateDsStamps`
  unfoldable pub update_stamps : Drive → Inode → ℕ → Drive
  update_stamps d ino extent =
      update_ds_stamps clock (update_time_stamps clock d ino extent) ino extent

  -- What `cpmCreat` does once it has found a free entry.
  unfoldable pub creat_at :
      Drive → ℕ → List ℕ → List ℕ → ℕ → Inode → ℕ → S → Result Inode × Drive × S
  creat_at d user name ext extent i mode s =
      let d1 = record d {
        dirty_directory = true;
        dir = modify d.dir extent (λ e. new_entry user name ext);
      } in
      let (atime, s1) = clock.time s in
      let (mtime, s2) = clock.time s1 in
      let (ctime, s3) = clock.time s2 in
      let (made, d2) = make_xfcb d1 user name ext in
      elim made [
        | err why ↦ (err why, d2, s3)
        | ok xfcb ↦
            let ino = record i {
              ino = extent;
              mode = record { kind = regular; bits = mode };
              size = 0;
              atime = atime;
              mtime = mtime;
              ctime = ctime;
              xfcb = xfcb;
            } in
            (ok ino, update_stamps d2 ino extent, s3)
      ]

  -- `cpmCreat`
  unfoldable pub creat : Drive → Inode → List ℕ → Inode → ℕ → S → Result Inode × Drive × S
  creat d dir fname i mode s =
      if not (is_dir dir.mode)
      then (err no_file_or_directory, d, s)
      else (elim (split_filename fname d.type) [
        | none ↦ (err illegal_filename, d, s)
        | some (user, name, ext) ↦ elim (find_file_extent d user name ext 0 none) [
          | some extent ↦ (err file_exists, d, s)
          | none ↦ elim (find_free_extent d) [
            | none ↦ (err directory_full, d, s)
            | some extent ↦ creat_at d user name ext extent i mode s
          ]
        ]
      ])

  -- `cpmUtime`
  unfoldable pub utime : Drive → Inode → ℕ → ℕ → S → Inode × Drive × S
  utime d ino actime modtime s =
      let (now, s') = clock.time s in
      let ino' = record ino { atime = actime; mtime = modtime; ctime = now } in
      (ino', update_stamps d ino' ino.ino, s')
