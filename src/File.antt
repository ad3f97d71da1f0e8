-- ===== src/File.antt =====
-- src/cpmfs.c: the operations that change a file's directory entries, `cpmUnlink`, `cpmRename`,
-- `cpmAttrSet` and `cpmChmod`. An operation takes the drive and returns its result with the drive
-- that it leaves, also where it fails.
pub mod Xfcb
pub mod Unlink
pub mod Renamed
pub mod Rename
pub mod Attributes
pub mod AttrSet
use Prim.Native.Nat.{bit_and, bit_or}
use cpmtools.Base.{
  ℕ, zero, suc, ◌+◌, ◌-◌, ◌*◌, ◌/◌, ◌%◌, Bool, true, false, not, List, [], ◌∷◌, Option, none, some,
  ◌==◌, if◌then◌else◌, get_elem?, modify, replicate,
}
use cpmtools.Entry.{Entry}
use cpmtools.Super.{
  Drive, Result, ok, err, no_such_file, illegal_filename, file_not_found, file_exists, has_flag,
  has_xfcbs,
}
use cpmtools.Inode.{Kind, directory, regular, Mode, Attr, Inode}
use cpmtools.Name.{split_filename}
use cpmtools.Alv.{alv_init}
use cpmtools.Dir.{memcpy7, is_extent_of, find_file_extent, each_extent, unused}

-- `S_ISDIR(mode)`
abbrev pub is_dir : Mode → Bool
is_dir m = elim m.kind [ directory ↦ true | regular ↦ false ]

-- `drive->dir[extent].status = 0xe5`
unfoldable pub erase : Entry → Entry
erase e = record e { status = unused }

-- The first XFCB of the file, if the format has XFCBs, is changed too.
unfoldable pub update_xfcb : Drive → ℕ → List ℕ → List ℕ → (Entry → Entry) → Drive
update_xfcb d user name ext update =
    if has_flag d.type has_xfcbs
    then (elim (find_file_extent d (user + 16) name ext 0 none) [
      | none ↦ d
      | some i ↦ record d { dirty_directory = true; dir = modify d.dir i update }
    ])
    else d

-- What `cpmUnlink` does from the first extent of the file on.
unfoldable pub unlink_extents : Drive → ℕ → List ℕ → List ℕ → ℕ → Drive
unlink_extents d user name ext first =
    let marked = record d {
      dirty_directory = true;
      dir = each_extent (is_extent_of d user name ext none) erase d.dir first;
    } in
    alv_init (update_xfcb marked user name ext erase)

-- `cpmUnlink`
unfoldable pub unlink : Drive → Inode → List ℕ → Result (Unit {0}) × Drive
unlink d dir fname =
    if not (is_dir dir.mode) then (err no_such_file, d) else (elim (split_filename fname d.type) [
      | none ↦ (err illegal_filename, d)
      | some (user, name, ext) ↦ elim (find_file_extent d user name ext 0 none) [
        | none ↦ (err file_not_found, d)
        | some first ↦ (ok tt, unlink_extents d user name ext first)
      ]
    ])

-- The assignments of `cpmRename` to one entry.
unfoldable pub retarget : ℕ → List ℕ → List ℕ → Entry → Entry
retarget user name ext e = record e {
  status = user;
  name = memcpy7 e.name name;
  ext = memcpy7 e.ext ext;
}

-- What `cpmRename` does from the first extent of the old name on.
unfoldable pub rename_extents : Drive → ℕ → List ℕ → List ℕ → ℕ → List ℕ → List ℕ → ℕ → Drive
rename_extents d olduser oldname oldext newuser newname newext first =
    let moved = record d {
      dirty_directory = true;
      dir =
          each_extent (is_extent_of d olduser oldname oldext none) (retarget newuser newname newext)
            d.dir first;
    } in
    update_xfcb moved olduser oldname oldext (retarget (newuser + 16) newname newext)

-- `cpmRename`
unfoldable pub rename : Drive → Inode → List ℕ → List ℕ → Result (Unit {0}) × Drive
rename d dir old new =
    if not (is_dir dir.mode) then (err no_such_file, d) else (elim (split_filename old d.type) [
      | none ↦ (err illegal_filename, d)
      | some (olduser, oldname, oldext) ↦ elim (split_filename new d.type) [
        | none ↦ (err illegal_filename, d)
        | some (newuser, newname, newext) ↦
            elim (find_file_extent d olduser oldname oldext 0 none) [
              | none ↦ (err file_not_found, d)
              | some first ↦ elim (find_file_extent d newuser newname newext 0 none) [
                | some other ↦ (err file_exists, d)
                | none ↦
                    (ok tt, rename_extents d olduser oldname oldext newuser newname newext first)
              ]
            ]
      ]
    ])

-- `name[i] |= 0x80` under a condition
unfoldable pub set_high : Bool → ℕ → ℕ
set_high on c = if on then c % 128 + 128 else c

-- The four attribute bits of a name, and the three of an extension.
unfoldable pub name_bits : Attr → List ℕ → List ℕ
unfolding set_high
name_bits a (c0 ∷ c1 ∷ c2 ∷ c3 ∷ cs) =
    set_high a.f1 c0 ∷ set_high a.f2 c1 ∷ set_high a.f3 c2 ∷ set_high a.f4 c3 ∷ cs
name_bits a cs = cs

unfoldable pub ext_bits : Attr → List ℕ → List ℕ
unfolding set_high
ext_bits a (c0 ∷ c1 ∷ c2 ∷ cs) = set_high a.ro c0 ∷ set_high a.sys c1 ∷ set_high a.arcv c2 ∷ cs
ext_bits a cs = cs

-- The `memcpy` of name and extension into one entry.
unfoldable pub rename_bits : List ℕ → List ℕ → Entry → Entry
rename_bits name ext e = record e { name = name; ext = ext }

abbrev pub write_bits : ℕ
write_bits = 0o222

-- `mode &= ~0222` for a read-only file, `mode |= 0222` for another
unfoldable pub write_mode : Bool → Mode → Mode
write_mode ro m = record m {
  bits = if ro then m.bits - bit_and m.bits write_bits else bit_or m.bits write_bits;
}

-- `cpmAttrSet`; `none` stands for an inode outside the directory.
unfoldable pub attr_set : Drive → Inode → Attr → Option (Inode × Drive)
attr_set d ino attrib = elim (get_elem? d.dir ino.ino) [
  | none ↦ none
  | some e ↦
      let name = name_bits attrib (memcpy7 (replicate 8 0) e.name) in
      let ext = ext_bits attrib (memcpy7 (replicate 3 0) e.ext) in
      some (
        record ino { attr = attrib; mode = write_mode attrib.ro ino.mode },
        record d {
          dirty_directory = true;
          dir =
              each_extent (is_extent_of d e.status name ext none) (rename_bits name ext) d.dir
                ino.ino;
        },
      )
]

-- `cpmAttrGet`
unfoldable pub attr_get : Inode → Attr
attr_get ino = ino.attr

-- `cpmChmod`
unfoldable pub chmod : Drive → Inode → ℕ → Option (Inode × Drive)
chmod d ino mode = attr_set d ino (record (ino.attr) { ro = bit_and mode write_bits == 0 })
