-- ===== src/Listing.antt =====
-- src/cpmfs.c, `cpmReaddir`: one entry of the directory listing, from the position of the open
-- directory.
pub mod Next
use cpmtools.Base.{
  ℕ, zero, suc, ◌+◌, ◌-◌, Bool, true, false, not, List, [], ◌∷◌, Option, none, some, ◌==◌, ltb,
  if◌then◌else◌, length, get_elem?,
}
use cpmtools.Entry.{Entry}
use cpmtools.Super.{Drive, Result, ok, err, not_a_directory}
use cpmtools.Inode.{Inode}
use cpmtools.File.{is_dir}
use cpmtools.Name.{print_name}
use cpmtools.Lookup.{is_listed}

-- `struct cpmDirent`
pub record Dirent : Type 0 where
  pub ino : ℕ
  pub reclen : ℕ
  pub name : List ℕ
  pub off : ℕ

abbrev pub reserved_entries : ℕ
reserved_entries = 4

abbrev pub reserved_inodes : ℕ
reserved_inodes = 3

-- `[passwd]` and `[label]`
abbrev pub passwd_name : List ℕ
passwd_name = b'[' ∷ b'p' ∷ b'a' ∷ b's' ∷ b's' ∷ b'w' ∷ b'd' ∷ b']' ∷ []

abbrev pub label_name : List ℕ
label_name = b'[' ∷ b'l' ∷ b'a' ∷ b'b' ∷ b'e' ∷ b'l' ∷ b']' ∷ []

-- the characters before a byte 0, as `strcpy` takes them
unfoldable pub c_string : List ℕ → List ℕ
c_string [] = []
c_string (c ∷ cs) = if c == 0 then [] else c ∷ c_string cs

-- The record that `cpmReaddir` fills in.
abbrev pub dirent : ℕ → List ℕ → ℕ → Dirent
dirent ino name pos = record { ino = ino; reclen = length name; name = c_string name; off = pos }

-- The entry listed at a position, if there is one: the four reserved ones, then those of the
-- directory.
unfoldable pub dirent_at : Drive → ℕ → Option Dirent
dirent_at d pos =
    if pos == 0
    then some (dirent d.maxdir (b'.' ∷ []) pos)
    else if pos == 1
    then some (dirent d.maxdir (b'.' ∷ b'.' ∷ []) pos)
    else if pos == 2
    then (if length d.passwd == 0 then none else some (dirent (d.maxdir + 1) passwd_name pos))
    else if pos == 3
    then (if length d.label == 0 then none else some (dirent (d.maxdir + 2) label_name pos))
    else (elim (get_elem? d.dir (pos - reserved_entries)) [
      | none ↦ none
      | some cur ↦
          if is_listed d (pos - reserved_entries) cur
          then some (dirent (pos - reserved_inodes) (print_name d.uppercase cur) pos)
          else none
    ])

-- The loop `while (1)` of `cpmReaddir`: the entry, `none` at the end of the directory, and the new
-- position. As many rounds as there are positions left are fuel enough.
unfoldable pub readdir_from : ℕ → Drive → ℕ → Option Dirent × ℕ
readdir_from zero d pos = (none, pos)
readdir_from (suc fuel) d pos =
    if ltb pos (d.maxdir + reserved_entries)
    then (elim (dirent_at d pos) [
      | some ent ↦ (some ent, suc pos)
      | none ↦ readdir_from fuel d (suc pos)
    ])
    else (none, pos)

-- `cpmReaddir`
unfoldable pub readdir : Drive → Inode → ℕ → Result (Option Dirent) × ℕ
unfolding readdir_from dirent_at
readdir d dir pos =
    if not (is_dir dir.mode)
    then (err not_a_directory, pos)
    else let r = readdir_from (d.maxdir + reserved_entries - pos) d pos in (ok r.0, r.1)
