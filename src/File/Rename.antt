-- ===== src/File/Rename.antt =====
-- What `cpmRename` of cpmfs.c leaves in the directory.
use cpmtools.Base.{ℕ, ◌+◌, ◌≡◌, ◌≢◌, true, false, List, arith, none, some, get_elem?, All}
use cpmtools.Entry.{Entry, IsEntry}
use cpmtools.Super.{Drive, ok, err, file_exists}
use cpmtools.Inode.{Inode}
use cpmtools.Name.{split_filename}
use cpmtools.Dir.{is_extent_of}
use cpmtools.Dir.Find.{find_from-exists, find_file_extent_lem}
use cpmtools.File.{is_dir, retarget, rename}
use cpmtools.File.Renamed.{names, no_old, moved_entry, kept_entry, of_new-retarget}

-- After a successful `cpmRename` in a directory of well-formed entries no entry answers to the old
-- name.
pub rename-gone :
    (d : Drive) (dir : Inode) (old new : List ℕ) {d' : Drive} {olduser newuser : ℕ}
    {oldname oldext newname newext : List ℕ}
    → All IsEntry d.dir
    → split_filename old d.type ≡ some (olduser, oldname, oldext)
    → split_filename new d.type ≡ some (newuser, newname, newext)
    → rename d dir old new ≡ (ok tt, d')
    → All (λ e. is_extent_of d olduser oldname oldext none e ≡ false) d'.dir
rename-gone d dir old new valid s t h = no_old d dir old new (names d old new s t) valid h

-- A successful `cpmRename` gives every entry of the file the new user number and name, in its place
-- and with all else kept, and the entry then answers to the new name, if the user number of the new
-- name is not the one that the XFCBs of the old file have.
pub rename_moves :
    (d : Drive) (dir : Inode) (old new : List ℕ) {d' : Drive} {olduser newuser : ℕ}
    {oldname oldext newname newext : List ℕ} (j : ℕ) (e : Entry)
    → IsEntry e
    → split_filename old d.type ≡ some (olduser, oldname, oldext)
    → split_filename new d.type ≡ some (newuser, newname, newext)
    → newuser ≢ olduser + 16
    → rename d dir old new ≡ (ok tt, d')
    → get_elem? d.dir j ≡ some e
    → is_extent_of d olduser oldname oldext none e ≡ true
    → (get_elem? d'.dir j ≡ some (retarget newuser newname newext e))
      × (is_extent_of d newuser newname newext none (retarget newuser newname newext e) ≡ true)
rename_moves d dir old new j e v s t apart h at y =
    let n = names d old new s t in
    (moved_entry d dir old new n j e apart h at y, of_new-retarget d dir old new n e v)

-- A successful `cpmRename` keeps, in its place, every entry that is neither one of the old file nor
-- an XFCB of it.
pub rename_keeps :
    (d : Drive) (dir : Inode) (old new : List ℕ) {d' : Drive} {olduser newuser : ℕ}
    {oldname oldext newname newext : List ℕ} (j : ℕ) (e : Entry)
    → split_filename old d.type ≡ some (olduser, oldname, oldext)
    → split_filename new d.type ≡ some (newuser, newname, newext)
    → rename d dir old new ≡ (ok tt, d')
    → get_elem? d.dir j ≡ some e
    → is_extent_of d olduser oldname oldext none e ≡ false
    → is_extent_of d (olduser + 16) oldname oldext none e ≡ false
    → get_elem? d'.dir j ≡ some e
rename_keeps d dir old new j e s t h at n no_xfcb =
    kept_entry d dir old new (names d old new s t) j e h at n no_xfcb

-- `cpmRename` refuses a new name that an entry answers to, and changes nothing then.
pub rename_exists :
    (d : Drive) (dir : Inode) (old new : List ℕ) {olduser newuser : ℕ}
    {oldname oldext newname newext : List ℕ} (i j : ℕ) (e x : Entry)
    → is_dir dir.mode ≡ true
    → split_filename old d.type ≡ some (olduser, oldname, oldext)
    → split_filename new d.type ≡ some (newuser, newname, newext)
    → get_elem? d.dir i ≡ some e
    → is_extent_of d olduser oldname oldext none e ≡ true
    → get_elem? d.dir j ≡ some x
    → is_extent_of d newuser newname newext none x ≡ true
    → rename d dir old new ≡ (err file_exists, d)
unfolding rename
rename_exists d dir old new {olduser} {newuser} {oldname} {oldext} {newname} {newext} i j e x y s t
      ate is_old atx is_new =
    let (first, found, low) =
      find_from-exists (is_extent_of d olduser oldname oldext none) d.dir i e ate is_old in
    let (other, taken, low') =
      find_from-exists (is_extent_of d newuser newname newext none) d.dir j x atx is_new in
    ground (
      arith,
      find_file_extent_lem d olduser oldname oldext 0 none,
      find_file_extent_lem d newuser newname newext 0 none,
      found,
      taken,
    )
