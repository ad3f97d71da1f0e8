-- ===== src/Expand.antt =====
-- src/cpmfs.c: `cpmOpendir`, and `cpmglob`, which expands file name patterns over the directory.
pub mod Names
use cpmtools.Base.{ℕ, zero, suc, ◌+◌, List, [], ◌∷◌, ◌++◌, Option, none, some, if◌then◌else◌, not}
use cpmtools.Super.{Drive, Result, ok, err, no_such_file}
use cpmtools.Inode.{Inode}
use cpmtools.File.{is_dir}
use cpmtools.Glob.{match}
use cpmtools.Listing.{Dirent, reserved_entries, readdir}

-- `cpmOpendir`: the position of the open directory.
unfoldable pub opendir : Inode → Result ℕ
opendir dir = if not (is_dir dir.mode) then err no_such_file else ok 0

-- a further entry in front of the rest of the loop
abbrev pub with_dirent : Dirent → Option (List Dirent) → Option (List Dirent)
with_dirent e none = none
with_dirent e (some es) = some (e ∷ es)

-- What the loop makes of a call of `cpmReaddir`. An error is not 0, so the loop goes on without end.
pub go_on : (ℕ → Option (List Dirent)) → Result (Option Dirent) × ℕ → Option (List Dirent)
go_on rest (err why, pos) = none
go_on rest (ok none, pos) = some []
go_on rest (ok (some e), pos) = with_dirent e (rest pos)

-- `while (cpmReaddir(&dir, &dirent[entries]))`, from a position on; `none` if the rounds run out
pub dirents_from : ℕ → Drive → Inode → ℕ → Option (List Dirent)
dirents_from zero d dir pos = none
dirents_from (suc rounds) d dir pos = go_on (dirents_from rounds d dir) (readdir d dir pos)

-- the loop over the entries, for one pattern
pub matching : List ℕ → List Dirent → List (List ℕ)
matching pattern [] = []
matching pattern (e ∷ es) =
    if match e.name pattern then e.name ∷ matching pattern es else matching pattern es

-- the loop over the patterns
pub expand : List Dirent → List (List ℕ) → List (List ℕ)
expand es [] = []
expand es (pattern ∷ patterns) = matching pattern es ++ expand es patterns

-- `cpmglob`, which leaves the result of `cpmOpendir` aside. Each round of the loop moves the position
-- on, so a round for each position and one for the end are enough.
unfoldable pub glob : Drive → Inode → List (List ℕ) → Option (List (List ℕ))
unfolding dirents_from go_on expand matching
glob d root patterns = elim (dirents_from (d.maxdir + reserved_entries + 1) d root 0) [
  | none ↦ none
  | some es ↦ some (expand es patterns)
]
