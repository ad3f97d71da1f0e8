-- ===== src/Writing/Finished.antt =====
-- `cpmWrite` of cpmfs.c ends with all bytes taken, or at the first step that fails, and counts them.
use cpmtools.Base.{ℕ, ◌+◌, ◌≡◌, ◌⊎◌, List, [], ◌++◌, ◌==◌, if◌then◌else◌, length}
use cpmtools.Super.{Boo, Result, ok, err}
use cpmtools.Inode.{Inode}
use cpmtools.Clock.{Clock}
use cpmtools.Block.{Device}
use cpmtools.Writing.{Writing, Step, go, stop, write_loop}
use cpmtools.Writing.Trace.{Written}
use cpmtools.Writing.Same.{}

module _ {S : Type 0} (clock : Clock S) (dev : Device S) where
  -- What `cpmWrite` returns and leaves: the bytes `taken`, which come first in the caller's buffer, are
  -- counted and handed to `writeBlock`, the position is behind them, the count is returned, or an
  -- error if it is 0, and either no byte is left or a step has failed.
  pub record IsFinished (start : Writing S) (r : Result ℕ × Writing S) : Type 0 where
    pub taken : List ℕ
    pub split : start.left ≡ taken ++ r.1.left
    pub counted : r.1.got ≡ length taken
    pub moved : r.1.pos ≡ start.pos + length taken
    pub written : Written clock dev start.drive.blksiz start.pos taken start.world r.1.world
    pub returned : (r.0 ≡ ok r.1.got) ⊎ ((r.1.got ≡ 0) × ((why : Boo) × (r.0 ≡ err why)))
    pub ended :
        (r.1.left ≡ [])
        ⊎ ((why : Boo) × (write_loop clock dev (length start.left) start ≡ stop why r.1))

  abbrev report : Step (Writing S) → Result ℕ × Writing S
  report st = elim st [
    | go w' ↦ (ok w'.got, w')
    | stop why w' ↦ (if w'.got == 0 then err why else ok w'.got, w')
  ]
