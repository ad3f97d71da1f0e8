-- ===== src/Writing.antt =====
-- src/cpmfs.c: `cpmWrite`. What `writeBlock` returns is ignored by the code.
pub mod Same
pub mod Trace
pub mod Buffer
pub mod Progress
pub mod Rounds
pub mod Finished
use cpmtools.Base.{
  ℕ, zero, suc, ◌+◌, ◌-◌, ◌*◌, ◌/◌, ◌%◌, Bool, true, false, not, ◌&&◌, List, [], ◌∷◌, ◌++◌, none,
  some, ◌==◌, ltb, leb, if◌then◌else◌, get_elem?, get_or, set, modify, drop, replicate, length,
}
use cpmtools.Entry.{Entry, extentl, extenth}
use cpmtools.Super.{Boo, Drive, Result, ok, err, directory_full, has_flag, exact_size}
use cpmtools.Inode.{Inode}
use cpmtools.Alv.{alloc_block}
use cpmtools.Dir.{find_free_extent}
use cpmtools.Clock.{Clock}
use cpmtools.Create.{update_stamps}
use cpmtools.Block.{Device, read_block, write_block}
use cpmtools.Content.{extcap, pointer_index, pointer_at, extent_at}

-- The variables of the loop of `cpmWrite`, with the drive, the inode and the world. `extent`, `block`,
-- `ptr`, `start`, `end` and the two positions are set before they are used; `left` are the bytes of
-- `buf` that are still to be written.
pub record Writing (S : Type 0) : Type 0 where
  pub drive : Drive
  pub inode : Inode
  pub world : S
  pub findext : Bool
  pub findblock : Bool
  pub extent : ℕ
  pub extentno : ℕ
  pub block : ℕ
  pub start : ℕ
  pub end : ℕ
  pub nextblockpos : ℕ
  pub nextextpos : ℕ
  pub buffer : List ℕ
  pub pos : ℕ
  pub left : List ℕ
  pub got : ℕ

-- A step of a round goes on, returns or breaks; `stop` has what is in `boo`, with the state.
pub data Step (A : Type 0) : Type 0 where
  go : A → Step A
  stop : Boo → A → Step A

-- `block & 0xff`, and `(block >> 8) & 0xff` where pointers have two bytes
unfoldable pub set_pointer : Drive → ℕ → ℕ → Entry → Entry
set_pointer d ptr block e = record e {
  pointers =
      if ltb 256 d.size
      then set (set e.pointers ptr (block % 256)) (ptr + 1) (block / 256 % 256)
      else set e.pointers ptr (block % 256);
}

-- The new entry for an extent, from the entry of the inode.
unfoldable pub extend_entry : ℕ → Entry → Entry
extend_entry extentno e = record e {
  pointers = replicate 16 0;
  extnol = extentl extentno;
  extnoh = extenth extentno;
  blkcnt = 0;
  lrc = 0;
}

-- The loop `for (last = 15; last >= 0; --last)`: one more than the index of the last pointer that is
-- not 0, or 0.
pub last_pointer : ℕ → List ℕ → ℕ
last_pointer zero pointers = 0
last_pointer (suc n) pointers =
    let lower = last_pointer n pointers in if get_or pointers n 0 == 0 then lower else suc n

-- The loop `for (last = 14; last > 0; last -= 2)`, from `last` = 2 * `n`: `last / 2`, or 0.
pub last_pair : ℕ → List ℕ → ℕ
last_pair zero pointers = 0
last_pair (suc n) pointers =
    let lower = last_pair n pointers in
    if get_or pointers (2 * suc n) 0 == 0 && get_or pointers (2 * suc n + 1) 0 == 0
    then lower
    else suc n

-- What is added to `extentno`, where -1 and 0 in `last` both add nothing.
unfoldable pub extents_used : Drive → Entry → ℕ
unfolding last_pointer last_pair
extents_used d e =
    if leb d.size 256
    then (last_pointer 16 e.pointers - 1) * d.blksiz / extcap d
    else last_pair 7 e.pointers * d.blksiz / extcap d

-- The members of an entry that say how far it is filled, for a position behind its last byte.
unfoldable pub fill_entry : Drive → ℕ → ℕ → Entry → Entry
fill_entry d extentno pos e = record e {
  extnol = extentl extentno;
  extnoh = extenth extentno;
  blkcnt = (pos - 1) % 16384 / 128 + 1;
  lrc = if has_flag d.type exact_size then (128 - pos % 128) % 128 else pos % 128;
}

-- The loop that fills the buffer: the buffer, the position, the bytes left and `got`.
pub copy_bytes : ℕ → ℕ → List ℕ → List ℕ → ℕ → ℕ → List ℕ × ℕ × List ℕ × ℕ
copy_bytes blocksize nextblockpos buffer [] pos got = (buffer, pos, [], got)
copy_bytes blocksize nextblockpos buffer (b ∷ bs) pos got = elim (pos == nextblockpos) [
  | true ↦ (buffer, pos, b ∷ bs, got)
  | false ↦
      copy_bytes blocksize nextblockpos (set buffer (pos % blocksize) b) bs (suc pos) (suc got)
]

module _ {S : Type 0} (clock : Clock S) (dev : Device S) where
  -- `time(&file->ino->ctime); updateTimeStamps(…); updateDsStamps(…);`
  unfoldable pub touch_created : Writing S → Writing S
  touch_created w =
      let (now, s') = clock.time w.world in
      let ino = record (w.inode) { ctime = now } in
      record w { inode = ino; drive = update_stamps clock w.drive ino w.extent; world = s' }

  -- A new entry for the position, made from the inode's own.
  unfoldable pub new_extent : Writing S → Step (Writing S)
  new_extent w = elim (find_free_extent w.drive) [
    | none ↦ stop directory_full w
    | some extent ↦ elim (get_elem? w.drive.dir w.inode.ino) [
      | none ↦ go w
      | some own ↦ go (
          touch_created (record w {
            extent = extent;
            drive = record (w.drive) {
              dir = modify w.drive.dir extent (λ e. extend_entry (w.pos / 16384) own);
            };
          }))
    ]
  ]

  -- The variables that `if (findext) …` sets in any case.
  unfoldable pub looking : Writing S → Writing S
  looking w = record w {
    extentno = w.pos / 16384;
    nextextpos = w.pos / extcap w.drive * extcap w.drive + extcap w.drive;
    findext = false;
    findblock = true;
  }

  -- `if (findext) …`
  unfoldable pub find_extent : Writing S → Step (Writing S)
  find_extent w = if not w.findext then go w else (elim (extent_at w.drive w.inode w.pos) [
    | some extent ↦ go (record (looking w) { extent = extent })
    | none ↦ new_extent (looking w)
  ])

  -- The new block is in the entry, and the buffer is cleared for the whole of it.
  unfoldable pub with_block : ℕ → ℕ → Drive → Writing S → Writing S
  with_block ptr block d w = touch_created (record w {
    block = block;
    drive = record d { dir = modify d.dir w.extent (set_pointer d ptr block) };
    start = 0;
    end = (d.blksiz - 1) / d.sec_length;
    buffer = replicate d.blksiz 0 ++ drop d.blksiz w.buffer;
  })

  -- A block is allocated for a pointer that is 0.
  unfoldable pub new_block : ℕ → Writing S → Step (Writing S)
  new_block ptr w =
      let (result, d) = alloc_block w.drive in
      elim result [ err why ↦ stop why w | ok block ↦ go (with_block ptr block d w) ]

  -- The last sector to be written to an existing block.
  unfoldable pub last_sector : Drive → ℕ → ℕ → ℕ
  last_sector d offset count =
      (if leb d.blksiz (offset + count) then d.blksiz - 1 else offset + count - 1) / d.sec_length

  -- The sectors at the ends of what is written to an existing block are read, if they are written
  -- in part.
  unfoldable pub read_first : ℕ → ℕ → Writing S → Result (Unit {0}) × List ℕ
  read_first block start w =
      if w.pos % w.drive.sec_length == 0
      then (ok tt, w.buffer)
      else read_block dev w.drive block w.buffer start (some start) w.world

  unfoldable pub read_last : ℕ → ℕ → ℕ → List ℕ → Writing S → Result (Unit {0}) × List ℕ
  read_last block start end buffer w =
      let d = w.drive in
      let offset = w.pos % d.blksiz in
      let count = length w.left in
      if not (end == start)
        && ltb (offset + count) d.blksiz
        && not ((w.pos + count) % d.sec_length == 0)
      then read_block dev d block buffer end (some end) w.world
      else (ok tt, buffer)

  unfoldable pub old_block : ℕ → Writing S → Step (Writing S)
  old_block block w =
      let d = w.drive in
      let offset = w.pos % d.blksiz in
      let start = offset / d.sec_length in
      let end = last_sector d offset (length w.left) in
      let w1 = record w { block = block; start = start; end = end } in
      let (first, buffer) = read_first block start w in
      elim first [
        | err why ↦ stop why (record w1 { buffer = buffer })
        | ok done ↦
            let (last, buffer') = read_last block start end buffer w in
            elim last [
              | err why ↦ stop why (record w1 { buffer = buffer' })
              | ok done' ↦ go (record w1 { buffer = buffer' })
            ]
      ]

  -- The block of the position, of an entry: a new one, or the one that is there.
  unfoldable pub choose_block : Entry → Writing S → Step (Writing S)
  choose_block e w =
      let d = w.drive in
      let ptr = pointer_index d w.pos in
      let block = pointer_at d e ptr in if block == 0 then new_block ptr w else old_block block w

  -- `if (findblock) …`
  unfoldable pub find_block : Writing S → Step (Writing S)
  find_block w =
      let next = w.pos / w.drive.blksiz * w.drive.blksiz + w.drive.blksiz in
      if not w.findblock then go w else (elim (get_elem? w.drive.dir w.extent) [
        | none ↦ go (record w { nextblockpos = next; findblock = false })
        | some e ↦ elim (choose_block e w) [
          | stop why w' ↦ stop why w'
          | go w' ↦ go (record w' { nextblockpos = next; findblock = false })
        ]
      ])

  -- The rest of a round: the buffer is filled and written, and the entry of the extent says how far
  -- it is filled.
  unfoldable pub store : Writing S → Writing S
  unfolding copy_bytes
  store w =
      let (buffer, pos, left, got) =
        copy_bytes w.drive.blksiz w.nextblockpos w.buffer w.left w.pos w.got in
      let (written, s1) = write_block dev w.drive w.block buffer w.start (some w.end) w.world in
      let (now, s2) = clock.time s1 in
      let ino = record (w.inode) {
        size = if ltb w.inode.size pos then pos else w.inode.size;
        mtime = now;
      } in
      let used : ℕ = elim (get_elem? w.drive.dir w.extent) [
        | none ↦ 0
        | some e ↦ extents_used w.drive e
      ] in
      let extentno = w.extentno + used in
      let d = record (w.drive) {
        dirty_directory = true;
        dir = modify w.drive.dir w.extent (fill_entry w.drive extentno pos);
      } in
      record w {
        drive = update_stamps clock d ino w.extent;
        inode = ino;
        world = s2;
        extentno = extentno;
        buffer = buffer;
        pos = pos;
        left = left;
        got = got;
        findext = pos == w.nextextpos;
        findblock = not (pos == w.nextextpos) && pos == w.nextblockpos;
      }

  -- The loop: the state, and why it has ended, if by an error. A round stores a byte at least, so the
  -- count is fuel enough.
  pub write_loop : ℕ → Writing S → Step (Writing S)
  write_loop zero w = go w
  write_loop (suc fuel) w = elim w.left [
    | [] ↦ go w
    | b ∷ bs ↦ elim (find_extent w) [
      | stop why w1 ↦ stop why w1
      | go w1 ↦ elim (find_block w1) [
        | stop why w2 ↦ stop why w2
        | go w2 ↦ write_loop fuel (store w2)
      ]
    ]
  ]

  -- The variables at the start; the buffer begins with what the stack held.
  unfoldable pub start_writing : Drive → Inode → List ℕ → ℕ → List ℕ → S → Writing S
  start_writing d ino stack pos bytes s = record {
    drive = d;
    inode = ino;
    world = s;
    findext = true;
    findblock = true;
    extent = 0;
    extentno = 0;
    block = 0;
    start = 0;
    end = 0;
    nextblockpos = 0;
    nextextpos = 0;
    buffer = stack;
    pos = pos;
    left = bytes;
    got = 0;
  }

  -- `cpmWrite`: the number of bytes written, with the state, of which the position, the inode, the
  -- drive and the world outlive the call.
  unfoldable pub write_file : Drive → Inode → List ℕ → ℕ → List ℕ → S → Result ℕ × Writing S
  unfolding write_loop
  write_file d ino stack pos bytes s =
      elim (write_loop (length bytes) (start_writing d ino stack pos bytes s)) [
        | go w' ↦ (ok w'.got, w')
        | stop why w' ↦ (if w'.got == 0 then err why else ok w'.got, w')
      ]
