-- ===== src/Content.antt =====
-- src/cpmfs.c: `cpmOpen` and `cpmRead`. The buffer for a block is declared inside the loop of `cpmRead`,
-- which relies on it to keep its bytes from one round to the next; here it is part of the state.
pub mod Bytes
pub mod Windows
pub mod Fetch
pub mod Find
pub mod Rounds
pub mod Correct
use cpmtools.Base.{
  ℕ, zero, suc, ◌+◌, ◌-◌, ◌*◌, ◌/◌, ◌%◌, Bool, true, false, not, ◌&&◌, List, [], ◌∷◌, ◌++◌, Option,
  none, some, ◌==◌, ltb, leb, if◌then◌else◌, get_elem?, get_or, take, drop, replicate, length,
}
use Prim.Native.Nat.{bit_and}
use cpmtools.Entry.{Entry}
use cpmtools.Super.{Drive, Result, ok, err, permission_denied, not_a_regular_file}
use cpmtools.Inode.{Inode}
use cpmtools.File.{write_bits}
use cpmtools.Dir.{find_file_extent}
use cpmtools.Stamp.{is_reg}
use cpmtools.Block.{Device, read_block}

-- `struct cpmFile`
pub record CpmFile : Type 0 where
  pub mode : ℕ
  pub pos : ℕ
  pub ino : Inode

-- `cpmOpen`; `o_wronly` is the system's `O_WRONLY`.
unfoldable pub open_file : ℕ → Inode → ℕ → Result CpmFile
open_file o_wronly ino mode =
    if is_reg ino.mode
    then (if not (bit_and mode o_wronly == 0) && bit_and ino.mode.bits write_bits == 0
        then err permission_denied
        else ok (record { mode = mode; pos = 0; ino = ino }))
    else err not_a_regular_file

-- The bytes that the pointers of one entry cover, `extcap`.
unfoldable pub extcap : Drive → ℕ
extcap d =
    let pointers = (if leb d.size 256 then 16 else 8) * d.blksiz in
    if ltb 16384 pointers then 16384 * d.extents else pointers

-- The pointer for a position, as an index into `pointers`, and the block that it holds.
unfoldable pub pointer_index : Drive → ℕ → ℕ
pointer_index d pos = let ptr = pos % extcap d / d.blksiz in if ltb 256 d.size then ptr * 2 else ptr

unfoldable pub pointer_at : Drive → Entry → ℕ → ℕ
pointer_at d e ptr =
    if ltb 256 d.size
    then get_or e.pointers ptr 0 + get_or e.pointers (ptr + 1) 0 * 256
    else get_or e.pointers ptr 0

-- The entry of the file of an inode that covers a position.
unfoldable pub extent_at : Drive → Inode → ℕ → Option ℕ
extent_at d ino pos = elim (get_elem? d.dir ino.ino) [
  | none ↦ none
  | some e ↦ find_file_extent d e.status e.name e.ext 0 (some (pos / 16384))
]

-- The variables of the loop of `cpmRead`. The two positions are set before they are used.
pub record Reading : Type 0 where
  pub findext : Bool
  pub findblock : Bool
  pub extent : Option ℕ
  pub nextblockpos : ℕ
  pub nextextpos : ℕ
  pub buffer : List ℕ
  pub pos : ℕ
  pub count : ℕ
  pub got : List ℕ

-- `*buf++ = …`, where `none` is the extent -1
abbrev pub from_buffer : Option ℕ → List ℕ → ℕ → ℕ
from_buffer none buffer offset = 0
from_buffer (some extent) buffer offset = get_or buffer offset 0

module _ {S : Type 0} (dev : Device S) (d : Drive) (ino : Inode) (s : S) where
  -- `if (findext) …`
  unfoldable pub find_extent : Reading → Reading
  find_extent r =
      if r.findext
      then record r {
        extent = extent_at d ino r.pos;
        nextextpos = r.pos / extcap d * extcap d + extcap d;
        findext = false;
        findblock = true;
      }
      else r

  -- The bytes of the block that a position lies in, in the buffer: those from the position on that
  -- are asked for.
  unfoldable pub fetch_block : Entry → Reading → Result (Unit {0}) × List ℕ
  fetch_block e r =
      let block = pointer_at d e (pointer_index d r.pos) in
      let offset = r.pos % d.blksiz in
      if block == 0
      then (ok tt, replicate d.blksiz 0 ++ drop d.blksiz r.buffer)
      else read_block dev d block r.buffer (offset / d.sec_length)
          (some (
            (if ltb d.blksiz (offset + r.count) then d.blksiz - 1 else offset + r.count - 1)
            / d.sec_length))
          s

  -- What is done where a block is to be found: the block is fetched, if there is an entry. An error ends
  -- the loop.
  unfoldable pub load : Reading → Option ℕ → Result Reading
  load r extent =
      let next = r.pos / d.blksiz * d.blksiz + d.blksiz in
      elim extent [
        | none ↦ ok (record r { nextblockpos = next; findblock = false })
        | some x ↦ elim (get_elem? d.dir x) [
          | none ↦ ok (record r { nextblockpos = next; findblock = false })
          | some e ↦
              let (result, buffer) = fetch_block e r in
              elim result [
                | err why ↦ err why
                | ok done ↦
                    ok (record r { nextblockpos = next; findblock = false; buffer = buffer })
              ]
        ]
      ]

  -- `if (findblock) …`
  unfoldable pub find_block : Reading → Result Reading
  find_block r = if not r.findblock then ok r else load r r.extent

  -- The rest of a round: one byte, or what to find next.
  unfoldable pub next_byte : Reading → Reading
  next_byte r =
      if ltb r.pos r.nextblockpos
      then record r {
        got = r.got ++ (from_buffer r.extent r.buffer (r.pos % d.blksiz) ∷ []);
        pos = suc r.pos;
        count = r.count - 1;
      }
      else if r.pos == r.nextextpos
      then record r { findext = true }
      else record r { findblock = true }

  -- The loop. Of two rounds one returns a byte, so twice the count is fuel enough. An error ends it;
  -- it is reported if no byte has been read.
  pub read_loop : ℕ → Reading → Result Reading
  read_loop zero r = ok r
  read_loop (suc fuel) r = elim (ltb 0 r.count && ltb r.pos ino.size) [
    | false ↦ ok r
    | true ↦ elim (find_block (find_extent r)) [
      | err why ↦ if length r.got == 0 then err why else ok r
      | ok r' ↦ read_loop fuel (next_byte r')
    ]
  ]

  -- The first two branches of `cpmRead`, for `[passwd]` and `[label]`. `file->ino->size` is the length of
  -- the text; a position behind it is not reached.
  unfoldable pub read_text : List ℕ → ℕ → ℕ → List ℕ × ℕ
  read_text text pos count =
      let n = if ltb ino.size (pos + count) then ino.size - pos else count in
      (take n (drop pos text), pos + n)

  -- `cpmRead`: the bytes read, and the new position. The buffer begins with what the stack held.
  unfoldable pub read_file : List ℕ → ℕ → ℕ → Result (List ℕ × ℕ)
  unfolding read_loop
  read_file stack pos count =
      if ino.ino == d.maxdir + 1
      then ok (read_text d.passwd pos count)
      else if ino.ino == d.maxdir + 2
      then ok (read_text d.label pos count)
      else (elim (read_loop (2 * count) (record {
        findext = true;
        findblock = true;
        extent = none;
        nextblockpos = 0;
        nextextpos = 0;
        buffer = stack;
        pos = pos;
        count = count;
        got = [];
      })) [ err why ↦ err why | ok r ↦ ok (r.got, r.pos) ])
