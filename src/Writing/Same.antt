-- ===== src/Writing/Same.antt =====
-- Steps of the loop of `cpmWrite` of cpmfs.c that store no byte: stamping, and finding a block.
use cpmtools.Base.{
  Bool, ◌≤◌, not, ◌&&◌, ltb, some, ℕ, ◌+◌, ◌*◌, ◌/◌, ◌%◌, ◌≡◌, ◌⊎◌, inl, inr, refl, sym, ap, ◌∙◌,
  true, List, arith, ◌==◌, if◌then◌else◌, length, Bool-cases, Option-cases,
}
use mathlib.Core.Path.{subst}
use cpmtools.Entry.{Entry}
use cpmtools.Super.{Drive, Result, ok, err, has_flag, mpm_dates}
use cpmtools.Inode.{Inode}
use cpmtools.Alv.{alloc_block, alloc_from}
use cpmtools.Clock.{Clock}
use cpmtools.Stamp.{is_reg, date_entry, stamp_offset, update_time_stamps, update_ds_stamps}
use cpmtools.Create.{update_stamps}
use cpmtools.Block.{Device}
use cpmtools.Content.{pointer_index, pointer_at}
use cpmtools.Writing.Trace.{Later, at_once, tick, Later-trans}
use cpmtools.Writing.Buffer.{cleared_le, read_block_le}
use cpmtools.Block.{read_block}
use cpmtools.Writing.{
  Writing, Step, go, stop, touch_created, with_block, new_block, read_first, read_last, old_block,
  choose_block, last_sector,
}

blksiz-alloc_block : (d : Drive) → (alloc_block d).1.blksiz ≡ d.blksiz
unfolding alloc_block
blksiz-alloc_block d = elim (Option-cases (alloc_from d.size 0 d.alv)) [
  | inl full ↦ rw (full, alloc_block) refl
  | inr (x, found) ↦ rw (found, alloc_block) refl
]

module _ {S : Type 0} (clock : Clock S) where
  blksiz-update_time_stamps :
      (d : Drive) (ino : Inode) (extent : ℕ)
      → (update_time_stamps clock d ino extent).blksiz ≡ d.blksiz
  unfolding update_time_stamps
  blksiz-update_time_stamps d ino extent = elim (Bool-cases (is_reg ino.mode)) [
    | inr other ↦ rw (other, update_time_stamps) refl
    | inl reg ↦ elim (Option-cases (date_entry d extent)) [
      | inr (date, found) ↦ elim (Option-cases (stamp_offset extent)) [
        | inl nothing ↦ rw (reg, found, nothing, update_time_stamps) refl
        | inr (fld, place) ↦ rw (reg, found, place, update_time_stamps) refl
      ]
      | inl nothing ↦ elim (Bool-cases (has_flag d.type mpm_dates)) [
        | inr without ↦ rw (reg, nothing, without, update_time_stamps) refl
        | inl mpm ↦ elim (Option-cases ino.xfcb) [
          | inl no_xfcb ↦ rw (reg, nothing, mpm, no_xfcb, update_time_stamps) refl
          | inr (x, xfcb) ↦ rw (reg, nothing, mpm, xfcb, update_time_stamps) refl
        ]
      ]
    ]
  ]

  blksiz-update_ds_stamps :
      (d : Drive) (ino : Inode) (extent : ℕ)
      → (update_ds_stamps clock d ino extent).blksiz ≡ d.blksiz
  unfolding update_ds_stamps
  blksiz-update_ds_stamps d ino extent = ground arith

  pub blksiz-update_stamps :
      (d : Drive) (ino : Inode) (extent : ℕ) → (update_stamps clock d ino extent).blksiz ≡ d.blksiz
  unfolding update_stamps
  blksiz-update_stamps d ino extent =
      blksiz-update_ds_stamps (update_time_stamps clock d ino extent) ino extent
      ∙ blksiz-update_time_stamps d ino extent

-- What a step leaves, by how it ends.
abbrev pub OnStep : {A : Type 0} → (A → Type 0) → (A → Type 0) → Step A → Type 0
OnStep P Q (go w) = P w
OnStep P Q (stop why w) = Q w

-- A step has stored no byte, and has done nothing to the world but to ask for the time.
pub record IsSame {S : Type 0} (clock : Clock S) (w w' : Writing S) : Type 0 where
  pub same_left : w'.left ≡ w.left
  pub same_got : w'.got ≡ w.got
  pub same_pos : w'.pos ≡ w.pos
  pub same_blksiz : w'.drive.blksiz ≡ w.drive.blksiz
  pub later : Later clock w.world w'.world
  pub longer : length w.buffer ≤ length w'.buffer

pub IsSame-trans :
    {S : Type 0} {clock : Clock S} {w w' w2 : Writing S}
    → IsSame clock w w'
    → IsSame clock w' w2
    → IsSame clock w w2
IsSame-trans p q = record {
  same_left = q.same_left ∙ p.same_left;
  same_got = q.same_got ∙ p.same_got;
  same_pos = q.same_pos ∙ p.same_pos;
  same_blksiz = q.same_blksiz ∙ p.same_blksiz;
  later = Later-trans p.later q.later;
  longer = omega (arith, p.longer, q.longer);
}

-- `nextblockpos` is where the block of the position ends.
abbrev pub IsInBlock : {S : Type 0} → Writing S → Type 0
IsInBlock w = w.nextblockpos ≡ w.pos / w.drive.blksiz * w.drive.blksiz + w.drive.blksiz

-- There is a block to look for, or the end of the one that is found is known.
abbrev pub IsReady : {S : Type 0} → Writing S → Type 0
IsReady w = (w.findblock ≡ true) ⊎ IsInBlock w

module _ {S : Type 0} (clock : Clock S) (dev : Device S) where
  pub touch_created-IsSame : (w : Writing S) → IsSame clock w (touch_created clock dev w)
  unfolding touch_created
  touch_created-IsSame w = record {
    same_left = refl;
    same_got = refl;
    same_pos = refl;
    same_blksiz = blksiz-update_stamps clock w.drive _ w.extent;
    later = tick at_once;
    longer = omega arith;
  }

  pub findblock-touch_created :
      (w : Writing S) → (touch_created clock dev w).findblock ≡ w.findblock
  unfolding touch_created
  findblock-touch_created w = refl

  with_block-IsSame :
      (ptr block : ℕ) (d : Drive) (w : Writing S)
      → d.blksiz ≡ w.drive.blksiz
      → IsSame clock w (with_block clock dev ptr block d w)
  unfolding with_block
  with_block-IsSame ptr block d w e =
      let t = touch_created-IsSame _ in
      record {
        same_left = t.same_left;
        same_got = t.same_got;
        same_pos = t.same_pos;
        same_blksiz = t.same_blksiz ∙ e;
        later = t.later;
        longer = omega (arith, cleared_le d.blksiz w.buffer, t.longer);
      }

  abbrev pub Kept : Writing S → Step (Writing S) → Type 0
  Kept w = OnStep (IsSame clock w) (IsSame clock w)

  pub itself : (w : Writing S) → IsSame clock w w
  itself w = record {
    same_left = refl;
    same_got = refl;
    same_pos = refl;
    same_blksiz = refl;
    later = at_once;
    longer = omega arith;
  }

  new_block-IsSame : (ptr : ℕ) (w : Writing S) → Kept w (new_block clock dev ptr w)
  unfolding new_block
  new_block-IsSame ptr w = from (alloc_block w.drive) (blksiz-alloc_block w.drive)
    where
      from :
          (a : Result ℕ × Drive)
          → a.1.blksiz ≡ w.drive.blksiz
          → OnStep (IsSame clock w) (IsSame clock w) (elim a.0 [
            | err why ↦ stop why w
            | ok block ↦ go (with_block clock dev ptr block a.1 w)
          ])
      from (err why, d) e = itself w
      from (ok block, d) e = with_block-IsSame ptr block d w e

  read_first_le :
      (block start : ℕ) (w : Writing S)
      → length w.buffer ≤ length (read_first clock dev block start w).1
  unfolding read_first
  read_first_le block start w = elim (Bool-cases (w.pos % w.drive.sec_length == 0)) [
    | inl whole ↦ rw (whole, read_first) (omega arith)
    | inr part ↦
        rw (part, read_first) (read_block_le dev w.drive block w.buffer start (some start) w.world)
  ]

  read_last_le :
      (block start end : ℕ) (buffer : List ℕ) (w : Writing S)
      → length buffer ≤ length (read_last clock dev block start end buffer w).1
  unfolding read_last
  read_last_le block start end buffer w =
      let d = w.drive in
      let offset = w.pos % d.blksiz in
      let count = length w.left in
      let test =
        not (end == start)
        && ltb (offset + count) d.blksiz
        && not ((w.pos + count) % d.sec_length == 0) in
      let read = λ (b : Bool).
        if b then read_block dev d block buffer end (some end) w.world else (ok tt, buffer) in
      elim (Bool-cases test) [
        | inl part ↦
            subst (λ (r : Result (Unit {0}) × List ℕ). length buffer ≤ length r.1)
              (sym (ap read part)) (read_block_le dev d block buffer end (some end) w.world)
        | inr whole ↦
            subst (λ (r : Result (Unit {0}) × List ℕ). length buffer ≤ length r.1)
              (sym (ap read whole)) (omega arith)
      ]

  old_block-IsSame : (block : ℕ) (w : Writing S) → Kept w (old_block clock dev block w)
  unfolding old_block
  old_block-IsSame block w =
      let start = w.pos % w.drive.blksiz / w.drive.sec_length in
      let end = last_sector clock dev w.drive (w.pos % w.drive.blksiz) (length w.left) in
      from start end (read_first clock dev block start w)
        (λ buffer. read_last clock dev block start end buffer w) (read_first_le block start w)
        (λ buffer. read_last_le block start end buffer w)
    where
      from_last :
          (start end : ℕ) (last : Result (Unit {0}) × List ℕ)
          → length w.buffer ≤ length last.1
          → OnStep (IsSame clock w) (IsSame clock w) (elim last.0 [
            | err why ↦
                stop why (record w { block = block; start = start; end = end; buffer = last.1 })
            | ok done ↦ go (record w { block = block; start = start; end = end; buffer = last.1 })
          ])
      from_last start end (err why, buffer) long = record {
        same_left = refl;
        same_got = refl;
        same_pos = refl;
        same_blksiz = refl;
        later = at_once;
        longer = long;
      }
      from_last start end (ok done, buffer) long = record {
        same_left = refl;
        same_got = refl;
        same_pos = refl;
        same_blksiz = refl;
        later = at_once;
        longer = long;
      }

      from :
          (start end : ℕ) (first : Result (Unit {0}) × List ℕ)
          (next : List ℕ → Result (Unit {0}) × List ℕ)
          → length w.buffer ≤ length first.1
          → ((buffer : List ℕ) → length buffer ≤ length (next buffer).1)
          → OnStep (IsSame clock w) (IsSame clock w) (elim first.0 [
            | err why ↦
                stop why (record w { block = block; start = start; end = end; buffer = first.1 })
            | ok done ↦ elim (next first.1).0 [
              | err why ↦
                  stop why (record w {
                    block = block;
                    start = start;
                    end = end;
                    buffer = (next first.1).1;
                  })
              | ok done' ↦
                  go (record w {
                    block = block;
                    start = start;
                    end = end;
                    buffer = (next first.1).1;
                  })
            ]
          ])
      from start end (err why, buffer) next long more = record {
        same_left = refl;
        same_got = refl;
        same_pos = refl;
        same_blksiz = refl;
        later = at_once;
        longer = long;
      }
      from start end (ok done, buffer) next long more =
          from_last start end (next buffer) (omega (arith, long, more buffer))

  pub choose_block-IsSame : (e : Entry) (w : Writing S) → Kept w (choose_block clock dev e w)
  unfolding choose_block
  choose_block-IsSame e w =
      let d = w.drive in
      let ptr = pointer_index d w.pos in
      let block = pointer_at d e ptr in
      elim (Bool-cases (block == 0)) [
        | inl none_yet ↦
            subst (Kept w)
              (sym (
                ap (λ b. if b then new_block clock dev ptr w else old_block clock dev block w)
                  none_yet))
              (new_block-IsSame ptr w)
        | inr there ↦
            subst (Kept w)
              (sym (
                ap (λ b. if b then new_block clock dev ptr w else old_block clock dev block w)
                  there))
              (old_block-IsSame block w)
      ]
