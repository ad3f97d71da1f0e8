-- ===== src/Content/Fetch.antt =====
-- The buffer that `cpmRead` of cpmfs.c fills with the block of a position, or the part of it that is asked
-- for.
use cpmtools.Base.{
  ℕ, zero, suc, ◌+◌, ◌-◌, ◌*◌, ◌/◌, ◌%◌, ◌≤◌, ◌<◌, ◌≡◌, inl, inr, refl, sym, ap, ◌∙◌, List, [], ◌∷◌,
  ◌++◌, arith, ltb, ◌==◌, if◌then◌else◌, some, get_elem?, get_or, drop, replicate, length,
  Bool-cases,
}
use native.Mathlib.Nat.{
  div-add-mod', mod-lt, div-mul-le_self, lt-div-mul-add, lt_of_mul-lt-mul_left,
}
use cpmtools.Entry.{Entry}
use cpmtools.Super.{Drive, Result, ok}
use cpmtools.Inode.{Inode}
use cpmtools.Block.{Device, per_block}
use cpmtools.Block.Partial.{IsReadable, disk_byte, read_block-Holds}
use cpmtools.Content.{extcap, pointer_index, pointer_at, extent_at, Reading, fetch_block}
use cpmtools.Content.Bytes.{IsFormat, entry_byte}
use cpmtools.Content.Windows.{div_unique, block-window, pointer-block}

module _ {S : Type 0} (dev : Device S) (d : Drive) (ino : Inode) (s : S) where
  -- The blocks that the entries of the file name lie on the disk.
  pub record IsSound : Type 0 where
    pub format : IsFormat d
    pub readable : IsReadable dev d s
    pub inside :
        (p x : ℕ) (e : Entry)
        → p < ino.size
        → extent_at d ino p ≡ some x
        → get_elem? d.dir x ≡ some e
        → pointer_at d e (pointer_index d p) < d.size

  -- The buffer has room for a block.
  abbrev pub HasRoom : Reading → Type 0
  HasRoom r = d.blksiz ≤ length r.buffer

  -- Facts on the positions of the block that the position of a round lies in.
  pub record InBlock (pos : ℕ) (p : ℕ) : Type 0 where
    pub same_block : p / d.blksiz ≡ pos / d.blksiz
    pub same_extent : p / extcap d ≡ pos / extcap d
    pub same_pointer : pointer_index d p ≡ pointer_index d pos
    pub offset : p % d.blksiz ≡ p - pos / d.blksiz * d.blksiz

  pub in_block :
      (pos p : ℕ) → IsFormat d → pos ≤ p → p < pos / d.blksiz * d.blksiz + d.blksiz → InBlock pos p
  unfolding pointer_index
  in_block pos p format h k =
      let b = d.blksiz in
      let c = extcap d in
      let n = pos / b in
      let x = pos / c in
      let cap : 0 < c = omega (arith, format.capacity, format.extents_positive) in
      let w = block-window c b format.pointers pos format.block_positive cap format.whole_blocks in
      let low = div-mul-le_self pos b in
      let block = div_unique p b n (omega (arith, low, h)) k in
      let ext = div_unique p c x (omega (arith, low, h, w.0)) (omega (arith, k, w.1)) in
      let ptr : p % c / b ≡ pos % c / b =
        pointer-block c b format.pointers p x n format.block_positive format.whole_blocks w.2 ext.0
          block.0
        ∙ sym (
            pointer-block c b format.pointers pos x n format.block_positive format.whole_blocks w.2
              refl refl) in
      record {
        same_block = block.0;
        same_extent = ext.0;
        same_pointer = ap (λ m. if ltb 256 d.size then m * 2 else m) ptr;
        offset = block.1;
      }

  get_or-zeros : (n : ℕ) (rest : List ℕ) (i : ℕ) → i < n → get_or (replicate n 0 ++ rest) i 0 ≡ 0
  get_or-zeros zero rest i h = absurd (omega arith)
  get_or-zeros (suc n) rest zero h = refl
  get_or-zeros (suc n) rest (suc i) h = get_or-zeros n rest i (omega arith)

  length-zeros :
      (n : ℕ) (buffer : List ℕ)
      → n ≤ length buffer
      → length (replicate n 0 ++ drop n buffer) ≡ length buffer
  length-zeros zero buffer h = refl
  length-zeros (suc n) [] h = absurd (omega arith)
  length-zeros (suc n) (x ∷ xs) h = ap suc (length-zeros n xs (omega arith))

  -- A block is fetched: the bytes from the position on that are asked for are in the buffer.
  pub record Fetched (e : Entry) (r : Reading) (f : Result (Unit {0}) × List ℕ) : Type 0 where
    pub buffer : List ℕ
    pub result : f ≡ (ok tt, buffer)
    pub length_eq : length buffer ≡ length r.buffer
    pub bytes :
        (p : ℕ)
        → r.pos ≤ p
        → p < r.pos / d.blksiz * d.blksiz + d.blksiz
        → p < r.pos + r.count
        → get_or buffer (p % d.blksiz) 0 ≡ entry_byte dev d ino s (some e) p

  -- The byte of a position in the block that a pointer of an entry names.
  abbrev byte_at_pointer : Entry → ℕ → ℕ → ℕ
  byte_at_pointer e ptr p = disk_byte dev d s (pointer_at d e ptr) (p % d.blksiz)

  entry_byte_lem :
      (e : Entry) (pos p : ℕ)
      → InBlock pos p
      → entry_byte dev d ino s (some e) p ≡ (
          if pointer_at d e (pointer_index d pos) == 0
          then 0
          else byte_at_pointer e (pointer_index d pos) p)
  entry_byte_lem e pos p at =
      ap (λ i. if pointer_at d e i == 0 then 0 else byte_at_pointer e i p) at.same_pointer

  -- The last byte of a block that is asked for.
  abbrev last_byte : ℕ → ℕ → ℕ
  last_byte off count = if ltb d.blksiz (off + count) then d.blksiz - 1 else off + count - 1

  last_byte-lt :
      (off count : ℕ) → 0 < d.blksiz → off < d.blksiz → 0 < count → last_byte off count < d.blksiz
  last_byte-lt off count h p q = ground arith

  last_byte-le : (off count o : ℕ) → o < d.blksiz → o < off + count → o ≤ last_byte off count
  last_byte-le off count o p q = ground arith

  sector_in : (o : ℕ) → IsFormat d → o < d.blksiz → o / d.sec_length < per_block d
  sector_in o f h =
      lt_of_mul-lt-mul_left d.sec_length
        (omega (arith, div-mul-le_self o d.sec_length, h, f.whole_sectors))

  pub fetch_block-Fetched :
      (sound : IsSound) (e : Entry) (r : Reading)
      → HasRoom r
      → 0 < r.count
      → pointer_at d e (pointer_index d r.pos) < d.size
      → Fetched e r (fetch_block dev d ino s e r)
  unfolding fetch_block
  fetch_block-Fetched sound e r room asked inside =
      elim (Bool-cases (pointer_at d e (pointer_index d r.pos) == 0)) [
        | inl hole ↦ record {
          buffer = replicate d.blksiz 0 ++ drop d.blksiz r.buffer;
          result = rw (hole, fetch_block) refl;
          length_eq = length-zeros d.blksiz r.buffer room;
          bytes = λ p h k l.
              let at = in_block r.pos p sound.format h k in
              get_or-zeros d.blksiz (drop d.blksiz r.buffer) (p % d.blksiz)
                (mod-lt p sound.format.block_positive)
              ∙ ap (λ t. if t then 0 else byte_at_pointer e (pointer_index d r.pos) p) (sym hole)
              ∙ sym (entry_byte_lem e r.pos p at);
        }
        | inr full ↦
            let f = sound.format in
            let l = d.sec_length in
            let off = r.pos % d.blksiz in
            let held =
              read_block-Holds dev d s sound.readable (pointer_at d e (pointer_index d r.pos))
                inside r.buffer (off / l) (last_byte off r.count / l) f.sectors_positive
                (sector_in (last_byte off r.count) f
                  (last_byte-lt off r.count f.block_positive (mod-lt r.pos f.block_positive) asked))
                (omega (arith, room, f.whole_sectors)) in
            record {
              buffer = held.buffer;
              result = rw (full, fetch_block) held.result;
              length_eq = held.length_eq;
              bytes = λ p h k m.
                  let at = in_block r.pos p f h k in
                  let whole = div-add-mod' r.pos d.blksiz in
                  let low = div-mul-le_self off l in
                  let o = at.offset in
                  let n = r.pos / d.blksiz * d.blksiz in
                  let high : p % d.blksiz ≤ last_byte off r.count =
                    last_byte-le off r.count (p % d.blksiz) (omega (arith, whole, o, k))
                      (omega (arith, whole, o, m, asked)) in
                  let next = lt-div-mul-add {a = last_byte off r.count} {b = l} f.bytes_positive in
                  held.bytes (p % d.blksiz) (omega (arith, whole, o, low, h))
                    (omega (arith, next, high))
                  ∙ ap (λ t. if t then 0 else byte_at_pointer e (pointer_index d r.pos) p)
                      (sym full)
                  ∙ sym (entry_byte_lem e r.pos p at);
            }
      ]
