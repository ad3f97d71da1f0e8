-- ===== src/Writing/Buffer.antt =====
-- The buffer of `cpmWrite` of cpmfs.c does not become shorter when sectors are read into it.
use cpmtools.Base.{
  ℕ, zero, suc, ◌+◌, ◌-◌, ◌*◌, ◌≤◌, ◌≡◌, inl, inr, refl, ap, List, [], ◌∷◌, ◌++◌, arith, leb,
  Option, Bool-cases, Option-cases, length, take, drop, replicate, get_or,
}
use cpmtools.Super.{Drive}
use cpmtools.Block.{Device, splice, next_sect, next_track, rounds, read_sectors, read_block}
use cpmtools.Sync.Bytes.{length-append, length-drop}

length-take_le : (n : ℕ) (xs : List ℕ) → length xs ≤ length (take n xs) + (length xs - n)
length-take_le zero xs = omega arith
length-take_le (suc n) [] = omega arith
length-take_le (suc n) (x ∷ xs) = omega (arith, length-take_le n xs)

length-splice_le :
    (buffer : List ℕ) (k : ℕ) (bytes : List ℕ) → length buffer ≤ length (splice buffer k bytes)
length-splice_le buffer k bytes =
    let whole = length-append (take k buffer) (bytes ++ drop (k + length bytes) buffer) in
    let back = length-append bytes (drop (k + length bytes) buffer) in
    omega (arith, whole, back, length-drop (k + length bytes) buffer, length-take_le k buffer)

length-replicate : (n x : ℕ) → length (replicate n x) ≡ n
length-replicate zero x = refl
length-replicate (suc n) x = ap suc (length-replicate n x)

pub cleared_le : (n : ℕ) (buffer : List ℕ) → length buffer ≤ length (replicate n 0 ++ drop n buffer)
cleared_le n buffer = omega (
  arith,
  length-append (replicate n 0) (drop n buffer),
  length-replicate n 0,
  length-drop n buffer,
)

module _ {S : Type 0} (dev : Device S) (d : Drive) where
  read_sectors_le :
      (n counter start sect track : ℕ) (s : S) (buffer : List ℕ)
      → length buffer ≤ length (read_sectors dev d n counter start sect track s buffer).1
  unfolding read_sectors
  read_sectors_le zero counter start sect track s buffer = omega arith
  read_sectors_le (suc n) counter start sect track s buffer =
      elim (Bool-cases (leb start counter)) [
        | inr low ↦
            rw (low, read_sectors)
              (read_sectors_le n (suc counter) start (next_sect d.sectrk sect)
                (next_track d.sectrk sect track) s buffer)
        | inl high ↦ elim (Option-cases (dev.read_sector s track (get_or d.skewtab sect 0))) [
          | inl fails ↦ rw (high, fails, read_sectors) (omega arith)
          | inr (bytes, reads) ↦
              let next = splice buffer (d.sec_length * counter) bytes in
              let more =
                read_sectors_le n (suc counter) start (next_sect d.sectrk sect)
                  (next_track d.sectrk sect track) s next in
              let longer = length-splice_le buffer (d.sec_length * counter) bytes in
              rw (high, reads, read_sectors) (omega (arith, more, longer))
        ]
      ]

  pub read_block_le :
      (blockno : ℕ) (buffer : List ℕ) (start : ℕ) (end : Option ℕ) (s : S)
      → length buffer ≤ length (read_block dev d blockno buffer start end s).1
  unfolding read_block
  read_block_le blockno buffer start end s = elim (Bool-cases (leb d.size blockno)) [
    | inl beyond ↦ rw (beyond, read_block) (omega arith)
    | inr inside ↦ rw (inside, read_block) (read_sectors_le (rounds d end) 0 start _ _ s buffer)
  ]
