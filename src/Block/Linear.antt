-- ===== src/Block/Linear.antt =====
-- `readBlock` and `writeBlock` of cpmfs.c step through a block by `++sect` with a wrap at the end of a
-- track; the reference loops here compute the place of each sector by division instead.
use cpmtools.Base.{
  ℕ, zero, suc, ◌+◌, ◌*◌, ◌/◌, ◌%◌, ◌<◌, ◌≡◌, refl, ap, ◌∙◌, true, false, List, arith, leb,
  if◌then◌else◌, take, drop, inl, inr, Bool-cases, Option, none, some, Option-cases,
}
use cpmtools.Super.{Drive, Result, ok, err, device_error, beyond_end}
use cpmtools.Block.{
  Device, splice, next_sect, next_track, per_block, rounds, read_sectors, read_block, write_sectors,
  write_block,
}
use cpmtools.Block.Address.{base, track_of, sector_of, next_linear, write_start}

module _ {S : Type 0} (dev : Device S) (d : Drive) (blockno : ℕ) where
  -- Sectors `counter`, `counter + 1`, … of the block, those before `start` left out.
  unfoldable pub read_linear : ℕ → ℕ → ℕ → S → List ℕ → Result (Unit {0}) × List ℕ
  read_linear zero counter start s buffer = (ok tt, buffer)
  read_linear (suc n) counter start s buffer = elim (leb start counter) [
    | false ↦ read_linear n (suc counter) start s buffer
    | true ↦ elim (dev.read_sector s (track_of d blockno counter) (sector_of d blockno counter)) [
      | none ↦ (err device_error, buffer)
      | some bytes ↦
          read_linear n (suc counter) start s (splice buffer (d.sec_length * counter) bytes)
    ]
  ]

  unfoldable pub write_linear : ℕ → ℕ → ℕ → List ℕ → S → Result (Unit {0}) × S
  write_linear zero counter start buffer s = (ok tt, s)
  write_linear (suc n) counter start buffer s = elim (leb start counter) [
    | false ↦ write_linear n (suc counter) start buffer s
    | true ↦
        elim (dev.write_sector s (track_of d blockno counter) (sector_of d blockno counter)
          (take d.sec_length (drop (d.sec_length * counter) buffer))) [
            | none ↦ (err device_error, s)
            | some s' ↦ write_linear n (suc counter) start buffer s'
          ]
  ]

  -- The place of sector `c`, as the loops keep it.
  At : ℕ → ℕ → ℕ → Type 0
  At c sect track =
      (sect ≡ (base d blockno + c) % d.sectrk) × (track ≡ (base d blockno + c) / d.sectrk)

  At-next :
      (c sect track : ℕ)
      → 0 < d.sectrk
      → At c sect track
      → At (suc c) (next_sect d.sectrk sect) (next_track d.sectrk sect track)
  unfolding At
  At-next c sect track h (p, q) =
      let u = next_linear d.sectrk (base d blockno + c) h in
      let e : base d blockno + suc c ≡ suc (base d blockno + c) = omega arith in
      (rw (p, e) u.0, rw (p, q, e) u.1)

  read_sectors_linear :
      (n counter start sect track : ℕ) (s : S) (buffer : List ℕ)
      → 0 < d.sectrk
      → At counter sect track
      → read_sectors dev d n counter start sect track s buffer
        ≡ read_linear n counter start s buffer
  unfolding read_sectors read_linear At
  read_sectors_linear zero counter start sect track s buffer h a = refl
  read_sectors_linear (suc n) counter start sect track s buffer h a =
      let next = At-next counter sect track h a in
      elim (Bool-cases (leb start counter)) [
        | inr low ↦
            rw (low, read_sectors, read_linear)
              (read_sectors_linear n (suc counter) start (next_sect d.sectrk sect)
                (next_track d.sectrk sect track) s buffer h next)
        | inl high ↦
            elim (Option-cases
              (dev.read_sector s (track_of d blockno counter) (sector_of d blockno counter))) [
                | inl fails ↦ rw (high, read_sectors, read_linear, a.0, a.1, fails) refl
                | inr (bytes, reads) ↦
                    rw (high, read_sectors, read_linear, a.0, a.1, reads)
                      (read_sectors_linear n (suc counter) start (next_sect d.sectrk sect)
                        (next_track d.sectrk sect track) s
                        (splice buffer (d.sec_length * counter) bytes) h next)
              ]
      ]

  write_sectors_linear :
      (n counter start sect track : ℕ) (buffer : List ℕ) (s : S)
      → 0 < d.sectrk
      → At counter sect track
      → write_sectors dev d n counter start sect track buffer s
        ≡ write_linear n counter start buffer s
  unfolding write_sectors write_linear At
  write_sectors_linear zero counter start sect track buffer s h a = refl
  write_sectors_linear (suc n) counter start sect track buffer s h a =
      let next = At-next counter sect track h a in
      elim (Bool-cases (leb start counter)) [
        | inr low ↦
            rw (low, write_sectors, write_linear)
              (write_sectors_linear n (suc counter) start (next_sect d.sectrk sect)
                (next_track d.sectrk sect track) buffer s h next)
        | inl high ↦
            elim (Option-cases (
              dev.write_sector s (track_of d blockno counter) (sector_of d blockno counter)
                (take d.sec_length (drop (d.sec_length * counter) buffer)))) [
                  | inl fails ↦ rw (high, write_sectors, write_linear, a.0, a.1, fails) refl
                  | inr (s', writes) ↦
                      rw (high, write_sectors, write_linear, a.0, a.1, writes)
                        (write_sectors_linear n (suc counter) start (next_sect d.sectrk sect)
                          (next_track d.sectrk sect track) buffer s' h next)
                ]
      ]

  At-read : At 0 (base d blockno % d.sectrk) (base d blockno / d.sectrk)
  unfolding At
  At-read = (ap (λ x. x % d.sectrk) (omega arith), ap (λ x. x / d.sectrk) (omega arith))

  At-write :
      0 < d.sectrk
      → At 0 ((blockno * per_block d) % d.sectrk) ((blockno * per_block d) / d.sectrk + d.boottrk)
  unfolding At
  At-write h = let u = write_start d blockno h in (u.0 ∙ At-read.0, u.1 ∙ At-read.1)

-- `readBlock` reads the sectors of the block, from `start` to `end`, each at the track and sector
-- that division gives, on a disk whose tracks have sectors; a block behind the end of the disk is an
-- error.
pub read_block-linear :
    {S : Type 0} (dev : Device S) (d : Drive) (blockno : ℕ) (buffer : List ℕ) (start : ℕ)
    (end : Option ℕ) (s : S)
    → 0 < d.sectrk
    → read_block dev d blockno buffer start end s ≡ (
        if leb d.size blockno
        then (err beyond_end, buffer)
        else read_linear dev d blockno (rounds d end) 0 start s buffer)
unfolding read_block
read_block-linear dev d blockno buffer start end s h =
    rw
      (read_sectors_linear dev d blockno (rounds d end) 0 start (base d blockno % d.sectrk)
        (base d blockno / d.sectrk) s buffer h (At-read dev d blockno))
      refl

-- `writeBlock` writes the sectors of the block, from `start` to `end`, each at the track and sector
-- that division gives and where `readBlock` reads it, on a disk whose tracks have sectors.
pub write_block-linear :
    {S : Type 0} (dev : Device S) (d : Drive) (blockno : ℕ) (buffer : List ℕ) (start : ℕ)
    (end : Option ℕ) (s : S)
    → 0 < d.sectrk
    → write_block dev d blockno buffer start end s
      ≡ write_linear dev d blockno (rounds d end) 0 start buffer s
unfolding write_block
write_block-linear dev d blockno buffer start end s h =
    write_sectors_linear dev d blockno (rounds d end) 0 start ((blockno * per_block d) % d.sectrk)
      ((blockno * per_block d) / d.sectrk + d.boottrk) buffer s h (At-write dev d blockno h)
