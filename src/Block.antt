-- ===== src/Block.antt =====
-- src/cpmfs.c, "logical block I/O": `readBlock` and `writeBlock` over the sectors of a device. The
-- device is a parameter, `Device_readSector` and `Device_writeSector` of src/device.h, of which
-- the drivers are system and library calls; `none` is an error string. The assertions on the block
-- number and on the skew table are left out.
pub mod Address
pub mod Linear
pub mod Splice
pub mod Storage
pub mod Partial
use cpmtools.Base.{
  ℕ, zero, suc, ◌+◌, ◌-◌, ◌*◌, ◌/◌, ◌%◌, Bool, true, false, List, [], ◌∷◌, ◌++◌, Option, none, some,
  leb, if◌then◌else◌, length, get_or, take, drop,
}
use cpmtools.Super.{Drive, Result, ok, err, Boo, beyond_end, device_error}

-- A device whose content is a value of `S`: a track, a sector, and the bytes of a sector.
pub record Device (S : Type 0) : Type 0 where
  pub read_sector : S → ℕ → ℕ → Option (List ℕ)
  pub write_sector : S → ℕ → ℕ → List ℕ → Option S

-- The bytes of the buffer from `offset` on, replaced.
abbrev pub splice : List ℕ → ℕ → List ℕ → List ℕ
splice buffer offset bytes = take offset buffer ++ (bytes ++ drop (offset + length bytes) buffer)

-- `++sect; if (sect >= d->sectrk) { sect = 0; ++track; }`
abbrev pub next_sect : ℕ → ℕ → ℕ
next_sect sectrk sect = if leb sectrk (suc sect) then 0 else suc sect

abbrev pub next_track : ℕ → ℕ → ℕ → ℕ
next_track sectrk sect track = if leb sectrk (suc sect) then suc track else track

-- The sectors of a block.
abbrev pub per_block : Drive → ℕ
per_block d = d.blksiz / d.sec_length

-- The rounds of the loop `for (counter = 0; counter <= end; ++counter)`, where `none` is an `end`
-- below 0, which stands for the last sector of the block.
abbrev pub rounds : Drive → Option ℕ → ℕ
rounds d none = per_block d
rounds d (some end) = suc end

module _ {S : Type 0} (dev : Device S) (d : Drive) where
  -- The loop of `readBlock`: what it returns, with what it leaves in the buffer. Sectors before
  -- `start` are passed over.
  unfoldable pub read_sectors : ℕ → ℕ → ℕ → ℕ → ℕ → S → List ℕ → Result (Unit {0}) × List ℕ
  read_sectors zero counter start sect track s buffer = (ok tt, buffer)
  read_sectors (suc n) counter start sect track s buffer = elim (leb start counter) [
    | false ↦
        read_sectors n (suc counter) start (next_sect d.sectrk sect)
          (next_track d.sectrk sect track) s buffer
    | true ↦ elim (dev.read_sector s track (get_or d.skewtab sect 0)) [
      | none ↦ (err device_error, buffer)
      | some bytes ↦
          read_sectors n (suc counter) start (next_sect d.sectrk sect)
            (next_track d.sectrk sect track) s (splice buffer (d.sec_length * counter) bytes)
    ]
  ]

  -- `readBlock`
  unfoldable pub read_block : ℕ → List ℕ → ℕ → Option ℕ → S → Result (Unit {0}) × List ℕ
  unfolding read_sectors
  read_block blockno buffer start end s =
      if leb d.size blockno
      then (err beyond_end, buffer)
      else read_sectors (rounds d end) 0 start
          ((blockno * per_block d + d.sectrk * d.boottrk) % d.sectrk)
          ((blockno * per_block d + d.sectrk * d.boottrk) / d.sectrk) s buffer

  -- The loop of `writeBlock`: what it returns, with the device that it leaves.
  pub write_sectors : ℕ → ℕ → ℕ → ℕ → ℕ → List ℕ → S → Result (Unit {0}) × S
  write_sectors zero counter start sect track buffer s = (ok tt, s)
  write_sectors (suc n) counter start sect track buffer s = elim (leb start counter) [
    | false ↦
        write_sectors n (suc counter) start (next_sect d.sectrk sect)
          (next_track d.sectrk sect track) buffer s
    | true ↦
        elim (dev.write_sector s track (get_or d.skewtab sect 0)
          (take d.sec_length (drop (d.sec_length * counter) buffer))) [
            | none ↦ (err device_error, s)
            | some s' ↦
                write_sectors n (suc counter) start (next_sect d.sectrk sect)
                  (next_track d.sectrk sect track) buffer s'
          ]
  ]

  -- `writeBlock`
  unfoldable pub write_block : ℕ → List ℕ → ℕ → Option ℕ → S → Result (Unit {0}) × S
  unfolding write_sectors
  write_block blockno buffer start end s =
      write_sectors (rounds d end) 0 start ((blockno * per_block d) % d.sectrk)
        ((blockno * per_block d) / d.sectrk + d.boottrk) buffer s
