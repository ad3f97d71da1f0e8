-- ===== src/Posix.antt =====
-- src/device_posix.c: the sectors of an image file. An open file is the list of its bytes; `lseek`
-- succeeds, `read` returns what there is up to the end of the file, and `write` fills a gap behind the
-- end with zeros and stores all of its bytes. A failed assertion is `none`.
pub mod Sectors
use cpmtools.Base.{
  ℕ, zero, suc, ◌+◌, ◌-◌, ◌*◌, ◌&&◌, List, [], ◌∷◌, ◌++◌, Option, none, some, ◌==◌, ltb,
  if◌then◌else◌, length, take, drop, replicate,
}
use cpmtools.Super.{Drive}
use cpmtools.Block.{Device}

-- bytes stored from the start of what is left of the file
unfoldable pub over : List ℕ → List ℕ → List ℕ
over s [] = s
over [] (b ∷ bs) = b ∷ over [] bs
over (x ∷ s) (b ∷ bs) = b ∷ over s bs

-- `write` at a position of the file
pub write_at : List ℕ → ℕ → List ℕ → List ℕ
write_at s zero bytes = over s bytes
write_at [] (suc p) bytes = 0 ∷ write_at [] p bytes
write_at (x ∷ s) (suc p) bytes = x ∷ write_at s p bytes

-- `((sector + track * this->sectrk)*this->secLength) + this->offset`
unfoldable pub position : Drive → ℕ → ℕ → ℕ
position d track sector = (sector + track * d.sectrk) * d.sec_length + d.offset

-- `memset(buf + res, 0, this->secLength - res)`
abbrev pub zero_fill : ℕ → List ℕ → List ℕ
zero_fill n bytes = bytes ++ replicate (n - length bytes) 0

-- `Device_readSector`, with the geometry of the super block
unfoldable pub read_sector : Drive → List ℕ → ℕ → ℕ → Option (List ℕ)
unfolding position
read_sector d s track sector =
    if ltb sector d.sectrk && ltb track d.tracks
    then some (zero_fill d.sec_length (take d.sec_length (drop (position d track sector) s)))
    else none

-- `Device_writeSector`. The buffer is one of `secLength` bytes.
unfoldable pub write_sector : Drive → List ℕ → ℕ → ℕ → List ℕ → Option (List ℕ)
unfolding position write_at over
write_sector d s track sector buf =
    if ltb sector d.sectrk && ltb track d.tracks && length buf == d.sec_length
    then some (write_at s (position d track sector) buf)
    else none

-- the device of an image file
abbrev pub image : Drive → Device (List ℕ)
image d = record { read_sector = read_sector d; write_sector = write_sector d }
